-- ===== src/MemoryPool/Teardown.antt =====
-- src/manager/memory_pool.cpp: the destructors, and the parts of a block that have no state. An address that is
-- freed or deleted is named in their results.
use io_scheduler.MemoryPool.{Block, Manager, delete_object, index}
use io_scheduler.MemoryPool.Nodes.{ne→==_false}
use io_scheduler.Prelude.{
  OnSome, List, Option, [], get_elem?, if◌then◌else◌, map, none, refl, some, u32_mod, ℕ, ◌%◌, ◌==◌,
  ◌∷◌, ◌≡◌, ◌≢◌,
}

-- The loops that give back each pointer that is not null.
unfoldable pub non_null : List ℕ → List ℕ
non_null [] = []
non_null (a ∷ rest) = let freed = non_null rest in if a == 0 then freed else a ∷ freed

-- `~memory_block`: what is freed, in the order of the vector's back.
unfoldable pub destroy_block : Block → List ℕ
unfolding non_null
destroy_block b = non_null b.free_memory

-- `~memory_manager`: what is deleted, and the manager.
unfoldable pub destroy_manager : Manager → List ℕ × Manager
unfolding non_null
destroy_manager m = (
  non_null m.free_list,
  record m { begin = 0; end = 0; free_list = map (λ a. 0) m.free_list; chunks = [] },
)

-- `memory_block::memory_block(size, num)`; `none` is a failed assertion.
unfoldable pub sized_block : ℕ → ℕ → Option Block
sized_block size num =
    if size == 0
    then none
    else (if num == 0 then none else some (record { size = size; num = num; free_memory = [] }))

-- `get_length` and `get_size`, as `uint`.
unfoldable pub get_length : Block → ℕ
get_length b = b.num % u32_mod

unfoldable pub get_size : Block → ℕ
get_size b = b.size % u32_mod

-- An object that `delete_object` took back is deleted once more by the destructor, at its own address, which
-- is one inside a chunk of the pool.
pub destroy_manager-delete_object :
    (object node : ℕ) (rest : List ℕ) (m : Manager)
    → object ≢ 0
    → OnSome
        (λ r. get_elem? (destroy_manager r.1).0 0 ≡ some object)
        (delete_object object (record m { free_list = node ∷ rest }))
unfolding destroy_manager non_null delete_object index
destroy_manager-delete_object object node rest m h =
    rw (delete_object, ne→==_false object 0 h, ne→==_false object 0 h) refl
