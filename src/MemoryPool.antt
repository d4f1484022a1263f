-- ===== src/MemoryPool.antt =====
-- src/manager/memory_pool.cpp and include/memory_pool.h: blocks of one size, and the pool of small
-- nodes. An address is a number, and 0 is the null pointer. `malloc` is a parameter: what its n-th call
-- answers for a size. Differences and sums of addresses are inside a chunk, so they do not wrap, and a
-- product of at most 16 nodes of at most 128 bytes does not either. `none` is an access out of range or
-- a failed assertion. The lock makes each operation one step.
pub mod Fill
pub mod Invariant
pub mod Nodes
pub mod Runs
pub mod Queues
pub mod Teardown
use io_scheduler.Prelude.{
  List, Option, [], add64, get_elem?, if◌then◌else◌, leb, ltb, none, replicate, set, some, sub64,
  suc, u32_mod, update, zero, ℕ, ◌%◌, ◌*◌, ◌+◌, ◌-◌, ◌/◌, ◌==◌, ◌∷◌,
}

-- `memory_block`; the back of the vector is the head of the list.
pub record Block : Type 0 where
  pub size : ℕ
  pub num : ℕ
  pub free_memory : List ℕ

unfoldable pub new_block : Block
new_block = record { size = 1024; num = 1; free_memory = [] }

-- The loop of `memory_block::expand`; `calls` counts the calls of `malloc`.
unfoldable pub expand_loop : (ℕ → ℕ → ℕ) → ℕ → ℕ → Block → Block × ℕ
expand_loop malloc calls zero b = (b, calls)
expand_loop malloc calls (suc n) b =
    expand_loop malloc (suc calls) n
      (record b { free_memory = malloc calls b.size ∷ b.free_memory })

unfoldable pub expand : (ℕ → ℕ → ℕ) → ℕ → ℕ → Block → Block × ℕ
expand malloc calls num b = expand_loop malloc calls (if num == 0 then b.num else num) b

unfoldable pub take_back : Block × ℕ → Option (ℕ × Block × ℕ)
take_back (b, calls) = elim b.free_memory [
  | [] ↦ none
  | memory ∷ rest ↦ some (memory, record b { free_memory = rest }, calls)
]

unfoldable pub allocate_memory : (ℕ → ℕ → ℕ) → ℕ → Block → Option (ℕ × Block × ℕ)
allocate_memory malloc calls b = elim b.free_memory [
  | [] ↦ take_back (expand malloc calls 0 b)
  | memory ∷ rest ↦ take_back (b, calls)
]

-- The pointer is kept only if it is null.
unfoldable pub recory_memory : ℕ → Block → Block
recory_memory memory b =
    if memory == 0 then record b { free_memory = memory ∷ b.free_memory } else b

-- `sizeof` of a pointer.
abbrev pub pointer_size : ℕ
pointer_size = 8

-- `memory_manager`. `next` is the first word of each node in memory, and `overruns` the addresses of the
-- words written past the end of the chunk, the last first.
pub record Manager : Type 0 where
  pub block : Block
  pub free_list : List ℕ
  pub begin : ℕ
  pub end : ℕ
  pub chunks : List ℕ
  pub next : ℕ → ℕ
  pub calls : ℕ
  pub overruns : List ℕ

abbrev pub max_size : ℕ
max_size = 128

abbrev pub node_num : ℕ
node_num = 16

abbrev pub node_size : ℕ
node_size = 8

unfoldable pub new_manager : Manager
new_manager = record {
  block = new_block;
  free_list = replicate node_num 0;
  begin = 0;
  end = 0;
  chunks = [];
  next = λ a. 0;
  calls = 0;
  overruns = [];
}

-- `~(node_size - 1)` is a 32-bit mask, so the high word is cleared with the low bits.
unfoldable pub roundup : ℕ → ℕ
roundup size = (add64 size (node_size - 1) % u32_mod) / node_size * node_size

unfoldable pub index : ℕ → ℕ
index size = sub64 (add64 size (node_size - 1) / node_size) 1

abbrev pub write_next : ℕ → ℕ → Manager → Manager
write_next a v m = record m { next = update m.next a v }

-- What is left of the pool goes to the queue of its size.
unfoldable pub keep_rest : Manager → Option Manager
keep_rest m = elim (get_elem? m.free_list (index (m.end - m.begin))) [
  | none ↦ none
  | some node ↦ some (record m {
    next = update m.next m.begin node;
    free_list = set m.free_list (index (m.end - m.begin)) m.begin;
  })
]

unfoldable pub new_chunk : (ℕ → ℕ → ℕ) → ℕ → Manager → Manager
new_chunk malloc need m =
    let chunk = malloc m.calls need in
    record m { begin = chunk; end = chunk + need; chunks = chunk ∷ m.chunks; calls = suc m.calls }

unfoldable pub serve : ℕ → ℕ → Manager → ℕ × ℕ × Manager
serve size nums m = (m.begin, nums, record m { begin = m.begin + size * nums })

-- The tail of `allocate` that asks the system: the address space for the second call.
unfoldable pub make_room : (ℕ → ℕ → ℕ) → ℕ → Manager → Option Manager
make_room malloc need m = elim (if ltb 0 (m.end - m.begin) then keep_rest m else some m) [
  | none ↦ none
  | some m ↦ some (new_chunk malloc need m)
]

-- `memory_manager::allocate`, on fuel for its call of itself.
unfoldable pub allocate : (ℕ → ℕ → ℕ) → ℕ → ℕ → ℕ → Manager → Option (ℕ × ℕ × Manager)
allocate malloc zero size num m = none
allocate malloc (suc fuel) size num m =
    if leb (size * num) (m.end - m.begin)
    then some (serve size num m)
    else (if leb size (m.end - m.begin)
        then some (serve size ((m.end - m.begin) / size) m)
        else (elim (make_room malloc (size * num) m) [
          | none ↦ none
          | some m ↦ allocate malloc fuel size num m
        ]))

-- The loop of `fill`: each node is linked to the address after it.
unfoldable pub link : ℕ → ℕ → ℕ → Manager → ℕ × Manager
link size current zero m = (current, m)
link size current (suc number) m =
    link size (current + size) number (write_next current (current + size) m)

-- The null link that `fill` writes, at the address after the last node: past the end of the chunk if that was its last.
unfoldable pub write_end : ℕ → Manager → Manager
write_end current m =
    let m' = write_next current 0 m in
    if leb (current + pointer_size) m.end then m' else record m' { overruns = current ∷ m.overruns }

unfoldable pub finish : ℕ → ℕ × ℕ × Manager → ℕ × Manager
finish size (head, number, m) =
    if number == 1
    then (head, m)
    else (let (current, m) = link size head number m in (head, write_end current m))

-- `memory_manager::fill`. The count asked for is taken only when it is 0.
unfoldable pub fill : (ℕ → ℕ → ℕ) → ℕ → ℕ → Manager → Option (ℕ × Manager)
fill malloc size num m =
    if leb size 128
    then (elim (allocate malloc 2 (roundup size) (if num == 0 then node_num else 0) m) [
      | none ↦ none
      | some served ↦ some (finish (roundup size) served)
    ])
    else none

unfoldable pub pop_node : ℕ → ℕ → Manager → ℕ × Manager
pop_node i node m = (node, record m { free_list = set m.free_list i (m.next node) })

-- `memory_manager::new_object` and `default_new_object` for an object of this size.
unfoldable pub new_object : (ℕ → ℕ → ℕ) → ℕ → Manager → Option (ℕ × Manager)
new_object malloc size m =
    if ltb max_size size
    then (elim (allocate_memory malloc m.calls m.block) [
      | none ↦ none
      | some (memory, b, calls) ↦ some (memory, record m { block = b; calls = calls })
    ])
    else (elim (get_elem? m.free_list (index size)) [
      | none ↦ none
      | some node ↦ if node == 0 then fill malloc size 0 m else some (pop_node (index size) node m)
    ])

-- `memory_manager::delete_object`: the size taken is that of the pointer. The answer has the pointer
-- as it is left.
unfoldable pub delete_object : ℕ → Manager → Option (ℕ × Manager)
delete_object object m =
    if object == 0
    then some (object, m)
    else (if ltb max_size pointer_size
        then some (object, record m { block = recory_memory object m.block })
        else (elim (get_elem? m.free_list (index pointer_size)) [
          | none ↦ none
          | some node ↦ some (
            0,
            record m {
              next = update m.next object node;
              free_list = set m.free_list (index pointer_size) object;
            },
          )
        ]))

-- `memory_manager::recycle_memory`.
unfoldable pub recycle_memory : ℕ → Manager → ℕ × Manager
recycle_memory object m =
    if object == 0 then (object, m) else (0, record m { block = recory_memory object m.block })
