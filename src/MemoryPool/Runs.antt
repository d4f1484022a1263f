-- ===== src/MemoryPool/Runs.antt =====
-- The operations that the program has on the pool, in every order.
use io_scheduler.MemoryPool.{
  Block, Manager, allocate_memory, delete_object, index, max_size, new_manager, new_object,
  pop_node, recory_memory, recycle_memory,
}
use io_scheduler.MemoryPool.Fill.{index-range}
use io_scheduler.Prelude.{
  Bool-cases, List, OnSome, Option, [], arith, All, OnSome-some, get_elem?-lt, ltb_false→le, update,
  inl, inr, length-set, ltb, none, set, some, ℕ, ◌<◌, ◌==◌, ◌∙◌, ◌∷◌, ◌≡◌,
}
use io_scheduler.MemoryPool.Invariant.{
  PoolInv, allocate_memory-num, fill-PoolInv, new_manager-PoolInv,
}

-- What the program does with the pool; a size is that of the object, and an address the object's.
pub data PoolOp : Type 0 where
  creates : (size : ℕ) → PoolOp
  deletes : (object : ℕ) → PoolOp
  recycles : (object : ℕ) → PoolOp

-- No object has the size 0.
abbrev pub IsSized : PoolOp → Type 0
IsSized (creates size) = 0 < size
IsSized _ = Unit

unfoldable pub pool_step : (ℕ → ℕ → ℕ) → PoolOp → Manager → Option Manager
pool_step malloc (creates size) m = elim (new_object malloc size m) [
  | none ↦ none
  | some r ↦ some r.1
]
pool_step malloc (deletes object) m = elim (delete_object object m) [
  | none ↦ none
  | some r ↦ some r.1
]
pool_step malloc (recycles object) m = some (recycle_memory object m).1

unfoldable pub pool_steps : (ℕ → ℕ → ℕ) → List PoolOp → Manager → Option Manager
pool_steps malloc [] m = some m
pool_steps malloc (o ∷ ops) m = elim (pool_step malloc o m) [
  | none ↦ none
  | some m' ↦ pool_steps malloc ops m'
]

recory_memory-num : (a : ℕ) (b : Block) → (recory_memory a b).num ≡ b.num
unfolding recory_memory
recory_memory-num a b = ground arith

module _ (malloc : ℕ → ℕ → ℕ) where
  with_queue-PoolInv :
      (i a : ℕ) (f : ℕ → ℕ) (m : Manager)
      → PoolInv m
      → PoolInv (record m { next = f; free_list = set m.free_list i a })
  with_queue-PoolInv i a f m v = record {
    queues = length-set m.free_list i a ∙ v.queues;
    left = v.left;
    grows = v.grows;
  }

  new_object-PoolInv :
      (size : ℕ) (m : Manager)
      → PoolInv m
      → 0 < size
      → OnSome (λ (r : ℕ × Manager). PoolInv r.1) (new_object malloc size m)
  unfolding new_object pop_node
  new_object-PoolInv size m v h = elim (Bool-cases (ltb max_size size)) [
    | inl e ↦
        let ((memory, b, calls), s, n) =
          OnSome-some (λ (r : ℕ × Block × ℕ). r.1.num ≡ m.block.num)
            (allocate_memory malloc m.calls m.block)
            (allocate_memory-num malloc m.calls m.block v.grows) in
        rw (e, s) (record { queues = v.queues; left = v.left; grows = rw n v.grows })
    | inr e ↦
        let small = ltb_false→le 128 size e in
        let (node, g) =
          get_elem?-lt m.free_list (index size) (rw v.queues (index-range size h small)) in
        elim (Bool-cases (node == 0)) [
          | inl z ↦ rw (e, g, z) (fill-PoolInv malloc size m v h small)
          | inr z ↦ rw (e, g, z) (with_queue-PoolInv (index size) (m.next node) m.next m v)
        ]
  ]

  delete_object-PoolInv :
      (object : ℕ) (m : Manager)
      → PoolInv m
      → OnSome (λ (r : ℕ × Manager). PoolInv r.1) (delete_object object m)
  unfolding delete_object
  delete_object-PoolInv object m v = elim (Bool-cases (object == 0)) [
    | inl e ↦ rw e v
    | inr e ↦
        let (node, g) =
          get_elem?-lt m.free_list (index 8)
            (rw v.queues (index-range 8 (omega arith) (omega arith))) in
        rw (e, g) (with_queue-PoolInv (index 8) object (update m.next object node) m v)
  ]

  pool_step-PoolInv :
      (o : PoolOp) (m : Manager) → PoolInv m → IsSized o → OnSome PoolInv (pool_step malloc o m)
  unfolding pool_step recycle_memory
  pool_step-PoolInv (creates size) m v h =
      let (r, e, w) =
        OnSome-some (λ (r : ℕ × Manager). PoolInv r.1) (new_object malloc size m)
          (new_object-PoolInv size m v h) in
      rw (pool_step, e) w
  pool_step-PoolInv (deletes object) m v h =
      let (r, e, w) =
        OnSome-some (λ (r : ℕ × Manager). PoolInv r.1) (delete_object object m)
          (delete_object-PoolInv object m v) in
      rw (pool_step, e) w
  pool_step-PoolInv (recycles object) m v h = elim (Bool-cases (object == 0)) [
    | inl e ↦ rw e v
    | inr e ↦ rw e (record {
      queues = v.queues;
      left = v.left;
      grows = rw (recory_memory-num object m.block) v.grows;
    })
  ]

  pub pool_steps-PoolInv :
      (ops : List PoolOp) (m : Manager)
      → PoolInv m
      → All IsSized ops
      → OnSome PoolInv (pool_steps malloc ops m)
  unfolding pool_steps
  pool_steps-PoolInv [] m v h = v
  pool_steps-PoolInv (o ∷ ops) m v h =
      let (m', e, w) = OnSome-some PoolInv (pool_step malloc o m) (pool_step-PoolInv o m v h.0) in
      rw (pool_steps, e) (pool_steps-PoolInv ops m' w h.1)

  -- If no object has the size 0: whatever is created, deleted and recycled since the constructor of the pool, in
  -- any order, no operation reads out of range, fails an assertion or needs more than the second call of
  -- `allocate`; there are 16 queues, what is left of the pool is a whole number of nodes, and a block grows.
  pub pool_steps-new_manager :
      (ops : List PoolOp) → All IsSized ops → OnSome PoolInv (pool_steps malloc ops new_manager)
  pool_steps-new_manager ops h = pool_steps-PoolInv ops new_manager new_manager-PoolInv h
