-- ===== src/MemoryPool/Queues.antt =====
-- Which queues of the pool a creation changes.
use io_scheduler.MemoryPool.{
  Manager, allocate, fill, finish, index, link, new_chunk, new_object, roundup, serve, write_end,
  write_next,
}
use io_scheduler.MemoryPool.Fill.{Supplied, allocate-Supplied, room-made}
use io_scheduler.MemoryPool.Invariant.{PoolInv, new_chunk-room, roundup_words}
use io_scheduler.Prelude.{
  Bool-cases, OnSome, subst, OnSome-both, Option, ap, arith, get_elem?, le→ltb_false, inl, inr, leb,
  leb_false→lt, le→leb, refl, some, suc, sym, zero, ℕ, ◌*◌, ◌+◌, ◌-◌, ◌<◌, ◌==◌, ◌∙◌, ◌≡◌, ◌≢◌, ◌≤◌,
}

link-free_list :
    (size current number : ℕ) (m : Manager) → (link size current number m).1.free_list ≡ m.free_list
unfolding link
link-free_list size current zero m = refl
link-free_list size current (suc number) m =
    link-free_list size (current + size) number (write_next current (current + size) m)

write_end-free_list : (current : ℕ) (m : Manager) → (write_end current m).free_list ≡ m.free_list
unfolding write_end
write_end-free_list current m = ground arith

finish-free_list : (size : ℕ) (r : ℕ × ℕ × Manager) → (finish size r).1.free_list ≡ r.2.free_list
unfolding finish
finish-free_list size (head, number, m) = elim (Bool-cases (number == 1)) [
  | inl e ↦ rw e refl
  | inr e ↦
      let (current, linked) = link size head number m in
      rw e (write_end-free_list current linked ∙ link-free_list size head number m)
]

link-begin :
    (size current number : ℕ) (m : Manager) → (link size current number m).1.begin ≡ m.begin
unfolding link
link-begin size current zero m = refl
link-begin size current (suc number) m =
    link-begin size (current + size) number (write_next current (current + size) m)

write_end-begin : (current : ℕ) (m : Manager) → (write_end current m).begin ≡ m.begin
unfolding write_end
write_end-begin current m = ground arith

finish-begin :
    (size : ℕ) (r : ℕ × ℕ × Manager)
    → ((finish size r).0 ≡ r.0) × ((finish size r).1.begin ≡ r.2.begin)
unfolding finish
finish-begin size (head, number, m) = elim (Bool-cases (number == 1)) [
  | inl e ↦ rw e (refl, refl)
  | inr e ↦
      let (current, linked) = link size head number m in
      rw e (refl, write_end-begin current linked ∙ link-begin size head number m)
]

-- What is left of the pool is less than a node, so it goes to a queue before that of the node.
other_queue : (j k : ℕ) → 0 < j → j ≤ 16 → 8 * k < 8 * j → index (8 * j) ≢ index (8 * k)
unfolding index
other_queue j k p b h e = omega arith

module _ (malloc : ℕ → ℕ → ℕ) where
  -- `allocate` changes no queue but that of what was left.
  allocate-queue :
      (j num : ℕ) (o : Option ℕ) (m : Manager)
      → PoolInv m
      → 0 < j
      → j ≤ 16
      → get_elem? m.free_list (index (8 * j)) ≡ o
      → OnSome
          (λ (r : ℕ × ℕ × Manager). get_elem? r.2.free_list (index (8 * j)) ≡ o)
          (allocate malloc 2 (8 * j) num m)
  unfolding allocate serve
  allocate-queue j num o m v p b g =
      let room = m.end - m.begin in
      elim (Bool-cases (leb (8 * j * num) room)) [
        | inl e ↦ rw e g
        | inr e ↦ elim (Bool-cases (leb (8 * j) room)) [
          | inl f ↦ rw (e, f) g
          | inr f ↦
              let less = leb_false→lt (8 * j) room f in
              let (m', r, length_kept, block_kept, calls_kept, queues_kept) =
                room-made malloc (8 * j) (8 * j * num) m less (omega arith) v.queues in
              let (k, left) = v.left in
              let is_room : room ≡ 8 * k = omega (arith, left) in
              let other = other_queue j k p b (rw is_room at less) in
              let queue_kept =
                queues_kept (index (8 * j)) (λ x. other (x ∙ ap index is_room)) ∙ g in
              rw (e, f, r, new_chunk-room malloc (8 * j * num) m') (unfold new_chunk in queue_kept)
        ]
      ]

  index-roundup : (size : ℕ) → 0 < size → size ≤ 128 → index (roundup size) ≡ index size
  unfolding index roundup
  index-roundup size h k = omega arith

  -- What `fill` gets for an object of this size.
  got :
      (size : ℕ) (m : Manager)
      → PoolInv m
      → 0 < size
      → size ≤ 128
      → get_elem? m.free_list (index size) ≡ some 0
      → (served : ℕ × ℕ × Manager) × (allocate malloc 2 (roundup size) 16 m ≡ some served)
        × ((get_elem? served.2.free_list (index size) ≡ some 0)
            × Supplied malloc (roundup size) 16 m served)
  got size m v h k g =
      let (j, e, p, b) = roundup_words size h k in
      let (left, ordered) = v.left in
      let words = sym (index-roundup size h k) ∙ ap index e in
      let taken =
        allocate-Supplied malloc (8 * j) 16 m (omega arith) (omega arith) (omega arith)
          (omega (arith, ordered)) v.queues in
      let both =
        OnSome-both _ _ (allocate malloc 2 (8 * j) 16 m)
          (allocate-queue j 16 (some 0) m v p b (rw words at g)) taken in
      subst
        (λ z.
          (served : ℕ × ℕ × Manager) × (allocate malloc 2 z 16 m ≡ some served)
          × ((get_elem? served.2.free_list (index size) ≡ some 0) × Supplied malloc z 16 m served))
        (sym e) (both.0, both.1, (ap (get_elem? both.0.2.free_list) words ∙ both.2.0, both.2.1))

  -- If the pool has its 16 queues, what is left of it is a whole number of nodes and a block grows: an object of
  -- 1 to 128 bytes whose queue is empty takes between 1 and 16 nodes off the pool, the first of them its own, and
  -- leaves its queue empty.
  pub new_object-queue :
      (size : ℕ) (m : Manager)
      → PoolInv m
      → 0 < size
      → size ≤ 128
      → get_elem? m.free_list (index size) ≡ some 0
      → OnSome
          (λ (r : ℕ × Manager).
            ((nums : ℕ) × (0 < nums) × (nums ≤ 16) × (r.1.begin ≡ r.0 + roundup size * nums))
            × (get_elem? r.1.free_list (index size) ≡ some 0))
          (new_object malloc size m)
  unfolding new_object fill
  new_object-queue size m v h k g =
      let (served, s, (w, q)) = got size m v h k g in
      let (same_head, same_begin) = finish-begin (roundup size) served in
      rw (le→ltb_false 128 size k, g, le→leb size 128 k, s)
        (
          (
            served.1,
            q.0,
            q.1,
            same_begin ∙ q.2 ∙ ap (λ a. a + roundup size * served.1) (sym same_head),
          ),
          ap (λ q. get_elem? q (index size)) (finish-free_list (roundup size) served) ∙ w,
        )
