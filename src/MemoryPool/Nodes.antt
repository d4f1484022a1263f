-- ===== src/MemoryPool/Nodes.antt =====
-- What becomes of memory that is given back, and the chain of nodes that `fill` makes.
use io_scheduler.MemoryPool.{
  Manager, allocate, delete_object, fill, finish, index, link, make_room, new_chunk, new_object,
  pop_node, roundup, serve, write_end, write_next,
}
use io_scheduler.Prelude.{
  ap, ==_refl, List, OnSome, Option, arith, false, le→leb, ltb, lt→leb_false, none, refl, some, suc,
  sym, update, zero, ℕ, ◌*◌, ◌+◌, ◌-◌, ◌<◌, ◌==◌, ◌∙◌, ◌∷◌, ◌≡◌, ◌≢◌, ◌≤◌,
}
use io_scheduler.MemoryPool.Fill.{chunk-room}

pub ne→==_false : (a b : ℕ) → a ≢ b → (a == b) ≡ false
ne→==_false a b h = ground arith

small_not-large : (size : ℕ) → size ≤ 8 → ltb 128 size ≡ false
small_not-large size h = ground arith

index-small : (size : ℕ) → 0 < size → size ≤ 8 → index size ≡ 0
unfolding index
index-small size h k = omega arith

abbrev pub delete_then_new : (ℕ → ℕ → ℕ) → ℕ → ℕ → Manager → Option (ℕ × Manager)
delete_then_new malloc size object m = elim (delete_object object m) [
  | none ↦ none
  | some (left, m) ↦ new_object malloc size m
]

-- Memory deleted is kept for objects of at most a pointer's size: the next of those is created in it,
-- and the queue, `node ∷ rest`, is as before.
pub delete_object-new_object :
    (malloc : ℕ → ℕ → ℕ) (size object node : ℕ) (rest : List ℕ) (m : Manager)
    → 0 < size
    → size ≤ 8
    → object ≢ 0
    → delete_then_new malloc size object (record m { free_list = node ∷ rest })
      ≡ some (object, record m { free_list = node ∷ rest; next = update m.next object node })
unfolding delete_object new_object pop_node index
delete_object-new_object malloc size object node rest m p k d =
    rw
      (
        delete_then_new,
        ne→==_false object 0 d,
        small_not-large size k,
        index-small size p k,
        ne→==_false object 0 d,
        ==_refl object,
        index-small size p k,
      )
      refl

-- The chain that `fill` makes: every node of it is linked to the next, and the last word cleared is
-- that of the address after the last node.
link-end :
    (size current number : ℕ) (m : Manager)
    → (link size current number m).0 ≡ current + size * number
unfolding link
link-end size current zero m = omega arith
link-end size current (suc number) m =
    omega (arith, link-end size (current + size) number (write_next current (current + size) m))

link-end_kept : (size current number : ℕ) (m : Manager) → (link size current number m).1.end ≡ m.end
unfolding link
link-end_kept size current zero m = refl
link-end_kept size current (suc number) m =
    link-end_kept size (current + size) number (write_next current (current + size) m)

allocate-used_up :
    (malloc : ℕ → ℕ → ℕ) (size num : ℕ) (m : Manager)
    → 0 < size
    → 0 < size * num
    → m.end - m.begin ≡ 0
    → allocate malloc 2 size num m ≡ some (serve size num (new_chunk malloc (size * num) m))
unfolding allocate make_room new_chunk
allocate-used_up malloc size num m h k e =
    rw
      (
        allocate,
        e,
        lt→leb_false (size * num) 0 k,
        lt→leb_false size 0 h,
        make_room,
        chunk-room (malloc m.calls (size * num)) (size * num),
      )
      refl

update-at : (f : ℕ → ℕ) (a b v : ℕ) → a ≡ b → update f a v b ≡ v
update-at f a b v e = rw (e, ==_refl b) refl

link-overruns :
    (size current number : ℕ) (m : Manager) → (link size current number m).1.overruns ≡ m.overruns
unfolding link
link-overruns size current zero m = refl
link-overruns size current (suc number) m =
    link-overruns size (current + size) number (write_next current (current + size) m)

write_end-past :
    (current : ℕ) (m : Manager)
    → current ≡ m.end
    → let r = write_end current m in
      (r.end ≡ m.end) × (r.next r.end ≡ 0) × (r.overruns ≡ m.end ∷ m.overruns)
unfolding write_end
write_end-past current m e =
    rw (lt→leb_false (current + 8) m.end (omega (arith, e)))
      (refl, update-at m.next current m.end 0 e, ap (λ a. a ∷ m.overruns) e)

finish-past_end :
    (size : ℕ) (m : Manager)
    → m.end ≡ m.begin + size * 16
    → let r = finish size (serve size 16 m) in
      (r.1.end ≡ r.0 + size * 16) × (r.1.next r.1.end ≡ 0) × (r.1.overruns ≡ r.1.end ∷ m.overruns)
unfolding finish serve
finish-past_end size m e =
    let served = (serve size 16 m).2 in
    let (current, linked) = link size m.begin 16 served in
    let ended = link-end_kept size m.begin 16 served in
    let (same, cleared, past) =
      write_end-past current linked (link-end size m.begin 16 served ∙ sym e ∙ sym ended) in
    (
      same ∙ ended ∙ e,
      cleared,
      past
          ∙ ap (λ a. a ∷ linked.overruns) (sym same)
          ∙ ap (λ q. (write_end current linked).end ∷ q) (link-overruns size m.begin 16 served),
    )

roundup-pos : (size : ℕ) → 0 < size → size ≤ 128 → 0 < roundup size
unfolding roundup
roundup-pos size h k = omega arith

-- On a pool that is used up, `fill` writes past the chunk that it gets, at the address of its end: its loop
-- goes one node too far.
pub fill-past_end :
    (malloc : ℕ → ℕ → ℕ) (size : ℕ) (m : Manager)
    → 0 < size
    → size ≤ 128
    → m.begin ≡ m.end
    → OnSome
        (λ (r : ℕ × Manager).
          (r.1.end ≡ r.0 + roundup size * 16)
          × (r.1.next r.1.end ≡ 0)
          × (r.1.overruns ≡ r.1.end ∷ m.overruns))
        (fill malloc size 0 m)
unfolding fill new_chunk
fill-past_end malloc size m h k e =
    rw
      (
        le→leb size 128 k,
        allocate-used_up malloc (roundup size) 16 m (roundup-pos size h k)
            (omega (arith, roundup-pos size h k)) (omega arith),
      )
      (finish-past_end (roundup size) (new_chunk malloc (roundup size * 16) m) refl)
