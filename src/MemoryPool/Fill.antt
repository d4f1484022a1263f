-- ===== src/MemoryPool/Fill.antt =====
-- What the pool serves.
use io_scheduler.MemoryPool.{Manager, allocate, index, keep_rest, make_room, new_chunk, serve}
use native.Mathlib.Nat.{div-mul-le_self, le-div_iff_mul-le, div-lt_iff_lt-mul}
use io_scheduler.Prelude.{
  ap, ◌⊎◌, Bool, OnSome, arith, false, get_elem?, get_elem?-set_ne, get_elem?-lt, inl, inr, leb,
  leb_false→lt, leb→le, length, length-set, le→leb, lt→ltb, refl, set, some, suc, sym, true, update,
  zero_or_pos, ℕ, ◌*◌, ◌+◌, ◌-◌, ◌/◌, ◌<◌, ◌∙◌, ◌≡◌, ◌≢◌, ◌≤◌,
}

pub index-range : (size : ℕ) → 0 < size → size ≤ 128 → index size < 16
unfolding index
index-range size h k = omega arith

-- The place that nodes come from: what was left of the pool, if that has room for one, or else a new chunk
-- of the size needed, which is all of the pool then.
abbrev pub Place : (ℕ → ℕ → ℕ) → ℕ → ℕ → Manager → ℕ → Manager → Type 0
Place malloc size num old head m =
    ((size ≤ old.end - old.begin) × (head ≡ old.begin) × (m.end ≡ old.end) × (m.calls ≡ old.calls))
    ⊎ ((old.end - old.begin < size)
        × (head ≡ malloc old.calls (size * num))
        × (m.end ≡ head + size * num)
        × (m.calls ≡ suc old.calls))

-- Nodes are served from the pool: at least one and at most those asked for, side by side, from the begin of
-- what was left or of a new chunk, and up to its end at most; the rest is left.
abbrev pub Supplied : (ℕ → ℕ → ℕ) → ℕ → ℕ → Manager → ℕ × ℕ × Manager → Type 0
Supplied malloc size num old (head, nums, m) =
    (0 < nums)
    × (nums ≤ num)
    × (m.begin ≡ head + size * nums)
    × (m.begin ≤ m.end)
    × Place malloc size num old head m

part-Supplied :
    (malloc : ℕ → ℕ → ℕ) (size num : ℕ) (m : Manager)
    → 0 < size
    → m.begin ≤ m.end
    → leb size (m.end - m.begin) ≡ true
    → leb (size * num) (m.end - m.begin) ≡ false
    → Supplied malloc size num m (serve size ((m.end - m.begin) / size) m)
unfolding serve
part-Supplied malloc size num m h k e f = (
  (le-div_iff_mul-le h).1 (omega (arith, leb→le size (m.end - m.begin) e)),
  omega (
    arith,
    (div-lt_iff_lt-mul {x = m.end - m.begin} {y = num} h).1
        (omega (arith, leb_false→lt (size * num) (m.end - m.begin) f)),
  ),
  refl,
  omega (arith, div-mul-le_self (m.end - m.begin) size),
  inl (leb→le size (m.end - m.begin) e, refl, refl, refl),
)

whole-Supplied :
    (malloc : ℕ → ℕ → ℕ) (size num : ℕ) (m : Manager)
    → 0 < num
    → m.begin ≤ m.end
    → leb (size * num) (m.end - m.begin) ≡ true
    → Supplied malloc size num m (serve size num m)
unfolding serve
whole-Supplied malloc size num m h k e =
    let enough = leb→le (size * num) (m.end - m.begin) e in
    (
      h,
      omega arith,
      refl,
      omega (arith, enough),
      inl (one_fits size num (m.end - m.begin) h enough, refl, refl, refl),
    )
  where
    one_fits : (a n r : ℕ) → 0 < n → a * n ≤ r → a ≤ r
    one_fits a n r p q = grind arith

pub chunk-room : (c n : ℕ) → leb n (c + n - c) ≡ true
chunk-room c n = le→leb n (c + n - c) (omega arith)

fresh-Supplied :
    (malloc : ℕ → ℕ → ℕ) (fuel size num : ℕ) (old m : Manager)
    → 0 < num
    → old.end - old.begin < size
    → m.calls ≡ old.calls
    → OnSome
        (Supplied malloc size num old)
        (allocate malloc (suc fuel) size num (new_chunk malloc (size * num) m))
unfolding allocate new_chunk serve
fresh-Supplied malloc fuel size num old m h k e =
    rw (chunk-room (malloc m.calls (size * num)) (size * num)) (
      h,
      omega arith,
      refl,
      omega arith,
      inr (k, ap (λ n. malloc n (size * num)) e, refl, ap suc e),
    )

-- Room is made whenever less than a node is left; the queues keep their number, and the block and the queues
-- but the one of what is left stay.
pub room-made :
    (malloc : ℕ → ℕ → ℕ) (size need : ℕ) (m : Manager)
    → m.end - m.begin < size
    → size ≤ 128
    → length m.free_list ≡ 16
    → (m' : Manager) × (make_room malloc need m ≡ some (new_chunk malloc need m'))
      × (length m'.free_list ≡ 16)
      × (m'.block ≡ m.block)
      × (m'.calls ≡ m.calls)
      × ((i : ℕ) → i ≢ index (m.end - m.begin) → get_elem? m'.free_list i ≡ get_elem? m.free_list i)
unfolding make_room keep_rest
room-made malloc size need m h k l = elim (zero_or_pos (m.end - m.begin)) [
  | inl e ↦ (m, rw (make_room, e) refl, l, refl, refl, λ i d. refl)
  | inr p ↦
      (let (node, e) =
          get_elem?-lt m.free_list (index (m.end - m.begin))
            (omega (arith, index-range (m.end - m.begin) p (omega arith))) in
        (
          record m {
            next = update m.next m.begin node;
            free_list = set m.free_list (index (m.end - m.begin)) m.begin;
          },
          rw (make_room, lt→ltb 0 (m.end - m.begin) p, keep_rest, e) refl,
          length-set m.free_list (index (m.end - m.begin)) m.begin ∙ l,
          refl,
          refl,
          λ i d. get_elem?-set_ne m.free_list (index (m.end - m.begin)) i m.begin (λ x. d (sym x)),
        ))
]

-- If the pool has its 16 queues and does not end before its begin: asked for nodes of 1 to 128 bytes, at least one,
-- `allocate` ends with its second call at most. It serves between one node and the number asked for, side by side:
-- from the begin of what was left, if a node fits there, or else from the begin of a new chunk, of the size
-- needed. They end where the rest begins, which is not behind the end of what was left or of the chunk.
pub allocate-Supplied :
    (malloc : ℕ → ℕ → ℕ) (size num : ℕ) (m : Manager)
    → 0 < size
    → size ≤ 128
    → 0 < num
    → m.begin ≤ m.end
    → length m.free_list ≡ 16
    → OnSome (Supplied malloc size num m) (allocate malloc 2 size num m)
unfolding allocate
allocate-Supplied malloc size num m p k n b l =
    by_left (leb (size * num) (m.end - m.begin)) (leb size (m.end - m.begin)) refl refl
  where
    by_left :
        (whole part : Bool)
        → leb (size * num) (m.end - m.begin) ≡ whole
        → leb size (m.end - m.begin) ≡ part
        → OnSome (Supplied malloc size num m) (allocate malloc 2 size num m)
    by_left true part e f = rw e (whole-Supplied malloc size num m n b e)
    by_left false true e f = rw (e, f) (part-Supplied malloc size num m p b f e)
    by_left false false e f =
        (let (m', r, length_kept, block_kept, calls_kept, queues_kept) =
            room-made malloc size (size * num) m (leb_false→lt size (m.end - m.begin) f) k l in
          rw (e, f, r)
            (fresh-Supplied malloc 0 size num m m' n (leb_false→lt size (m.end - m.begin) f)
              calls_kept))
