-- ===== src/MemoryPool/Invariant.antt =====
-- What stays true of the pool, whatever is created and deleted.
use io_scheduler.MemoryPool.{
  Block, Manager, allocate, allocate_memory, expand, expand_loop, fill, finish, link, new_block,
  new_chunk, new_manager, roundup, serve, take_back, write_end, write_next,
}
use io_scheduler.MemoryPool.Fill.{chunk-room, room-made}
use native.Mathlib.Nat.{div-mul-le_self}
use io_scheduler.Prelude.{
  Bool-cases, List, List-cases, OnSome, [], arith, OnSome-some, inl, inr, leb, leb_false→lt, leb→le,
  length, le→leb, refl, suc, true, zero, ℕ, ◌*◌, ◌+◌, ◌-◌, ◌/◌, ◌<◌, ◌==◌, ◌∷◌, ◌≡◌, ◌≤◌,
}

-- There are 16 queues, what is left of the pool is a whole number of nodes, and a block grows.
pub record PoolInv (m : Manager) : Type 0 where
  pub queues : length m.free_list ≡ 16
  pub left : (k : ℕ) × (m.end ≡ m.begin + 8 * k)
  pub grows : 0 < m.block.num

pub new_manager-PoolInv : PoolInv new_manager
unfolding new_manager new_block
new_manager-PoolInv = record { queues = refl; left = (0, refl); grows = omega arith }

serve-PoolInv :
    (j nums : ℕ) (m : Manager)
    → PoolInv m
    → 8 * j * nums ≤ m.end - m.begin
    → PoolInv (serve (8 * j) nums m).2
unfolding serve
serve-PoolInv j nums m v h =
    let (k, e) = v.left in
    record { queues = v.queues; left = (k - j * nums, omega (arith, e)); grows = v.grows }

new_chunk-PoolInv :
    (malloc : ℕ → ℕ → ℕ) (j num : ℕ) (m : Manager)
    → length m.free_list ≡ 16
    → 0 < m.block.num
    → PoolInv (new_chunk malloc (8 * j * num) m)
unfolding new_chunk
new_chunk-PoolInv malloc j num m q g = record {
  queues = q;
  left = (j * num, omega arith);
  grows = g;
}

-- A new chunk has room for what was needed.
pub new_chunk-room :
    (malloc : ℕ → ℕ → ℕ) (need : ℕ) (m : Manager)
    → let c = new_chunk malloc need m in leb need (c.end - c.begin) ≡ true
unfolding new_chunk
new_chunk-room malloc need m = chunk-room (malloc m.calls need) need

-- A node's size, rounded up, as a number of words.
pub roundup_words :
    (size : ℕ) → 0 < size → size ≤ 128 → (j : ℕ) × (roundup size ≡ 8 * j) × (0 < j) × (j ≤ 16)
unfolding roundup
roundup_words size h k = ((size + 7) / 8, omega arith, omega arith, omega arith)

module _ (malloc : ℕ → ℕ → ℕ) where
  -- Nodes of `j` words are served, also where the system is asked first.
  allocate-PoolInv :
      (j num : ℕ) (m : Manager)
      → PoolInv m
      → 0 < j
      → j ≤ 16
      → OnSome (λ (r : ℕ × ℕ × Manager). PoolInv r.2) (allocate malloc 2 (8 * j) num m)
  unfolding allocate
  allocate-PoolInv j num m v p b =
      let room = m.end - m.begin in
      elim (Bool-cases (leb (8 * j * num) room)) [
        | inl e ↦ rw e (serve-PoolInv j num m v (leb→le (8 * j * num) room e))
        | inr e ↦ elim (Bool-cases (leb (8 * j) room)) [
          | inl f ↦
              rw (e, f)
                (serve-PoolInv j (room / (8 * j)) m v (omega (arith, div-mul-le_self room (8 * j))))
          | inr f ↦
              let (m', r, q, same, calls_same, queues_same) =
                room-made malloc (8 * j) (8 * j * num) m (leb_false→lt (8 * j) room f) (omega arith)
                  v.queues in
              let fresh = new_chunk-PoolInv malloc j num m' q (rw same v.grows) in
              rw (e, f, r, new_chunk-room malloc (8 * j * num) m')
                (serve-PoolInv j num (new_chunk malloc (8 * j * num) m') fresh
                  (unfold new_chunk in omega arith))
        ]
      ]

link-PoolInv :
    (size current number : ℕ) (m : Manager) → PoolInv m → PoolInv (link size current number m).1
unfolding link
link-PoolInv size current zero m v = v
link-PoolInv size current (suc number) m v =
    link-PoolInv size (current + size) number (write_next current (current + size) m)
      (record { queues = v.queues; left = v.left; grows = v.grows })

write_end-PoolInv : (current : ℕ) (m : Manager) → PoolInv m → PoolInv (write_end current m)
unfolding write_end
write_end-PoolInv current m v = elim (Bool-cases (leb (current + 8) m.end)) [
  | inl e ↦ rw e (record { queues = v.queues; left = v.left; grows = v.grows })
  | inr e ↦ rw e (record { queues = v.queues; left = v.left; grows = v.grows })
]

finish-PoolInv : (size : ℕ) (r : ℕ × ℕ × Manager) → PoolInv r.2 → PoolInv (finish size r).1
unfolding finish
finish-PoolInv size (head, number, m) v = elim (Bool-cases (number == 1)) [
  | inl e ↦ rw e v
  | inr e ↦
      let (current, linked) = link size head number m in
      rw e (write_end-PoolInv current linked (link-PoolInv size head number m v))
]

expand_loop-num :
    (malloc : ℕ → ℕ → ℕ) (calls n : ℕ) (b : Block) → (expand_loop malloc calls n b).0.num ≡ b.num
unfolding expand_loop
expand_loop-num malloc calls zero b = refl
expand_loop-num malloc calls (suc n) b =
    expand_loop-num malloc (suc calls) n
      (record b { free_memory = malloc calls b.size ∷ b.free_memory })

expand_loop-length :
    (malloc : ℕ → ℕ → ℕ) (calls n : ℕ) (b : Block)
    → length (expand_loop malloc calls n b).0.free_memory ≡ n + length b.free_memory
unfolding expand_loop
expand_loop-length malloc calls zero b = omega arith
expand_loop-length malloc calls (suc n) b = omega (
  arith,
  expand_loop-length malloc (suc calls) n
      (record b { free_memory = malloc calls b.size ∷ b.free_memory }),
)

take_back-num :
    (b : Block) (calls n : ℕ)
    → 0 < length b.free_memory
    → b.num ≡ n
    → OnSome (λ (r : ℕ × Block × ℕ). r.1.num ≡ n) (take_back (b, calls))
unfolding take_back
take_back-num b calls n h e = elim (List-cases b.free_memory) [
  | inl f ↦ absurd (empty (rw f at h))
  | inr (x, xs, f) ↦ rw f e
]
  where
    empty : 0 < 0 → ⊥
    empty k = omega arith

-- A block has memory to hand out, and its length stays.
pub allocate_memory-num :
    (malloc : ℕ → ℕ → ℕ) (calls : ℕ) (b : Block)
    → 0 < b.num
    → OnSome (λ (r : ℕ × Block × ℕ). r.1.num ≡ b.num) (allocate_memory malloc calls b)
unfolding allocate_memory expand
allocate_memory-num malloc calls b h = by_memory b.free_memory refl
  where
    grown : Block × ℕ
    grown = expand_loop malloc calls b.num b

    by_memory :
        (memory : List ℕ)
        → b.free_memory ≡ memory
        → OnSome
            (λ (r : ℕ × Block × ℕ). r.1.num ≡ b.num)
            (elim memory [
              | [] ↦ take_back (expand malloc calls 0 b)
              | a ∷ rest ↦ take_back (b, calls)
            ])
    by_memory [] f =
        take_back-num grown.0 grown.1 b.num (omega (arith, expand_loop-length malloc calls b.num b))
          (expand_loop-num malloc calls b.num b)
    by_memory (a ∷ rest) f = take_back-num b calls b.num (rw f (omega arith)) refl

module _ (malloc : ℕ → ℕ → ℕ) where
  pub fill-PoolInv :
      (size : ℕ) (m : Manager)
      → PoolInv m
      → 0 < size
      → size ≤ 128
      → OnSome (λ (r : ℕ × Manager). PoolInv r.1) (fill malloc size 0 m)
  unfolding fill
  fill-PoolInv size m v h k =
      let (j, e, p, b) = roundup_words size h k in
      let (served, s, w) =
        OnSome-some (λ (r : ℕ × ℕ × Manager). PoolInv r.2) (allocate malloc 2 (8 * j) 16 m)
          (allocate-PoolInv malloc j 16 m v p b) in
      rw (le→leb size 128 k, e, s, e) (finish-PoolInv (8 * j) served w)
