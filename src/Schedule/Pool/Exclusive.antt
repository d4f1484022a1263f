-- ===== src/Schedule/Pool/Exclusive.antt =====
-- How many tasks a coroutine has in a queue.
use mathlib.Core.List.{Perm, Permᴰ}
use mathlib.Core.Logic.{∥∥₁_elim}
use native.Mathlib.Nat.{ℕ_set}
use io_scheduler.Prelude.{
  ==→≡, Bool-cases, inl, inr, ◌⊎◌, List, Option, [], ap, arith, false, if◌then◌else◌, none, refl,
  some, true, ℕ, ◌+◌, ◌++◌, ==_refl, ◌==◌, ◌∙◌, ◌∷◌, ◌≡◌,
}
use io_scheduler.Coroutine.{points_to}
use io_scheduler.Schedule.{Task}

-- The tasks of the coroutine at `a`.
abbrev pub count : ℕ → List Task → ℕ
count a [] = 0
count a (t ∷ ts) = (if points_to t.coroutine a then 1 else 0) + count a ts

pub count-append : (a : ℕ) (ts us : List Task) → count a (ts ++ us) ≡ count a ts + count a us
count-append a [] us = omega arith
count-append a (t ∷ ts) us = omega (arith, count-append a ts us)

count_permᴰ : (a : ℕ) {ts us : List Task} → Permᴰ ts us → count a ts ≡ count a us
count_permᴰ a Permᴰ.nil = refl
count_permᴰ a (Permᴰ.cons {a = t} {b = u} e h) = rw e (omega (arith, count_permᴰ a h))
count_permᴰ a (Permᴰ.swap e f) = rw (e, f) (omega arith)
count_permᴰ a (Permᴰ.trans h k) = count_permᴰ a h ∙ count_permᴰ a k

pub count-perm : (a : ℕ) (ts us : List Task) → Perm ts us → count a ts ≡ count a us
count-perm a ts us h = ∥∥₁_elim h (ℕ_set _ _) (count_permᴰ a)

pub owner_cases : (o : Option ℕ) (a : ℕ) → (o ≡ some a) ⊎ (points_to o a ≡ false)
owner_cases none a = inr refl
owner_cases (some b) a = elim (Bool-cases (b == a)) [
  | inl e ↦ inl (ap some (==→≡ b a e))
  | inr e ↦ inr e
]

pub points_to_self : (o : Option ℕ) (a : ℕ) → o ≡ some a → points_to o a ≡ true
points_to_self o a e = ap (λ x. points_to x a) e ∙ ==_refl a
