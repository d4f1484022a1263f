-- ===== src/Timer/Due.antt =====
-- The timers of a sorted set that are due, as a filter of the set.
use io_scheduler.Prelude.{
  All, Bool, List, [], arith, false, filter, leb, not, refl, true, ℕ, ◌&&◌, ◌<◌, ◌==◌, ◌∷◌, ◌≡◌,
}
use io_scheduler.Timer.OrderedSet.{before, contains, lower_bound}
use io_scheduler.Timer.{Timer}
use io_scheduler.Timer.Order.{From, Sorted, Distinct}

-- In a sorted set the timers due are a front part, and the others are the rest.
module _ (heap : ℕ → Timer) (now : ℕ) where
  abbrev pub is_due : ℕ → Bool
  is_due a = leb (heap a).start now

  pub none_due : (v : ℕ) (xs : List ℕ) → now < v → From heap v xs → filter is_due xs ≡ []
  none_due v [] h f = refl
  none_due v (x ∷ xs) h f = ground (arith, none_due v xs h f.1)

  pub all_later :
      (v : ℕ) (xs : List ℕ) → now < v → From heap v xs → filter (λ a. not (is_due a)) xs ≡ xs
  all_later v [] h f = refl
  all_later v (x ∷ xs) h f = ground (arith, all_later v xs h f.1)

  pub before-filter : (xs : List ℕ) → Sorted heap xs → before is_due xs ≡ filter is_due xs
  before-filter [] s = refl
  before-filter (x ∷ xs) s = ground (arith, before-filter xs s.1, none_due (heap x).start xs)

  pub lower_bound-filter :
      (xs : List ℕ) → Sorted heap xs → lower_bound is_due xs ≡ filter (λ a. not (is_due a)) xs
  lower_bound-filter [] s = refl
  lower_bound-filter (x ∷ xs) s =
      ground (arith, lower_bound-filter xs s.1, all_later (heap x).start xs)

  -- The loop behind `lower_bound` goes over timers that start at `now`, and finds none.
  pub no_equal_before :
      (xs : List ℕ) → before (λ a. (heap a).start == now) (lower_bound is_due xs) ≡ []
  no_equal_before [] = refl
  no_equal_before (x ∷ xs) = ground (arith, no_equal_before xs)

  pub no_equal_after :
      (xs : List ℕ)
      → lower_bound (λ a. (heap a).start == now) (lower_bound is_due xs) ≡ lower_bound is_due xs
  no_equal_after [] = refl
  no_equal_after (x ∷ xs) = ground (arith, no_equal_after xs)

-- Filters.
pub contains-filter :
    (p : ℕ → Bool) (a : ℕ) (xs : List ℕ) → contains a (filter p xs) ≡ (contains a xs && p a)
contains-filter p a [] = refl
contains-filter p a (x ∷ xs) = ground (arith, contains-filter p a xs)

filter-From :
    (p : ℕ → Bool) (heap : ℕ → Timer) (v : ℕ) (xs : List ℕ)
    → From heap v xs
    → From heap v (filter p xs)
filter-From p heap v [] f = tt
filter-From p heap v (x ∷ xs) f = ground (arith, filter-From p heap v xs f.1)

pub filter-Sorted :
    (p : ℕ → Bool) (heap : ℕ → Timer) (xs : List ℕ) → Sorted heap xs → Sorted heap (filter p xs)
filter-Sorted p heap [] s = tt
filter-Sorted p heap (x ∷ xs) s =
    ground (arith, filter-Sorted p heap xs s.1, filter-From p heap (heap x).start xs)

pub filter-Distinct : (p : ℕ → Bool) (xs : List ℕ) → Distinct xs → Distinct (filter p xs)
filter-Distinct p [] d = tt
filter-Distinct p (x ∷ xs) d = ground (arith, filter-Distinct p xs d.1, contains-filter p x xs)

All-cons {κ} :
    (P : ℕ → Type κ) (b : Bool) (x : ℕ) (xs : List ℕ)
    → (b ≡ true → P x)
    → All P xs
    → All P (elim b [ true ↦ x ∷ xs | false ↦ xs ])
All-cons P true x xs p h = (p refl, h)
All-cons P false x xs p h = h

pub filter-All {κ} : (P : ℕ → Type κ) (p : ℕ → Bool) (xs : List ℕ) → All P xs → All P (filter p xs)
filter-All P p [] h = tt
filter-All P p (x ∷ xs) h = All-cons P (p x) x (filter p xs) (λ _. h.0) (filter-All P p xs h.1)

pub filter-All_of {κ} :
    (P : ℕ → Type κ) (p : ℕ → Bool) (xs : List ℕ)
    → ((x : ℕ) → p x ≡ true → P x)
    → All P (filter p xs)
filter-All_of P p [] h = tt
filter-All_of P p (x ∷ xs) h = All-cons P (p x) x (filter p xs) (h x) (filter-All_of P p xs h)
