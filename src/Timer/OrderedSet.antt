-- ===== src/Timer/OrderedSet.antt =====
-- The `std::set` of include/timer.h, as the sequence that its red-black tree holds in order.
-- Searches and insertions ask the comparator in the way the standard library's tree does: a search
-- goes to the first element that the comparator does not put before the key, and an insertion goes
-- in front of the first element that it puts the key before, if it puts the predecessor before it.
use io_scheduler.Prelude.{
  ℕ, Bool, true, false, List, [], ◌∷◌, ◌++◌, Option, none, some, if◌then◌else◌, ◌||◌, ◌==◌,
}

module _ {ℓ} {A : Type ℓ} where
  -- The elements in front of the iterator that `lower_bound` returns, for `p e` = `comp(e, key)`.
  abbrev pub before : (A → Bool) → List A → List A
  before p [] = []
  before p (x ∷ xs) = elim (p x) [ true ↦ x ∷ before p xs | false ↦ [] ]

  -- Those from it on.
  abbrev pub lower_bound : (A → Bool) → List A → List A
  lower_bound p [] = []
  lower_bound p (x ∷ xs) = elim (p x) [ true ↦ lower_bound p xs | false ↦ x ∷ xs ]

  -- `find` returns `end()`, or the iterator of `lower_bound` if the key is not before its element.
  unfoldable pub find : (A → A → Bool) → A → List A → Option A
  find comp key xs = elim (lower_bound (λ e. comp e key) xs) [
    | [] ↦ none
    | e ∷ _ ↦ if comp key e then none else some e
  ]

  -- `erase` of the iterator that `find` returned.
  unfoldable pub erase_found : (A → A → Bool) → A → List A → List A
  erase_found comp key xs =
      before (λ e. comp e key) xs
      ++ elim (lower_bound (λ e. comp e key) xs) [ [] ↦ [] | _ ∷ rest ↦ rest ]

  unfoldable pub follows : (A → A → Bool) → A → Option A → Bool
  follows comp key none = true
  follows comp key (some p) = comp p key

  unfoldable pub insert_after : (A → A → Bool) → A → Option A → List A → List A
  insert_after comp key p [] = if follows comp key p then key ∷ [] else []
  insert_after comp key p (x ∷ xs) =
      if comp key x
      then (if follows comp key p then key ∷ x ∷ xs else x ∷ xs)
      else x ∷ insert_after comp key (some x) xs

  unfoldable pub insert : (A → A → Bool) → A → List A → List A
  unfolding insert_after follows
  insert comp key xs = insert_after comp key none xs

abbrev pub contains : ℕ → List ℕ → Bool
contains a [] = false
contains a (x ∷ xs) = (a == x) || contains a xs
