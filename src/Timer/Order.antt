-- ===== src/Timer/Order.antt =====
-- The order of the set: what insertion keeps, and what the timers due are in it.
use io_scheduler.Prelude.{
  All, Bool, Bool-cases, List, Option, [], ap, arith, false, if◌then◌else◌, inl, inr, leb,
  leb_false→lt, leb→le, none, refl, some, true, update, ℕ, ◌&&◌, ◌==◌, ◌||◌, ◌∙◌, ◌∷◌, ◌≡◌, ◌≤◌,
}
use io_scheduler.Timer.OrderedSet.{contains, follows, insert, insert_after}
use io_scheduler.Timer.{Timer, compare_at}
use io_scheduler.Timer.Cancel.{IsTotal}

-- An insertion puts the key in front of the first element that it comes before.
abbrev pub place {ℓ} : {A : Type ℓ} → (A → A → Bool) → A → List A → List A
place comp key [] = key ∷ []
place comp key (x ∷ xs) = if comp key x then key ∷ x ∷ xs else x ∷ place comp key xs

insert_after-place {ℓ} :
    {A : Type ℓ} (comp : A → A → Bool) (key : A) (p : Option A) (xs : List A)
    → IsTotal comp
    → follows comp key p ≡ true
    → insert_after comp key p xs ≡ place comp key xs
unfolding insert_after
insert_after-place comp key p [] total h = rw h
insert_after-place comp key p (x ∷ xs) total h = elim (Bool-cases (comp key x)) [
  | inl e ↦ rw (e, h)
  | inr e ↦
      rw e (
        ap (◌∷◌ x)
          (insert_after-place comp key (some x) xs total (unfold follows in total key x e)))
]

pub compare_at-IsTotal : (heap : ℕ → Timer) → IsTotal (compare_at heap)
unfolding compare_at
compare_at-IsTotal heap a b h = ground arith

insert-place :
    (heap : ℕ → Timer) (a : ℕ) (xs : List ℕ)
    → insert (compare_at heap) a xs ≡ place (compare_at heap) a xs
unfolding insert
insert-place heap a xs =
    insert_after-place (compare_at heap) a none xs (compare_at-IsTotal heap)
      (unfold follows in refl)

-- No start time along the list is below `v`.
abbrev pub From : (ℕ → Timer) → ℕ → List ℕ → Type 0
From heap v = All (λ y. v ≤ (heap y).start)

abbrev pub Sorted : (ℕ → Timer) → List ℕ → Type 0
Sorted heap [] = Unit {0}
Sorted heap (x ∷ xs) = From heap (heap x).start xs × Sorted heap xs

abbrev pub Distinct : List ℕ → Type 0
Distinct [] = Unit {0}
Distinct (x ∷ xs) = (contains x xs ≡ false) × Distinct xs

pub From-mono : (heap : ℕ → Timer) (v w : ℕ) (xs : List ℕ) → w ≤ v → From heap v xs → From heap w xs
From-mono heap v w [] h f = tt
From-mono heap v w (x ∷ xs) h f = (omega arith, From-mono heap v w xs h f.1)

place-From :
    (heap : ℕ → Timer) (v a : ℕ) (xs : List ℕ)
    → v ≤ (heap a).start
    → From heap v xs
    → From heap v (place (compare_at heap) a xs)
unfolding compare_at
place-From heap v a [] h f = (h, tt)
place-From heap v a (x ∷ xs) h f = ground (arith, place-From heap v a xs h f.1)

place-Sorted :
    (heap : ℕ → Timer) (a : ℕ) (xs : List ℕ)
    → Sorted heap xs
    → Sorted heap (place (compare_at heap) a xs)
unfolding compare_at
place-Sorted heap a [] s = (tt, tt)
place-Sorted heap a (x ∷ xs) s = elim (Bool-cases (leb (heap a).start (heap x).start)) [
  | inl e ↦ rw e ((leb→le _ _ e, From-mono heap _ _ xs (leb→le _ _ e) s.0), s)
  | inr e ↦ rw e (
    place-From heap (heap x).start a xs (omega (arith, leb_false→lt)) s.0,
    place-Sorted heap a xs s.1,
  )
]

pub insert-Sorted :
    (heap : ℕ → Timer) (a : ℕ) (xs : List ℕ)
    → Sorted heap xs
    → Sorted heap (insert (compare_at heap) a xs)
insert-Sorted heap a xs s = rw (insert-place heap a xs) (place-Sorted heap a xs s)

contains-place :
    (heap : ℕ → Timer) (a b : ℕ) (xs : List ℕ)
    → contains b (place (compare_at heap) a xs) ≡ ((b == a) || contains b xs)
contains-place heap a b [] = refl
contains-place heap a b (x ∷ xs) = ground (arith, contains-place heap a b xs)

pub contains-insert :
    (heap : ℕ → Timer) (a b : ℕ) (xs : List ℕ)
    → contains b (insert (compare_at heap) a xs) ≡ ((b == a) || contains b xs)
contains-insert heap a b xs = rw (insert-place heap a xs) (contains-place heap a b xs)

place-Distinct :
    (heap : ℕ → Timer) (a : ℕ) (xs : List ℕ)
    → contains a xs ≡ false
    → Distinct xs
    → Distinct (place (compare_at heap) a xs)
place-Distinct heap a [] h d = (refl, tt)
place-Distinct heap a (x ∷ xs) h d =
    ground (arith, contains-place heap a x xs, place-Distinct heap a xs)

pub insert-Distinct :
    (heap : ℕ → Timer) (a : ℕ) (xs : List ℕ)
    → contains a xs ≡ false
    → Distinct xs
    → Distinct (insert (compare_at heap) a xs)
insert-Distinct heap a xs h d = rw (insert-place heap a xs) (place-Distinct heap a xs h d)

place-All {κ} :
    (P : ℕ → Type κ) (heap : ℕ → Timer) (a : ℕ) (xs : List ℕ)
    → P a
    → All P xs
    → All P (place (compare_at heap) a xs)
place-All P heap a [] p h = (p, tt)
place-All P heap a (x ∷ xs) p h = elim (Bool-cases (compare_at heap a x)) [
  | inl e ↦ rw e (p, h)
  | inr e ↦ rw e (h.0, place-All P heap a xs p h.1)
]

pub insert-All {κ} :
    (P : ℕ → Type κ) (heap : ℕ → Timer) (a : ℕ) (xs : List ℕ)
    → P a
    → All P xs
    → All P (insert (compare_at heap) a xs)
insert-All P heap a xs p h = rw (insert-place heap a xs) (place-All P heap a xs p h)

-- A write to a timer that is not in the set leaves its order.
pub update-From :
    (heap : ℕ → Timer) (v a : ℕ) (t : Timer) (xs : List ℕ)
    → contains a xs ≡ false
    → From heap v xs
    → From (update heap a t) v xs
update-From heap v a t [] h f = tt
update-From heap v a t (x ∷ xs) h f = (ground arith, update-From heap v a t xs (ground arith) f.1)

pub update-other :
    (heap : ℕ → Timer) (a x : ℕ) (t : Timer) (xs : List ℕ)
    → contains a (x ∷ xs) ≡ false
    → update heap a t x ≡ heap x
update-other heap a x t xs h = ground arith

pub update-Sorted :
    (heap : ℕ → Timer) (a : ℕ) (t : Timer) (xs : List ℕ)
    → contains a xs ≡ false
    → Sorted heap xs
    → Sorted (update heap a t) xs
update-Sorted heap a t [] h s = tt
update-Sorted heap a t (x ∷ xs) h s = (
  rw (update-other heap a x t xs h) (update-From heap _ a t xs (ground arith) s.0),
  update-Sorted heap a t xs (ground arith) s.1,
)

-- A round of the loop inserts a timer or not.
module _ (heap : ℕ → Timer) (j : ℕ) (xs : List ℕ) where
  abbrev pub reinsert : Bool → List ℕ
  reinsert b = if b then insert (compare_at heap) j xs else xs

  pub reinsert-Sorted : (b : Bool) → Sorted heap xs → Sorted heap (reinsert b)
  reinsert-Sorted true s = insert-Sorted heap j xs s
  reinsert-Sorted false s = s

  pub reinsert-Distinct : (b : Bool) → contains j xs ≡ false → Distinct xs → Distinct (reinsert b)
  reinsert-Distinct true h d = insert-Distinct heap j xs h d
  reinsert-Distinct false h d = d

  pub reinsert-All {κ} : (P : ℕ → Type κ) (b : Bool) → P j → All P xs → All P (reinsert b)
  reinsert-All P true p h = insert-All P heap j xs p h
  reinsert-All P false p h = h

  pub contains-reinsert :
      (b : Bool) (a : ℕ) → contains a (reinsert b) ≡ (((a == j) && b) || contains a xs)
  contains-reinsert true a = contains-insert heap j a xs ∙ ground arith
  contains-reinsert false a = ground arith
