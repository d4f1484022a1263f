-- ===== src/Schedule/Pool/Apart.antt =====
-- Which coroutines the threads of a pool run, those that `run` makes for callbacks included.
use io_scheduler.Coroutine.{State, points_to, ready}
use io_scheduler.Prelude.{
  ==→≡, sym, Bool-cases, List, Option, [], arith, if◌then◌else◌, inl, inr, map, none, refl, some, ℕ,
  ==_refl, ◌==◌, ◌+◌, ◌++◌, ◌∙◌, ◌∷◌, ◌≡◌, ◌≢◌, ◌≤◌, ap,
}
use io_scheduler.Schedule.{Machine, Task, any_thread, coroutine_task}
use io_scheduler.Schedule.Pool.{Event, Pool, Step, again, dispatches, leaves, outstanding, works}
use io_scheduler.Schedule.Pool as Pool
use io_scheduler.Schedule.Pool.Bag.{Step-perm, added, ended}
use io_scheduler.Schedule.Pool.Exclusive.{count, count-append, count-perm, owner_cases}
use io_scheduler.Schedule.Queue.{KeepsQueue}

-- How often a coroutine is in a list.
abbrev pub occurrences : ℕ → List ℕ → ℕ
occurrences a [] = 0
occurrences a (b ∷ bs) = (if b == a then 1 else 0) + occurrences a bs

-- The coroutines of tasks that are held.
abbrev pub coroutines_of : List (ℕ × Task) → List ℕ
coroutines_of [] = []
coroutines_of ((i, t) ∷ held) =
    let rest = coroutines_of held in elim t.coroutine [ none ↦ rest | some a ↦ a ∷ rest ]

-- The coroutines that threads made for the callbacks that they run, each with its thread.
abbrev pub Made : Type 0
Made = List (ℕ × ℕ)

abbrev pub made_of : Made → List ℕ
made_of = map (λ x. x.1)

module _ {E : Type 0} where
  -- All that the threads run.
  abbrev pub running_of : Pool E → Made → List ℕ
  running_of p made = coroutines_of p.held ++ made_of made

  -- How often a coroutine is queued, held as a task, or run for a callback.
  abbrev pub total : ℕ → Pool E → Made → ℕ
  total a p made = count a (outstanding p) + occurrences a (made_of made)

  -- Steps that say which coroutine a thread makes for a callback. A task of a coroutine is dispatched only while the
  -- coroutine is nowhere; a coroutine made is a new one; it is left when the thread comes back from it.
  pub data Tracked (notify : Machine E → Machine E) (p : Pool E) (made : Made)
      : Pool E → Made → Type 0 where
    dispatched_free :
        (t : Task) {q : Pool E}
        → Step notify p (dispatches t) q
        → ((a : ℕ) → t.coroutine ≡ some a → total a p made ≡ 0)
        → Tracked notify p made q made
    took_coroutine :
        (i : ℕ) (t : Task) {q : Pool E}
        → Step notify p (Pool.takes i t) q
        → t.function ≡ none
        → Tracked notify p made q made
    took_callback :
        (i : ℕ) (t : Task) (a : ℕ) {q : Pool E}
        → Step notify p (Pool.takes i t) q
        → total a p made ≡ 0
        → Tracked notify p made q ((i, a) ∷ made)
    left_own :
        (t : Task) (a : ℕ) {q : Pool E}
        → Step notify p (leaves t (again a p.machine)) q
        → t.coroutine ≡ some a
        → Tracked notify p made q made
    left_made :
        (t : Task) (xs : Made) (i a : ℕ) (ys : Made) {q : Pool E}
        → Step notify p (leaves t (again a p.machine)) q
        → made ≡ xs ++ (i, a) ∷ ys
        → Tracked notify p made q (xs ++ ys)
    worked_on : {q : Pool E} → Step notify p works q → Tracked notify p made q made

  pub data Tracks (notify : Machine E → Machine E) : Pool E → Made → Pool E → Made → Type 0 where
    stays : {p : Pool E} {made : Made} → Tracks notify p made p made
    then_goes :
        {p q r : Pool E} {made made' made'' : Made}
        → Tracked notify p made q made'
        → Tracks notify q made' r made''
        → Tracks notify p made r made''

occurrences-append :
    (a : ℕ) (xs ys : List ℕ) → occurrences a (xs ++ ys) ≡ occurrences a xs + occurrences a ys
occurrences-append a [] ys = omega arith
occurrences-append a (x ∷ xs) ys = omega (arith, occurrences-append a xs ys)

occurrences_without :
    (x : ℕ) (xs : Made) (i a : ℕ) (ys : Made)
    → occurrences x (made_of (xs ++ (i, a) ∷ ys))
      ≡ (if a == x then 1 else 0) + occurrences x (made_of (xs ++ ys))
occurrences_without x [] i a ys = refl
occurrences_without x (y ∷ xs) i a ys = omega (arith, occurrences_without x xs i a ys)

held-occurrences :
    (a : ℕ) (held : List (ℕ × Task))
    → occurrences a (coroutines_of held) ≡ count a (map (λ x. x.1) held)
held-occurrences a [] = refl
held-occurrences a ((i, t) ∷ held) = by_owner t.coroutine (held-occurrences a held)
  where
    by_owner :
        (o : Option ℕ)
        → occurrences a (coroutines_of held) ≡ count a (map (λ x. x.1) held)
        → occurrences a (elim o [ none ↦ coroutines_of held | some b ↦ b ∷ coroutines_of held ])
          ≡ (if points_to o a then 1 else 0) + count a (map (λ x. x.1) held)
    by_owner none h = omega (arith, h)
    by_owner (some b) h = omega (arith, h)

-- What is queued again is of the coroutine left.
again-le :
    {E : Type 0} (x a : ℕ) (t : Task) (m : Machine E)
    → count x (added (leaves t (again a m))) ≤ (if a == x then 1 else 0)
again-le x a t m = by_state (m.fibers.heap a).state
  where
    by_state :
        (s : State)
        → count x
            (added (leaves t (elim s [ ready ↦ some (coroutine_task any_thread a) | _ ↦ none ])))
          ≤ (if a == x then 1 else 0)
    by_state ready = omega arith
    by_state _ = omega arith

owned-count :
    (x : ℕ) (t : Task) (a : ℕ) → t.coroutine ≡ some a → count x (t ∷ []) ≡ (if a == x then 1 else 0)
owned-count x t a e = rw e (omega arith)

-- Nothing runs twice, and nothing that runs is queued.
abbrev pub IsApart : {E : Type 0} → Pool E → Made → Type 0
IsApart p made = (a : ℕ) → total a p made ≤ 1

module _ {E : Type 0} (notify : Machine E → Machine E) (keeps : KeepsQueue notify) where
  Step-count :
      {e : Event} {p q : Pool E} (x : ℕ)
      → Step notify p e q
      → count x (ended e) + count x (outstanding q) ≡ count x (added e) + count x (outstanding p)
  Step-count {e} {p} {q} x st = omega (
    arith,
    count-perm x _ _ (Step-perm notify keeps st),
    count-append x (ended e) (outstanding q),
    count-append x (added e) (outstanding p),
  )

  dispatched-le :
      (x : ℕ) (t : Task) (n : ℕ)
      → n ≤ 1
      → (t.coroutine ≡ some x → n ≡ 0)
      → count x (added (dispatches t)) + n ≤ 1
  dispatched-le x t n h g = elim (owner_cases t.coroutine x) [
    | inl e ↦ ground (arith, g e)
    | inr e ↦ ground arith
  ]

  Tracked-IsApart :
      {p q : Pool E} {made made' : Made}
      → Tracked notify p made q made'
      → IsApart p made
      → IsApart q made'
  Tracked-IsApart {p} {made = made} (dispatched_free t st g) h x =
      omega (arith, Step-count x st, dispatched-le x t (total x p made) (h x) (g x))
  Tracked-IsApart (took_coroutine i t st e) h x = omega (arith, Step-count x st, h x)
  Tracked-IsApart {p} {made = made} (took_callback i t a st g) h x = elim (Bool-cases (a == x)) [
    | inl e ↦
        let zero_now : total x p made ≡ 0 = ap (λ b. total b p made) (sym (==→≡ a x e)) ∙ g in
        rw e (omega (arith, Step-count x st, zero_now))
    | inr e ↦ rw e (omega (arith, Step-count x st, h x))
  ]
  Tracked-IsApart {p} (left_own t a st e) h x =
      omega (arith, Step-count x st, h x, again-le x a t p.machine, owned-count x t a e)
  Tracked-IsApart {p} (left_made t xs i a ys st e) h x = omega (
    arith,
    Step-count x st,
    h x,
    again-le x a t p.machine,
    ap (λ m. occurrences x (made_of m)) e,
    occurrences_without x xs i a ys,
  )
  Tracked-IsApart (worked_on st) h x = omega (arith, Step-count x st, h x)

  Tracks-IsApart :
      {p q : Pool E} {made made' : Made}
      → Tracks notify p made q made'
      → IsApart p made
      → IsApart q made'
  Tracks-IsApart stays h = h
  Tracks-IsApart (then_goes st rest) h = Tracks-IsApart rest (Tracked-IsApart st h)

  twice : (a b : ℕ) (xs ys zs : List ℕ) → occurrences a (xs ++ a ∷ (ys ++ b ∷ zs)) ≤ 1 → a ≢ b
  twice a b xs ys zs h e = ground (
    arith,
    occurrences-append a xs (a ∷ (ys ++ b ∷ zs)),
    occurrences-append a ys (b ∷ zs),
    ==_refl a,
    ap (λ c. c == a) (sym e) ∙ ==_refl a,
  )

  -- If `notify` leaves the queue alone, no coroutine was queued or run twice at first, and from then on a task of
  -- a coroutine is dispatched only while the coroutine is neither queued nor run, and a thread that takes a
  -- callback makes a coroutine for it that is neither: whatever the order of the steps, no two threads run the
  -- same coroutine, be it that of a task or one made for a callback.
  pub Tracks-apart :
      {p q : Pool E} {made made' : Made}
      → Tracks notify p made q made'
      → IsApart p made
      → (xs : List ℕ) (a : ℕ) (ys : List ℕ) (b : ℕ) (zs : List ℕ)
      → running_of q made' ≡ xs ++ a ∷ (ys ++ b ∷ zs)
      → a ≢ b
  Tracks-apart {q} {made' = made'} run h xs a ys b zs e = twice a b xs ys zs (
      omega (
        arith,
        Tracks-IsApart run h a,
        count-append a q.machine.sched.coroutines (map (λ x. x.1) q.held),
        ap (occurrences a) e,
        occurrences-append a (coroutines_of q.held) (made_of made'),
        held-occurrences a q.held,
      ))
