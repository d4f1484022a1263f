-- ===== src/Timer/Invariant.antt =====
-- The invariant of the set, which `AddTimer` and the loop of `GetExpiredList` keep.
use io_scheduler.Prelude.{
  All, Bool, Callback, List, [], arith, false, if◌then◌else◌, map, refl, suc, true, update, ℕ, ◌&&◌,
  ◌++◌, ◌<◌, ◌||◌, ◌∙◌, ◌∷◌, ◌≡◌,
}
use io_scheduler.Timer.{Timer, TimerManager, add_timer, collect, new_timer, settle, settle_at}
use io_scheduler.Timer.Order.{
  Distinct, Sorted, contains-insert, contains-reinsert, insert-All, insert-Distinct, insert-Sorted,
  reinsert, reinsert-All, reinsert-Distinct, reinsert-Sorted, update-Sorted,
}
use io_scheduler.Timer.OrderedSet.{contains}
use mathlib.Core.List.{append_assoc, append-nil}

abbrev pub func_at : (ℕ → Timer) → ℕ → Callback
func_at heap a = (heap a).func

map-update :
    (heap : ℕ → Timer) (a : ℕ) (t : Timer) (xs : List ℕ)
    → contains a xs ≡ false
    → map (func_at (update heap a t)) xs ≡ map (func_at heap) xs
map-update heap a t [] h = refl
map-update heap a t (x ∷ xs) h = ground (arith, map-update heap a t xs)

-- The loop hands over the callback of every timer, in order.
pub collect-tasks :
    (now : ℕ) (js : List ℕ) (m : TimerManager) (tasks : List Callback)
    → Distinct js
    → (collect now js m tasks).1 ≡ tasks ++ map (func_at m.heap) js
unfolding collect
collect-tasks now [] m tasks d = rw append-nil
collect-tasks now (j ∷ js) m tasks d =
    collect-tasks now js (settle_at now j m) (tasks ++ func_at m.heap j ∷ []) d.1
    ∙ (unfold settle_at in rw (map-update m.heap j _ js d.0, append_assoc))

pub collect-heap :
    (now : ℕ) (js : List ℕ) (m : TimerManager) (tasks : List Callback) (a : ℕ)
    → Distinct js
    → (collect now js m tasks).0.heap a
      ≡ (if contains a js then settle now (m.heap a) else m.heap a)
unfolding collect settle_at
collect-heap now [] m tasks a d = refl
collect-heap now (j ∷ js) m tasks a d =
    ground (arith, collect-heap now js (settle_at now j m) (tasks ++ func_at m.heap j ∷ []) a d.1)

pub collect-timers :
    (now : ℕ) (js : List ℕ) (m : TimerManager) (tasks : List Callback) (a : ℕ)
    → Distinct js
    → contains a (collect now js m tasks).0.timers
      ≡ (contains a m.timers || (contains a js && (m.heap a).cyclic))
unfolding collect settle_at
collect-timers now [] m tasks a d = ground arith
collect-timers now (j ∷ js) m tasks a d = ground (
  arith,
  collect-timers now js (settle_at now j m) (tasks ++ func_at m.heap j ∷ []) a d.1,
  contains-insert (update m.heap j (settle now (m.heap j))) j a m.timers,
)

-- The set is in order, holds no timer twice, and only addresses given out.
pub record Inv (m : TimerManager) : Type 0 where
  pub sorted : Sorted m.heap m.timers
  pub distinct : Distinct m.timers
  pub known : All (λ a. a < m.next) m.timers

known-fresh : (n : ℕ) (xs : List ℕ) → All (λ a. a < n) xs → contains n xs ≡ false
known-fresh n [] h = refl
known-fresh n (x ∷ xs) h = ground (arith, known-fresh n xs h.1)

known_mono : (n : ℕ) (xs : List ℕ) → All (λ a. a < n) xs → All (λ a. a < suc n) xs
known_mono n [] h = tt
known_mono n (x ∷ xs) h = (omega arith, known_mono n xs h.1)

-- `AddTimer` keeps the invariant, and its timer is in the set.
pub add_timer-Inv :
    (func : Callback) (time : ℕ) (cyclic : Bool) (clock clock' : ℕ) (m : TimerManager)
    → Inv m
    → let (m', a) = add_timer func time cyclic clock clock' m in
      Inv m' × (contains a m'.timers ≡ true)
unfolding add_timer
add_timer-Inv func time cyclic clock clock' m v = (
  record {
    sorted =
        insert-Sorted heap m.next m.timers (update-Sorted m.heap m.next t m.timers fresh v.sorted);
    distinct = insert-Distinct heap m.next m.timers fresh v.distinct;
    known =
        insert-All (λ a. a < suc m.next) heap m.next m.timers (omega arith)
          (known_mono m.next m.timers v.known);
  },
  contains-insert heap m.next m.next m.timers ∙ ground arith,
)
  where
    t : Timer
    t = new_timer func time cyclic clock clock'

    heap : ℕ → Timer
    heap = update m.heap m.next t

    fresh : contains m.next m.timers ≡ false
    fresh = known-fresh m.next m.timers v.known

-- The timers still to be handled are distinct, and none of them is in the set.
pub record Pending (js : List ℕ) (m : TimerManager) : Type 0 where
  pub separate : All (λ j. contains j m.timers ≡ false) js
  pub different : Distinct js
  pub given : All (λ a. a < m.next) js

separate-reinsert :
    (heap : ℕ → Timer) (j : ℕ) (b : Bool) (js s : List ℕ)
    → contains j js ≡ false
    → All (λ a. contains a s ≡ false) js
    → All (λ a. contains a (reinsert heap j s b) ≡ false) js
separate-reinsert heap j b [] s d p = tt
separate-reinsert heap j b (x ∷ js) s d p = (
  contains-reinsert heap j s b x ∙ ground arith,
  separate-reinsert heap j b js s (ground arith) p.1,
)

settle_at-Pending :
    (now j : ℕ) (js : List ℕ) (m : TimerManager)
    → Pending (j ∷ js) m
    → Pending js (settle_at now j m)
unfolding settle_at
settle_at-Pending now j js m p = record {
  separate =
      separate-reinsert (update m.heap j (settle now (m.heap j))) j (m.heap j).cyclic js m.timers
        p.different.0 p.separate.1;
  different = p.different.1;
  given = p.given.1;
}

settle_at-Inv :
    (now j : ℕ) (js : List ℕ) (m : TimerManager)
    → Pending (j ∷ js) m
    → Inv m
    → Inv (settle_at now j m)
unfolding settle_at
settle_at-Inv now j js m p v =
    let heap = update m.heap j (settle now (m.heap j)) in
    record {
      sorted =
          reinsert-Sorted heap j m.timers (m.heap j).cyclic
            (update-Sorted m.heap j (settle now (m.heap j)) m.timers p.separate.0 v.sorted);
      distinct = reinsert-Distinct heap j m.timers (m.heap j).cyclic p.separate.0 v.distinct;
      known = reinsert-All heap j m.timers (λ a. a < m.next) (m.heap j).cyclic p.given.0 v.known;
    }

pub collect-Inv :
    (now : ℕ) (js : List ℕ) (m : TimerManager) (tasks : List Callback)
    → Pending js m
    → Inv m
    → Inv (collect now js m tasks).0
unfolding collect
collect-Inv now [] m tasks p v = v
collect-Inv now (j ∷ js) m tasks p v =
    collect-Inv now js (settle_at now j m) (tasks ++ func_at m.heap j ∷ [])
      (settle_at-Pending now j js m p) (settle_at-Inv now j js m p v)
