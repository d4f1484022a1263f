-- ===== src/Schedule/Pool/Served.antt =====
-- How long a task waits in the queue of a pool.
use mathlib.Core.List.{append_assoc, append-nil}
use mathlib.Core.Option.{some-injective}
use io_scheduler.Coroutine.{Coroutine}
use io_scheduler.Schedule.{Machine, Task, any_thread, is_busy, is_foreign, is_task, search_task}
use io_scheduler.Schedule.Queue.{KeepsQueue, dispatch-queue}
use io_scheduler.Schedule.Pool.{
  Ended, Event, Pool, Step, Steps, after_search, again, dispatched, dispatches, leaves, left, next,
  stop, took, worked, works,
}
use io_scheduler.Schedule.Pool as Pool
use io_scheduler.Schedule.Pool.Bag.{Ended-queue, after_search-queue, to_list}
use io_scheduler.Prelude.{
  All, Bool, List, [], ap, arith, false, if◌then◌else◌, inl, inr, length, refl, some, subst, suc,
  sym, true, ℕ, ◌++◌, ◌<◌, ◌∙◌, ◌∷◌, ◌≡◌, ◌⊎◌,
}

-- The number of searches that find a task.
abbrev pub takings : List Event → ℕ
takings [] = 0
takings (Pool.takes i t ∷ es) = suc (takings es)
takings (_ ∷ es) = takings es

-- A thread takes this task.
abbrev pub IsTaken : Task → List Event → Type 0
IsTaken t [] = ⊥
IsTaken t (Pool.takes i u ∷ es) = (u ≡ t) ⊎ IsTaken t es
IsTaken t (_ ∷ es) = IsTaken t es

search_task_head :
    (tid : ℕ) (heap : ℕ → Coroutine) (t : Task) (ts : List Task)
    → t.thread_id ≡ any_thread
    → is_busy heap t ≡ false
    → search_task tid heap (t ∷ ts) ≡ record { taken = some t; left = ts; need_notify = false }
unfolding search_task is_foreign
search_task_head tid heap t ts e h = rw (e, h) refl

module _ {E : Type 0} where
  -- The queued tasks are for any thread, and none is of a running coroutine.
  abbrev pub IsOpen : Pool E → Type 0
  IsOpen p =
      All (λ t. (t.thread_id ≡ any_thread) × (is_busy p.machine.fibers.heap t ≡ false))
        p.machine.sched.coroutines

  module _ {notify : Machine E → Machine E} where
    abbrev pub AllOpen : {es : List Event} {p q : Pool E} → Steps notify p es q → Type 0
    AllOpen stop = Unit
    AllOpen (next {e} {es} {p} {q} {r} st rest) = IsOpen p × AllOpen rest

  module _ (notify : Machine E → Machine E) (keeps : KeepsQueue notify) where
    dispatched-front :
        (b : Bool) (u : Task) (qs xs : List Task) (t : Task) (ys : List Task)
        → qs ≡ xs ++ t ∷ ys
        → (if b then qs ++ u ∷ [] else qs) ≡ xs ++ t ∷ (ys ++ (if b then u ∷ [] else []))
    dispatched-front true u qs xs t ys e = rw e (append_assoc xs (t ∷ ys) (u ∷ []))
    dispatched-front false u qs xs t ys e = rw (e, append-nil ys) refl

    -- A search takes the first task.
    took-front :
        (p : Pool E) (tid : ℕ) (u x : Task) (qs : List Task)
        → IsOpen p
        → p.machine.sched.coroutines ≡ x ∷ qs
        → let r = search_task tid p.machine.fibers.heap p.machine.sched.coroutines in
          r.taken ≡ some u → (x ≡ u) × (r.left ≡ qs)
    took-front p tid u x qs open_all e h =
        let heap = p.machine.fibers.heap in
        let front =
          subst (All (λ t. (t.thread_id ≡ any_thread) × (is_busy heap t ≡ false))) e open_all in
        let found =
          ap (search_task tid heap) e ∙ search_task_head tid heap x qs front.0.0 front.0.1 in
        (some-injective x u (ap (λ r. r.taken) (sym found) ∙ h), ap (λ r. r.left) found)

    -- If `notify` leaves the queue alone and, at each step, the queued tasks are for any thread and of no
    -- running coroutine: a task with `n` others before it is taken, by whichever thread, at the latest by the
    -- search number `n + 1` that finds a task, whatever is dispatched meanwhile.
    pub Steps-IsTaken :
        {es : List Event} {p q : Pool E} (run : Steps notify p es q)
        → AllOpen run
        → (xs : List Task) (t : Task) (ys : List Task) → p.machine.sched.coroutines ≡ xs ++ t ∷ ys
        → length xs < takings es
        → IsTaken t es
    Steps-IsTaken stop o xs t ys e h = absurd (omega arith)
    Steps-IsTaken (next {p} (dispatched u) rest) o xs t ys e h =
        Steps-IsTaken rest o.1 xs t _
          (dispatch-queue notify u p.machine keeps ∙ dispatched-front (is_task u) u _ xs t ys e) h
    Steps-IsTaken (next {p} (took tid u free k) rest) o [] t ys e h =
        inl (sym (took-front p tid u t ys o.0 e k).0)
    Steps-IsTaken (next {p} (took tid u free k) rest) o (x ∷ xs) t ys e h =
        let found = search_task tid p.machine.fibers.heap p.machine.sched.coroutines in
        inr (
          Steps-IsTaken rest o.1 xs t ys
            (after_search-queue notify keeps found p.machine ∙ (took-front p tid u x _ o.0 e k).1)
            (omega arith))
    Steps-IsTaken (next {p} (left bs i u cs a m' k d) rest) o xs t ys e h =
        Steps-IsTaken rest o.1 xs t (ys ++ to_list (again a p.machine))
          (Ended-queue notify keeps u a p.machine m' d ∙ rw e (append_assoc xs (t ∷ ys) _)) h
    Steps-IsTaken (next {p} (worked m' k) rest) o xs t ys e h =
        Steps-IsTaken rest o.1 xs t ys (k ∙ e) h
