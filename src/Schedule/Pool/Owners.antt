-- ===== src/Schedule/Pool/Owners.antt =====
-- Which thread of a pool runs a task.
use io_scheduler.Prelude.{
  All, List, [], ap, arith, false, refl, some, subst, sym, ℕ, ◌++◌, ◌∙◌, ◌∷◌, ◌≡◌,
}
use io_scheduler.Coroutine.{Coroutine, is_running}
use io_scheduler.Schedule.{is_busy, any_thread, Machine, Search, Task, is_foreign, search_task}
use io_scheduler.Schedule.Pool as Pool
use io_scheduler.Schedule.Queue.{Takes, search_task-Takes, takes, takes_none}
use io_scheduler.Schedule.Pool.{
  after_search, Ended, Event, HoldsNone, Pool, Step, Steps, again, dispatched, dispatches, leaves,
  left, made_ended, next, outstanding, own_ended, stop, took, worked, works,
}

All-without :
    {A : Type 0} (P : A → Type 0) (xs : List A) (x : A) (ys : List A)
    → All P (xs ++ x ∷ ys)
    → All P (xs ++ ys)
All-without P [] x ys h = h.1
All-without P (y ∷ xs) x ys h = (h.0, All-without P xs x ys h.1)

-- A task for any thread, of a coroutine that does not run, is taken from the front of the queue.
search_task_front :
    (tid : ℕ) (heap : ℕ → Coroutine) (t : Task) (ts : List Task) (a : ℕ)
    → t.thread_id ≡ any_thread
    → t.coroutine ≡ some a
    → is_running (heap a).state ≡ false
    → search_task tid heap (t ∷ ts) ≡ record { taken = some t; left = ts; need_notify = false }
unfolding search_task is_foreign is_busy
search_task_front tid heap t ts a e f h = rw (e, f, h) refl

search_task-own :
    (tid : ℕ) (heap : ℕ → Coroutine) (ts : List Task) (r : Search) (t : Task)
    → Takes tid heap ts r
    → r.taken ≡ some t
    → is_foreign tid t ≡ false
search_task-own tid heap ts r t (takes passed u rest q all free e) h =
    let same : u ≡ t = cc in rw (sym same) (ground arith)
search_task-own tid heap ts r t (takes_none all e) h = cc

module _ {E : Type 0} where
  module _ (notify : Machine E → Machine E) where
    -- A thread that holds a task is one that the task may run on.
    abbrev pub IsOwned : Pool E → Type 0
    IsOwned p = All (λ h. is_foreign h.0 h.1 ≡ false) p.held

    Step-IsOwned : {e : Event} {p q : Pool E} → Step notify p e q → IsOwned p → IsOwned q
    Step-IsOwned (dispatched t) h = h
    Step-IsOwned {p} (took tid t free e) h = (
      search_task-own tid p.machine.fibers.heap _ _ t
          (search_task-Takes tid p.machine.fibers.heap _) e,
      h,
    )
    Step-IsOwned {p} (left xs tid t ys a m' e k) h =
        All-without _ xs (tid, t) ys (subst (All (λ h. is_foreign h.0 h.1 ≡ false)) e h)
    Step-IsOwned (worked m' e) h = h

    -- If every thread runs a task that is for any thread or for itself, so it is after any steps.
    pub Steps-IsOwned :
        {es : List Event} {p q : Pool E} → Steps notify p es q → IsOwned p → IsOwned q
    Steps-IsOwned stop h = h
    Steps-IsOwned (next st rest) h = Steps-IsOwned rest (Step-IsOwned st h)

    took_front :
        (p : Pool E) (i : ℕ) (t : Task) (ts : List Task) (a : ℕ)
        → p.machine.sched.coroutines ≡ t ∷ ts
        → t.thread_id ≡ any_thread
        → t.coroutine ≡ some a
        → is_running (p.machine.fibers.heap a).state ≡ false
        → HoldsNone i p.held
        → let m = p.machine in
          Step notify p (Pool.takes i t) (record {
            machine = record m { sched = record m.sched { coroutines = ts } };
            held = (i, t) ∷ p.held;
          })
    took_front p i t ts a e any own h free =
        let found : search_task i p.machine.fibers.heap p.machine.sched.coroutines
            ≡ record { taken = some t; left = ts; need_notify = false } =
          ap (search_task i p.machine.fibers.heap) e
          ∙ search_task_front i p.machine.fibers.heap t ts a any own h in
        subst
          (λ r.
            Step notify p (Pool.takes i t)
              (record { machine = after_search notify r p.machine; held = (i, t) ∷ p.held }))
          found (took i t free (ap (λ r. r.taken) found))

    -- The test for a running coroutine is made under the lock, and the state is set after it: two tasks of a
    -- coroutine that does not run, for any thread and at the front of the queue, are taken by any two free
    -- threads, one after the other, which then both run the coroutine.
    pub take_twice :
        (p : Pool E) (i j : ℕ) (t u : Task) (rest : List Task) (a : ℕ)
        → p.machine.sched.coroutines ≡ t ∷ u ∷ rest
        → (t.thread_id ≡ any_thread) × (u.thread_id ≡ any_thread)
        → (t.coroutine ≡ some a) × (u.coroutine ≡ some a)
        → is_running (p.machine.fibers.heap a).state ≡ false
        → HoldsNone i p.held
        → HoldsNone j ((i, t) ∷ p.held)
        → (q : Pool E) × Steps notify p (Pool.takes i t ∷ Pool.takes j u ∷ []) q
          × (q.held ≡ (j, u) ∷ (i, t) ∷ p.held)
          × (q.machine.sched.coroutines ≡ rest)
    take_twice p i j t u rest a e f g h free_i free_j =
        let first = took_front p i t (u ∷ rest) a e f.0 g.0 h free_i in
        let second = took_front _ j u rest a refl f.1 g.1 h free_j in
        (_, next first (next second stop), refl, refl)
