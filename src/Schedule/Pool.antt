-- ===== src/Schedule/Pool.antt =====
-- src/concurrent/schedule.cpp: the threads of the pool, which work on one scheduler at the same time. Each
-- step happens under the mutex or is one thread's own; they come in every order.
pub mod Apart
pub mod Bag
pub mod Exclusive
pub mod Owners
pub mod Served
use io_scheduler.Prelude.{
  All, List, Option, [], if◌then◌else◌, map, none, some, ℕ, ◌++◌, ◌∷◌, ◌≡◌, ◌≢◌,
}
use io_scheduler.Coroutine.{ready}
use io_scheduler.Schedule.{Machine, Search, Task, any_thread, coroutine_task, dispatch, search_task}
use io_scheduler.Schedule.Run.{after_coroutine, after_function}

-- The shared state, and the threads that run a task, each with its task (`temp` in `run`).
pub record Pool (E : Type 0) : Type 0 where
  pub machine : Machine E
  pub held : List (ℕ × Task)

-- What happens at a step: `leaves t r` is the end of a round with the task `t`, after which `r` is queued.
pub data Event : Type 0 where
  dispatches : Task → Event
  takes : ℕ → Task → Event
  leaves : Task → Option Task → Event
  works : Event

abbrev pub HoldsNone : ℕ → List (ℕ × Task) → Type 0
HoldsNone tid held = All (λ h. h.0 ≢ tid) held

module _ {E : Type 0} where
  -- The coroutine at `a` is dispatched again if it is ready.
  abbrev pub again : ℕ → Machine E → Option Task
  again a m = elim (m.fibers.heap a).state [ ready ↦ some (coroutine_task any_thread a) | _ ↦ none ]

  module _ (notify : Machine E → Machine E) where
    -- What a search leaves of the queue, and the notification.
    abbrev pub after_search : Search → Machine E → Machine E
    after_search r m =
        let s = m.sched in
        let m' : Machine E = record m { sched = record s { coroutines = r.left } } in
        if r.need_notify then notify m' else m'

    -- What follows the switch back to a thread from the coroutine at `a`: the task's own, or the one
    -- made for its callback.
    pub data Ended (t : Task) (a : ℕ) (m m' : Machine E) : Type 0 where
      own_ended : t.coroutine ≡ some a → m' ≡ after_coroutine notify a m → Ended t a m m'
      made_ended :
          (f : ℕ) → t.function ≡ some f → after_function notify a m ≡ some m' → Ended t a m m'

    -- `worked` is all that leaves the queue alone: a switch, the code of a coroutine between its calls of
    -- `dispatch`, the counters.
    pub data Step (p : Pool E) : Event → Pool E → Type 0 where
      dispatched :
          (t : Task) → Step p (dispatches t) (record p { machine = dispatch notify t p.machine })
      took :
          (tid : ℕ) (t : Task)
          → HoldsNone tid p.held
          → (search_task tid p.machine.fibers.heap p.machine.sched.coroutines).taken ≡ some t
          → Step p (takes tid t) (record {
            machine =
                after_search
                  (search_task tid p.machine.fibers.heap p.machine.sched.coroutines)
                  p.machine;
            held = (tid, t) ∷ p.held;
          })
      left :
          (xs : List (ℕ × Task)) (tid : ℕ) (t : Task) (ys : List (ℕ × Task)) (a : ℕ)
          (m' : Machine E)
          → p.held ≡ xs ++ (tid, t) ∷ ys
          → Ended t a p.machine m'
          → Step p (leaves t (again a p.machine)) (record { machine = m'; held = xs ++ ys })
      worked :
          (m' : Machine E)
          → m'.sched.coroutines ≡ p.machine.sched.coroutines
          → Step p works (record p { machine = m' })

    pub data Steps : Pool E → List Event → Pool E → Type 0 where
      stop : {p : Pool E} → Steps p [] p
      next :
          {e : Event} {es : List Event} {p q r : Pool E}
          → Step p e q
          → Steps q es r
          → Steps p (e ∷ es) r

  -- The tasks that are queued or run.
  abbrev pub outstanding : Pool E → List Task
  outstanding p = p.machine.sched.coroutines ++ map (λ h. h.1) p.held
