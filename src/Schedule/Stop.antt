-- ===== src/Schedule/Stop.antt =====
-- src/concurrent/schedule.cpp: `stop`. `can_stop` is virtual and a parameter, as is `resume`, what the
-- scheduler does from the entry of its root coroutine until that gives control back. The threads that it
-- joins are not part of the state.
use io_scheduler.Coroutine.{call, error, terminate, State}
use io_scheduler.Schedule.{Machine}
use io_scheduler.Prelude.{
  Bool, Option, false, if◌then◌else◌, none, not, some, suc, true, u32_mod, zero, ℕ, ◌&&◌, ◌-◌, ◌==◌,
}

abbrev is_ended : State → Bool
is_ended terminate = true
is_ended error = true
is_ended _ = false

module _ {E : Type 0} (notify : Machine E → Machine E) (can_stop : Machine E → Bool)
    (resume : ℕ → Machine E → Machine E) where
  unfoldable pub notify_all : ℕ → Machine E → Machine E
  notify_all zero m = m
  notify_all (suc n) m = notify_all n (notify m)

  abbrev pub set_running : Bool → Machine E → Machine E
  set_running b m = let s = m.sched in record m { sched = record s { running = b } }

  -- The end of `stop`.
  unfoldable pub release_threads : Machine E → Machine E
  release_threads m = let m' = set_running false m in notify_all m'.sched.threads_num m'

  -- `stop` from its assertion on, with the root coroutine at `a`.
  unfoldable pub stop_root : ℕ → Machine E → Machine E
  stop_root a m =
      let ended : Bool = is_ended (m.fibers.heap a).state in
      let m' = if ended then set_running false m else m in
      if ended && can_stop m'
      then m'
      else release_threads (resume a (record m' { fibers = call a m'.fibers }))

  -- `stop`; `current` says whether this scheduler is that of the thread. `none` is a failed assertion.
  unfoldable pub stop : Bool → Machine E → Option (Machine E)
  stop current m =
      let s = m.sched in
      let m' : Machine E = record m { sched = record s { auto_stop = true } } in
      if not (s.root_thread_id == u32_mod - 1) && not current
      then none
      else (elim s.root_coroutine [
        | none ↦ some (release_threads m')
        | some a ↦ some (stop_root a m')
      ])
