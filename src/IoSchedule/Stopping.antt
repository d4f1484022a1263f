-- ===== src/IoSchedule/Stopping.antt =====
-- What the rounds of `idle` do to the queue, to later rounds and to the loop of `run`.
use io_scheduler.Coroutine.{set_coroutine, set_state, swap_out, terminate}
use io_scheduler.Schedule.Run.{
  Round, act_on, breaks, run_function_or_idle, run_idle, run_round, run_taken,
}
use io_scheduler.Event.{Mask}
use io_scheduler.Timer.{TimerManager, get_expired_list, get_next_time}
use io_scheduler.Prelude.{
  List, OnSome, Option, [], arith, false, filter, map, max, none, some, ℕ, ◌++◌, ◌+◌, ◌∙◌, ◌∷◌, ◌≡◌,
  ◌≤◌,
}
use io_scheduler.Schedule.{
  Machine, any_thread, batch_dispatch, function_task, is_task, reset_task, search_task,
}
use io_scheduler.Schedule.Queue.{KeepsQueue, batch_dispatch-queue}
use io_scheduler.Timer.Invariant.{Inv, func_at}
use io_scheduler.Timer.Expiry.{due, get_expired_list-Collected}
use io_scheduler.IoSchedule.{Io, Kernel, can_stop, notify}
use io_scheduler.IoSchedule.Idle.{
  Ready, delivered, dispatch_expired, end_round, idle_round, max_timeout, process_entries,
  wait_time,
}

notify-KeepsQueue : {Epoll : Type 0} → KeepsQueue (notify {Epoll = Epoll})
unfolding notify
notify-KeepsQueue m = ground arith

-- A wait of `idle` takes 3 seconds at most, and is over when the first timer starts.
pub wait_time_bounds :
    (clock a : ℕ) (rest : List ℕ) (m : TimerManager)
    → m.timers ≡ a ∷ rest
    → (wait_time (get_next_time clock m) ≤ max_timeout)
      × (clock + wait_time (get_next_time clock m) ≤ max clock (m.heap a).start)
unfolding wait_time get_next_time
wait_time_bounds clock a rest m h = rw h (ground arith, ground arith)

module _ (kernel : Kernel) where
  open kernel use {Epoll}

  -- If the set of timers is well-formed, the callbacks of the timers due go to the end of the queue, in the order of their start times, for
  -- any thread, and those that are empty do not.
  pub dispatch_expired-queue :
      (now : ℕ) (m : Machine (Io Epoll))
      → Inv m.env.timers
      → (dispatch_expired kernel now m).sched.coroutines
        ≡ m.sched.coroutines
          ++ filter is_task (
              map
                (function_task any_thread)
                (map (func_at m.env.timers.heap) (due now m.env.timers m.env.timers.timers)))
  unfolding dispatch_expired
  dispatch_expired-queue now m v =
      let io = m.env in
      let c = get_expired_list-Collected now io.timers v [] in
      let r = get_expired_list now io.timers [] in
      batch_dispatch-queue notify r.1 any_thread (record m { env = record io { timers = r.0 } })
        notify-KeepsQueue
      ∙ rw (c.handed)

  freed :
      (idle : ℕ) (o : Option (Machine (Io Epoll))) (m' : Machine (Io Epoll))
      → (elim o as (λ _. Option (Machine (Io Epoll))) [
        | none ↦ none
        | some m ↦ some (end_round kernel idle m)
      ])
        ≡ some m'
      → m'.env.buffer ≡ false
  unfolding end_round
  freed idle none m' h = cc
  freed idle (some m) m' h = ground arith

  -- A round of `idle` that did not stop frees the array of entries and never makes another: in the rounds that follow,
  -- nothing that the kernel reports is seen.
  pub idle_deaf :
      (now : ℕ) (unset : Mask) (entries : List Ready) (idle : ℕ) (m : Machine (Io Epoll))
      → can_stop m ≡ false
      → (m' : Machine (Io Epoll)) → idle_round kernel now unset entries idle m ≡ some m'
      → (now' : ℕ) (entries' : List Ready)
      → idle_round kernel now' unset entries' idle m' ≡ idle_round kernel now' unset [] idle m'
  unfolding idle_round
  idle_deaf now unset entries idle m h m' e now' entries' =
      let array_gone =
        freed idle
          (process_entries kernel unset (delivered m.env.buffer entries)
            (dispatch_expired kernel now m))
          m' (rw h at e) in
      rw array_gone

  abbrev pub Breaks : Round (Io Epoll) → Type 0
  Breaks (breaks m) = Unit
  Breaks _ = ⊥

  no_expired :
      (now : ℕ) (m : Machine (Io Epoll))
      → m.env.timers.timers ≡ []
      → dispatch_expired kernel now m ≡ m
  unfolding dispatch_expired get_expired_list batch_dispatch
  no_expired now m h = ground arith

  timed_out :
      (now : ℕ) (unset : Mask) (idle : ℕ) (m : Machine (Io Epoll))
      → m.env.timers.timers ≡ []
      → idle_round kernel now unset [] idle m ≡ some (end_round kernel idle m)
  unfolding idle_round can_stop process_entries
  timed_out now unset idle m h = ground (arith, no_expired now m h)

  terminated :
      (idle : ℕ) (m : Machine (Io Epoll))
      → m.env.timers.timers ≡ []
      → m.sched.running ≡ false
      → ((end_round kernel idle m).fibers.heap idle).state ≡ terminate
  unfolding end_round swap_out set_coroutine set_state
  terminated idle m t r = ground arith

  breaking :
      (resume : ℕ → Machine (Io Epoll) → Machine (Io Epoll)) (tid idle : ℕ) (m : Machine (Io Epoll))
      → m.sched.coroutines ≡ []
      → (m.fibers.heap idle).state ≡ terminate
      → Breaks (run_round notify resume tid idle m)
  unfolding run_round act_on run_taken run_function_or_idle run_idle search_task reset_task
  breaking resume tid idle m q s = rw (q, run_round) (rw s tt)

  -- With no timer, an empty queue and `m_running` false, a round of `idle` that times out ends its thread: it
  -- leaves the idle coroutine terminated, and the next round of `run` breaks the loop.
  pub idle_ends_worker :
      (resume : ℕ → Machine (Io Epoll) → Machine (Io Epoll)) (tid now idle : ℕ) (unset : Mask)
      (m : Machine (Io Epoll))
      → m.env.timers.timers ≡ []
      → m.sched.coroutines ≡ []
      → m.sched.running ≡ false
      → OnSome
          (λ m'. Breaks (run_round notify resume tid idle m'))
          (idle_round kernel now unset [] idle m)
  idle_ends_worker resume tid now idle unset m t q r = rw (timed_out now unset idle m t) (
      breaking resume tid idle (end_round kernel idle m) (unfold end_round in q)
        (unfold end_round in terminated idle m t r))
