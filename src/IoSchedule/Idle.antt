-- ===== src/IoSchedule/Idle.antt =====
-- `io_schedule::idle`, a round of its loop at a time. What `epoll_wait` delivers and the clock are
-- arguments.
use io_scheduler.Prelude.{
  Bool, List, Option, [], false, if◌then◌else◌, length, ltb, none, not, some, true, ℕ, ◌==◌, ◌||◌,
  ◌∷◌,
}
use io_scheduler.Coroutine.{init, set_state, swap_out, terminate}
use io_scheduler.Timer.{get_expired_list, no_timer}
use io_scheduler.Event.{Mask}
use io_scheduler.Schedule.{Machine, any_thread, batch_dispatch}
use io_scheduler.IoSchedule.{Io, Kernel, can_stop, notify, process_ready}

-- An entry of the array: that of the pipe, with the data it was registered with, one with a null pointer,
-- or the event at an index.
pub data Ready : Type 0 where
  pipe_ready null_ready : Ready
  fd_ready : ℕ → Mask → Ready

-- `MAX_TIMEOUUT`, in milliseconds.
abbrev pub max_timeout : ℕ
max_timeout = 3000

-- The timeout handed to `epoll_wait`.
unfoldable pub wait_time : ℕ → ℕ
wait_time next =
    if next == no_timer then max_timeout else (if ltb next max_timeout then next else max_timeout)

-- `epoll_wait` delivers its entries to the array, and fails without one.
abbrev pub delivered : Bool → List Ready → List Ready
delivered true entries = entries
delivered false entries = []

module _ (kernel : Kernel) where
  open kernel use {Epoll}

  -- Reading the pipe takes the messages out.
  abbrev pub drain_pipe : Machine (Io Epoll) → Machine (Io Epoll)
  drain_pipe m = let io = m.env in record m { env = record io { pipe = 0 } }

  -- An entry is the pipe's for the code where its data are `m_pipefds[0]`. Else the data are a pointer: null
  -- is passed over, and any other one that is no event is read (`none`).
  unfoldable pub process_entry : Mask → Ready → Machine (Io Epoll) → Option (Machine (Io Epoll))
  process_entry unset pipe_ready m =
      let io = m.env in
      if io.pipe_data == io.pipe_fd
      then some (drain_pipe m)
      else (if io.pipe_data == 0 then some m else none)
  process_entry unset null_ready m = some m
  process_entry unset (fd_ready i events) m = process_ready kernel unset i events m

  unfoldable pub process_entries :
      Mask → List Ready → Machine (Io Epoll) → Option (Machine (Io Epoll))
  process_entries unset [] m = some m
  process_entries unset (r ∷ rs) m = elim (process_entry unset r m) [
    | none ↦ none
    | some m' ↦ process_entries unset rs m'
  ]

  -- The timers due go to the queue.
  unfoldable pub dispatch_expired : ℕ → Machine (Io Epoll) → Machine (Io Epoll)
  dispatch_expired now m =
      let io = m.env in
      let (timers, tasks) = get_expired_list now io.timers [] in
      batch_dispatch notify tasks any_thread (record m { env = record io { timers = timers } })

  -- The end of the round: the array is freed, and the state says whether the scheduler goes on.
  unfoldable pub end_round : ℕ → Machine (Io Epoll) → Machine (Io Epoll)
  end_round idle m =
      let io = m.env in
      let goes_on = not (length io.timers.timers == 0) || m.sched.running in
      record m {
        env = record io { buffer = false };
        fibers = swap_out (set_state idle (if goes_on then init else terminate) m.fibers);
      }

  -- A round, run by the idle coroutine up to its switch back: `none` is a fault of an entry.
  unfoldable pub idle_round :
      ℕ → Mask → List Ready → ℕ → Machine (Io Epoll) → Option (Machine (Io Epoll))
  idle_round now unset entries idle m =
      if can_stop m
      then some (record m { fibers = set_state idle terminate m.fibers })
      else (elim (process_entries unset (delivered m.env.buffer entries) (dispatch_expired now m)) [
        | none ↦ none
        | some m' ↦ some (end_round idle m')
      ])
