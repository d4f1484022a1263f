-- ===== src/IoSchedule/Construct.antt =====
-- src/io/io.cpp: the constructor of the scheduler, and what may be done from then on. The epoll instance
-- and the descriptor of the pipe are what `epoll_create` and `pipe` answer.
use io_scheduler.Coroutine.{Fibers}
use io_scheduler.IoSchedule.Idle.{drain_pipe, pipe_ready, process_entry}
use io_scheduler.Event.{Mask, mask_of, read_type}
use io_scheduler.IoSchedule.{Io, Kernel, ctl_add}
use io_scheduler.Prelude.{
  ap, false, if◌then◌else◌, ◌∙◌, ◌==◌, ◌||◌, Bool, Option, [], none, refl, some, true, ℕ, ◌≡◌,
}
use io_scheduler.Schedule.{Machine, Schedule, new_schedule}
use io_scheduler.Timer.{Timer, TimerManager}

-- `Timer_manager::Timer_manager`, with the reading of the clock that it keeps.
unfoldable pub new_timer_manager : (ℕ → Timer) → ℕ → TimerManager
new_timer_manager heap clock = record { heap = heap; next = 0; timers = []; previous = clock }

module _ (kernel : Kernel) where
  open kernel use {Epoll, epoll_ctl}

  -- The members that the constructor adds, and the registration of the pipe. `event.data.fd` is set from
  -- `m_pipefds[0]` before `pipe` writes it: `unset` is what that holds by chance, as an unsigned number.
  unfoldable pub new_io : Epoll → ℕ → ℕ → TimerManager → Io Epoll
  new_io epoll pipe unset timers = record {
    timers = timers;
    fds = [];
    waiting_events = 0;
    pipe = 0;
    on_scheduler = true;
    buffer = true;
    epoll = (epoll_ctl epoll ctl_add pipe (mask_of read_type)).0;
    pipe_fd = pipe;
    pipe_data = unset;
  }

  -- `io_schedule::io_schedule`.
  unfoldable pub new_io_schedule :
      Epoll → ℕ → ℕ → (ℕ → Timer) → ℕ → ℕ → Bool → ℕ → Fibers → Option (Machine (Io Epoll))
  new_io_schedule epoll pipe unset heap clock thread_num use_init_thread tid s =
      elim (new_schedule thread_num use_init_thread tid s) [
        | none ↦ none
        | some made ↦ some (record {
          fibers = made.0;
          sched = made.1;
          env = new_io epoll pipe unset (new_timer_manager heap clock);
        })
      ]

  -- Where that is neither, the first entry of the pipe makes `idle` read through a pointer to no event.
  new_io-pipe_faults :
      (epoll : Epoll) (pipe unset : ℕ) (timers : TimerManager) (mask : Mask)
      (m : Machine (Io Epoll))
      → (unset == pipe || unset == 0) ≡ false
      → m.env ≡ new_io epoll pipe unset timers
      → process_entry kernel mask pipe_ready m ≡ none
  unfolding process_entry new_io
  new_io-pipe_faults epoll pipe unset timers mask m h e =
      ap
        (λ (io : Io Epoll).
          if io.pipe_data == io.pipe_fd
          then some (drain_pipe kernel m)
          else (if io.pipe_data == 0 then some m else none))
        e
      ∙ by_tests (unset == pipe) (unset == 0) h
    where
      by_tests :
          (b c : Bool)
          → (b || c) ≡ false
          → ◌≡◌ {A = Option (Machine (Io Epoll))}
              (if b then some (drain_pipe kernel m) else (if c then some m else none))
              none
      by_tests true c k = cc
      by_tests false true k = cc
      by_tests false false k = refl
