-- ===== src/IoSchedule/Lifetime.antt =====
-- src/io/io.cpp, src/manager/handle.cpp and src/concurrent/timer.cpp: the destructors, and the table of descriptors
-- that the scheduler asks. A call of the system is named in the results.
use io_scheduler.Handle.{
  FdContext, Lookup, Table, close_context, get_fd, new_handle, pointer, unknown,
}
use io_scheduler.IoSchedule.{Io}
use io_scheduler.Timer.{Timer, TimerManager}
use io_scheduler.Prelude.{Bool, List, Option, [], if◌then◌else◌, length, none, not, some, ℕ, ◌∷◌}

-- `handle::GetHandle`.
unfoldable pub get_handle : Option Table → Table × Option Table
get_handle none = (new_handle, some new_handle)
get_handle (some t) = (t, some t)

-- `io_schedule::GetFd`, of `m_handle`.
unfoldable pub io_get_fd : Option Table → ℕ → Lookup
io_get_fd none fd = pointer none
io_get_fd (some t) fd = get_fd fd t

-- `~fd_context`, with the answer of `fcntl` in `close`: the context, and whether it was called.
unfoldable pub destroy_context : Bool → FdContext → FdContext × Bool
destroy_context done c =
    let c' : FdContext = record c { type = unknown } in
    let c'' : FdContext = if c.closed then c' else close_context done c' in
    (record c'' { send_timeout = 0; receive_timeout = 0 }, not c.closed)

-- `~timer` and `~Timer_manager`, and `AddUrgentEvent`.
unfoldable pub destroy_timer : Timer → Timer
destroy_timer t = record t { func = none }

unfoldable pub destroy_timers : TimerManager → TimerManager
destroy_timers m = record m { timers = [] }

unfoldable pub add_urgent_event : Option ℕ → TimerManager → TimerManager
add_urgent_event event m = m

module _ {Epoll : Type 0} where
  -- `~io_schedule`: the descriptors that it closes, in their order, how many events it deletes, and what is left.
  unfoldable pub destroy_io_schedule : ℕ → ℕ → ℕ → Io Epoll → List ℕ × ℕ × Io Epoll
  destroy_io_schedule pipe_out pipe_in epoll_fd io =
      (pipe_out ∷ pipe_in ∷ epoll_fd ∷ [], length io.fds, record io { fds = [] })
