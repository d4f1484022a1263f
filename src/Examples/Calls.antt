-- ===== src/Examples/Calls.antt =====
-- The theorems on the hooked calls, on a concrete state.
use io_scheduler.Examples.{machine_of, no_timers}
use io_scheduler.IoSchedule.{Io}
use io_scheduler.Event.{new_event}
use io_scheduler.Handle.{Table, new_fd_context, socket_file}
use io_scheduler.Schedule.{Machine}
use io_scheduler.Prelude.{[], some, ℕ, ◌∷◌}

abbrev machine : Machine (Io ℕ)
machine = machine_of [] no_timers (new_event 0 ∷ [])

abbrev entries : Table
entries = some (new_fd_context (λ i. some socket_file) 0) ∷ []
