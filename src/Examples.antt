-- ===== src/Examples.antt =====
-- A small scheduler on which the theorems are applied: thread 9 with its initial coroutine 0, its main
-- coroutine 1 and a ready coroutine 2; one descriptor, 0, and a timer.
mod Timers
mod Rounds
mod Readiness
mod Stores
mod Calls
mod Starts
mod Logs
mod Deliveries
mod Operations
mod Sockets
mod Tables
mod Pools
mod Boots
mod Lines
use io_scheduler.Event.{Event}
use io_scheduler.Coroutine.{Coroutine, Fibers, State, ready, running, schedule_function}
use io_scheduler.Timer.{TimerManager, add_timer, new_timer}
use io_scheduler.IoSchedule.{Io, Kernel}
use io_scheduler.Schedule.{Machine, Schedule, Task}
use io_scheduler.Prelude.{List, [], false, none, some, suc, true, ℕ, ◌∷◌}

abbrev pub ready_coroutine : Coroutine
ready_coroutine = record {
  id = 0;
  stack = true;
  stack_size = 1024;
  function = none;
  state = State.ready;
  entry = schedule_function;
}

abbrev pub fibers : Fibers
fibers = record {
  heap = λ a. ready_coroutine;
  next = 3;
  coroutine_id = 3;
  coroutine_num = 3;
  cur_fiber = some 1;
  init_fiber = some 0;
  main_coroutine = some 1;
}

abbrev pub schedule_of : List Task → Schedule
schedule_of tasks = record {
  coroutines = tasks;
  threads_num = 2;
  free_thread_num = 1;
  active_thread_num = 0;
  running = false;
  auto_stop = false;
  threads_id = 9 ∷ [];
  root_thread_id = 9;
  root_coroutine = some 1;
}

abbrev pub no_timers : TimerManager
no_timers = record { heap = λ a. new_timer none 0 false 0 0; next = 0; timers = []; previous = 0 }

-- A callback due at 105.
abbrev pub one_timer : TimerManager
one_timer = (add_timer (some 7) 100 false 5 5 no_timers).0

-- A kernel that counts the calls and lets each succeed.
abbrev pub counting_kernel : Kernel
counting_kernel = record { Epoll = ℕ; epoll_ctl = λ k op fd mask. (suc k, true) }

abbrev pub io_of : TimerManager → List Event → Io ℕ
io_of timers fds = record {
  timers = timers;
  fds = fds;
  waiting_events = 1;
  pipe = 0;
  on_scheduler = true;
  buffer = true;
  epoll = 0;
  pipe_fd = 5;
  pipe_data = 5;
}

abbrev pub machine_of : List Task → TimerManager → List Event → Machine (Io ℕ)
machine_of tasks timers fds = record {
  fibers = fibers;
  sched = schedule_of tasks;
  env = io_of timers fds;
}
