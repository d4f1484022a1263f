-- ===== src/Examples/Rounds.antt =====
-- The theorems on coroutines and on rounds of `run`, on concrete states.
use io_scheduler.Schedule.Run.{run_function, run_round}
use io_scheduler.Schedule.Callbacks.{Called, run_function-Called}
use io_scheduler.Examples.{fibers, machine_of, no_timers}
use io_scheduler.Coroutine.{leave, main_thread_function, returns, swap_enter, yields_ready}
use io_scheduler.Schedule.Queue.{Takes, search_task-Takes}
use io_scheduler.Coroutine.Switches.{Left, leave-swap_enter}
use io_scheduler.Schedule.{
  Machine, Task, any_thread, coroutine_task, function_task, is_busy, is_foreign, search_task,
}
use io_scheduler.Schedule.Rounds.{
  Gone, IsQuiet, RunsOn, Settles, found, is_back, leaving, run_round-coroutine,
}
use io_scheduler.IoSchedule.{Io, notify}
use io_scheduler.Prelude.{List, OnSome, [], arith, pos, refl, some, true, ℕ, ◌∷◌, ◌≡◌}

leave-swap_enter_example : OnSome (Left 2 returns fibers) (leave returns (swap_enter 2 fibers))
leave-swap_enter_example = leave-swap_enter 2 returns fibers

-- A callback of another thread, then a coroutine for any.
abbrev tasks : List Task
tasks = function_task (pos 4) (some 7) ∷ coroutine_task any_thread 2 ∷ []

search_task-Takes_example : Takes 9 fibers.heap tasks (search_task 9 fibers.heap tasks)
search_task-Takes_example = search_task-Takes 9 fibers.heap tasks

abbrev machine : Machine (Io ℕ)
machine = machine_of tasks no_timers []

notify-IsQuiet : IsQuiet (notify {Epoll = ℕ})
unfolding notify
notify-IsQuiet = record { same_fibers = λ m. ground arith; same_sched = λ m. ground arith }

tasks-found :
    search_task 9 machine.fibers.heap machine.sched.coroutines
    ≡ found (coroutine_task any_thread 2) (function_task (pos 4) (some 7) ∷ []) true
unfolding search_task is_foreign is_busy
tasks-found = refl

run_round-coroutine_example :
    RunsOn 2 yields_ready
      (function_task (pos 4) (some 7) ∷ [])
      machine
      (run_round notify (leaving yields_ready) 9 1 machine)
run_round-coroutine_example =
    run_round-coroutine notify notify-IsQuiet 9 1 2 any_thread yields_ready
      (function_task (pos 4) (some 7) ∷ []) true machine tasks-found (λ e. cc) (omega arith)

run_function-Called_example :
    Settles
      (is_back returns main_thread_function machine.fibers)
      (Called 3 returns machine)
      (Gone 3 returns tasks machine)
      (run_function notify (leaving returns) (some 7) machine)
run_function-Called_example =
    run_function-Called notify notify-IsQuiet returns 7 machine (omega arith)
