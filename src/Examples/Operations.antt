-- ===== src/Examples/Operations.antt =====
-- The theorems on sequences of operations, on machines with and without a timer.
use io_scheduler.Event.{mask_of, new_context, new_event, none_type, read_type}
use io_scheduler.Examples.{counting_kernel, fibers, machine_of, no_timers, one_timer}
use io_scheduler.Examples.Timers.{one_timer-Inv}
use io_scheduler.IoSchedule.{
  Io, add_io_timer, can_stop, cancel_event, notify, process_ready, register_event,
}
use io_scheduler.IoSchedule.Construct.{new_io, new_timer_manager}
use io_scheduler.IoSchedule.Foreign.{register_event-orphan_faults}
use io_scheduler.IoSchedule.Idle.{idle_round}
use io_scheduler.IoSchedule.Invariant.{IoInv}
use io_scheduler.IoSchedule.Operations.{Runs, adds_timer, cancels, done, next, registers, run-IoInv}
use io_scheduler.IoSchedule.Shutdown.{stop-ends_worker}
use io_scheduler.IoSchedule.Stopping.{Breaks}
use io_scheduler.IoSchedule.Wakeup.{add_io_timer-idle_round}
use io_scheduler.Prelude.{
  OnSome, [], arith, false, if◌then◌else◌, none, refl, some, true, u32_mod, ℕ, ◌+◌, ◌-◌, ◌∷◌, ◌≡◌,
}
use io_scheduler.Schedule.{Machine, any_thread, function_task, has_free_thread}
use io_scheduler.Schedule.Run.{run_round}
use io_scheduler.Schedule.Stop.{stop}
use mathlib.Core.List.{Mem}

abbrev pub start : Machine (Io ℕ)
start = machine_of [] one_timer (new_event 0 ∷ [])

start-IoInv : IoInv start.env
unfolding new_event new_context
start-IoInv = record {
  timers_inv = one_timer-Inv;
  events = record {
    in_place = (refl, tt);
    armed = (((λ h. (refl, refl)), (λ h. (refl, refl))), tt);
  };
  here = refl;
  piped = refl;
}

-- A timer is added and descriptor 0 cancelled.
abbrev timed : Machine (Io ℕ)
timed = add_io_timer (some 8) 50 true 5 5 start

start-Runs : Runs counting_kernel start (cancel_event counting_kernel 0 timed).0
start-Runs = next (adds_timer (some 8) 50 true 5 5) tt refl (next (cancels 0) tt refl done)

run-IoInv_example :
    OnSome
      (λ (m' : Machine (Io ℕ)). IoInv m'.env)
      (register_event counting_kernel 3 read_type (some 7) (cancel_event counting_kernel 0 timed).0)
run-IoInv_example =
    run-IoInv counting_kernel start (cancel_event counting_kernel 0 timed).0 start-Runs start-IoInv
      (registers 3 read_type (some 7)) (omega arith)

-- A kernel's epoll that counts, a pipe at 5, one worker thread.
abbrev constructed : Machine (Io ℕ)
constructed = record {
  fibers = fibers;
  sched = record {
    coroutines = [];
    threads_num = 1;
    free_thread_num = 0;
    active_thread_num = 0;
    running = false;
    auto_stop = false;
    threads_id = [];
    root_thread_id = u32_mod - 1;
    root_coroutine = none;
  };
  env = new_io counting_kernel 0 5 0 (new_timer_manager no_timers.heap 100);
}

add_io_timer-idle_round_example :
    OnSome
      (λ (m' : Machine (Io ℕ)). Mem (function_task any_thread (some 8)) m'.sched.coroutines)
      (idle_round counting_kernel 60
        (mask_of none_type)
        []
        2
        (add_io_timer (some 8) 50 true 5 5 start))
add_io_timer-idle_round_example =
    add_io_timer-idle_round counting_kernel 8 50 5 5 60 2 true (mask_of none_type) start
      one_timer-Inv refl (omega arith)

stop-ends_worker_example :
    OnSome
      (λ (m' : Machine (Io ℕ)).
        (m'.env.pipe ≡ (
          if has_free_thread constructed.sched
          then constructed.env.pipe + 1
          else constructed.env.pipe))
        × OnSome
            (λ m''. Breaks counting_kernel (run_round notify (λ a m. m) 9 2 m''))
            (idle_round counting_kernel 0 (mask_of none_type) [] 2 m'))
      (stop notify can_stop (λ a m. m) false constructed)
unfolding new_io new_timer_manager
stop-ends_worker_example =
    stop-ends_worker counting_kernel (λ a m. m) false 9 0 2 (mask_of none_type) constructed refl
      refl refl refl

-- A worker thread, which has no scheduler.
abbrev worker : Machine (Io ℕ)
worker = let io = start.env in record start { env = record io { on_scheduler = false } }

register_event-orphan_faults_example :
    OnSome
      (λ m1. process_ready counting_kernel (mask_of none_type) 0 (mask_of read_type) m1 ≡ none)
      (register_event counting_kernel 0 read_type (some 7) worker)
register_event-orphan_faults_example =
    register_event-orphan_faults counting_kernel (mask_of none_type) read_type 0 7 (new_event 0)
      worker (λ e. cc) refl refl refl
