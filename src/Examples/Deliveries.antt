-- ===== src/Examples/Deliveries.antt =====
-- The theorem on the way of a timer's callback to a thread of the pool.
use io_scheduler.Event.{mask_of, none_type}
use io_scheduler.Examples.{counting_kernel}
use io_scheduler.Examples.Operations.{start}
use io_scheduler.Examples.Timers.{one_timer-Inv}
use io_scheduler.IoSchedule.{Io, add_io_timer, can_stop, notify}
use io_scheduler.IoSchedule.Idle.{dispatch_expired, end_round, idle_round, process_entries}
use io_scheduler.IoSchedule.Wakeup.{add_io_timer-IsTaken}
use io_scheduler.Prelude.{[], arith, false, refl, some, true, ℕ, ◌∷◌, ◌≡◌}
use io_scheduler.Schedule.{
  Machine, Task, any_thread, batch_dispatch, function_task, has_free_thread, is_busy, search_task,
}
use io_scheduler.Schedule.Pool.{Event, Pool, Step, Steps, after_search, next, stop, took}
use io_scheduler.Schedule.Pool as Pool
use io_scheduler.Schedule.Pool.Served.{AllOpen, IsTaken}
use io_scheduler.Timer.OrderedSet.{insert}
use io_scheduler.Timer.{add_timer, collect, compare_at, get_expired_list, new_timer}

-- A timer of 50 milliseconds is added, and the round of `idle` is at 60.
abbrev fired : Machine (Io ℕ)
fired =
    end_round counting_kernel 2
      (dispatch_expired counting_kernel 60 (add_io_timer (some 8) 50 true 5 5 start))

abbrev callback : Task
callback = function_task any_thread (some 8)

abbrev pool : Pool (Io ℕ)
pool = record { machine = fired; held = [] }

round_fired :
    idle_round counting_kernel 60 (mask_of none_type) [] 2 (add_io_timer (some 8) 50 true 5 5 start)
    ≡ some fired
unfolding idle_round process_entries can_stop add_io_timer
round_fired = refl

queue_fired : fired.sched.coroutines ≡ callback ∷ []
unfolding search_task end_round dispatch_expired batch_dispatch get_expired_list add_io_timer
    add_timer insert compare_at new_timer collect notify has_free_thread
queue_fired = refl

abbrev after_taking : Pool (Io ℕ)
after_taking = record {
  machine = after_search (λ m. m) (search_task 1 fired.fibers.heap fired.sched.coroutines) fired;
  held = (1, callback) ∷ [];
}

take_callback : Step (λ m. m) pool (Pool.takes 1 callback) after_taking
unfolding search_task end_round dispatch_expired batch_dispatch get_expired_list add_io_timer
    add_timer insert compare_at new_timer collect notify has_free_thread
take_callback = took 1 callback tt refl

take_one : Steps (λ m. m) pool (Pool.takes 1 callback ∷ []) after_taking
take_one = next take_callback stop

open_callback : (callback.thread_id ≡ any_thread) × (is_busy fired.fibers.heap callback ≡ false)
unfolding is_busy
open_callback = (refl, refl)

take_one-AllOpen : AllOpen take_one
unfolding take_one
take_one-AllOpen = (rw queue_fired (open_callback, tt), tt)

add_io_timer-IsTaken_example : IsTaken callback (Pool.takes 1 callback ∷ [])
add_io_timer-IsTaken_example =
    add_io_timer-IsTaken counting_kernel 8 50 5 5 60 2 true (mask_of none_type) start one_timer-Inv
      refl (omega arith) (λ m. m) (λ m. refl) pool after_taking (Pool.takes 1 callback ∷ [])
      round_fired take_one take_one-AllOpen (rw queue_fired (omega arith))
