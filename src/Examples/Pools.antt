-- ===== src/Examples/Pools.antt =====
-- The theorems on the threads of a pool: two tasks in the queue, and threads 1 and 4.
use mathlib.Core.List.{Perm}
use io_scheduler.Examples.{fibers}
use io_scheduler.Schedule.{
  Machine, Schedule, Task, any_thread, coroutine_task, function_task, dispatch, enqueue, is_busy,
  is_foreign, search_task,
}
use io_scheduler.Schedule.Run.{after_coroutine}
use io_scheduler.Schedule.Queue.{KeepsQueue}
use io_scheduler.Schedule.Pool.{
  Event, Pool, Step, Steps, after_search, again, dispatched, left, next, outstanding, own_ended,
  stop, took, leaves,
}
use io_scheduler.Schedule.Pool as Pool
use io_scheduler.Schedule.Pool.Bag.{Does, Steps-perm, all_added, all_ended, bag, Step-Does}
use io_scheduler.Schedule.Pool.Apart.{
  IsApart, Tracks, Tracks-apart, stays, then_goes, took_callback, took_coroutine,
}
use io_scheduler.Schedule.Pool.Owners.{take_twice}
use io_scheduler.Schedule.Pool.Served.{IsTaken, Steps-IsTaken}
use io_scheduler.Prelude.{List, [], arith, false, none, refl, some, ℕ, ◌++◌, ◌∷◌, ◌≡◌, ◌≢◌}

abbrev keeps_all : Machine ℕ → Machine ℕ
keeps_all m = m

abbrev keeps : KeepsQueue keeps_all
keeps m = refl

abbrev queue_of : List Task → Schedule
queue_of ts = record {
  coroutines = ts;
  threads_num = 2;
  free_thread_num = 0;
  active_thread_num = 0;
  running = false;
  auto_stop = false;
  threads_id = 1 ∷ 4 ∷ [];
  root_thread_id = 0;
  root_coroutine = none;
}

abbrev first : Task
first = coroutine_task any_thread 2

abbrev second : Task
second = coroutine_task any_thread 3

abbrev pool_of : List Task → List (ℕ × Task) → Pool ℕ
pool_of ts held = record {
  machine = record { fibers = fibers; sched = queue_of ts; env = 0 };
  held = held;
}

abbrev both : Pool ℕ
both = pool_of (first ∷ second ∷ []) []

abbrev twice : Pool ℕ
twice = pool_of (first ∷ first ∷ []) []

-- After thread 1 took the first task.
abbrev one_taken : Pool ℕ
one_taken = pool_of (second ∷ []) ((1, first) ∷ [])

abbrev two_taken : Pool ℕ
two_taken = pool_of [] ((4, second) ∷ (1, first) ∷ [])

take_first : Step keeps_all both (Pool.takes 1 first) one_taken
unfolding search_task is_foreign is_busy
take_first = took 1 first tt refl

take_second : Step keeps_all one_taken (Pool.takes 4 second) two_taken
unfolding search_task is_foreign is_busy
take_second = took 4 second (λ e. absurd (omega arith), tt) refl

-- Thread 1 comes back with its coroutine ready, and thread 4 still runs the other.
abbrev one_left : Pool ℕ
one_left = pool_of (first ∷ []) ((4, second) ∷ [])

leave_first : Step keeps_all two_taken (leaves first (some first)) one_left
unfolding after_coroutine dispatch enqueue
leave_first = left ((4, second) ∷ []) 1 first [] 2 two_taken_ready refl (own_ended refl refl)
  where
    two_taken_ready : Machine ℕ
    two_taken_ready = one_left.machine

run_both : Steps keeps_all both (Pool.takes 1 first ∷ Pool.takes 4 second ∷ []) two_taken
run_both = next take_first (next take_second stop)

abbrev three_events : List Event
three_events = Pool.takes 1 first ∷ Pool.takes 4 second ∷ leaves first (some first) ∷ []

run_three : Steps keeps_all both three_events one_left
run_three = next take_first (next take_second (next leave_first stop))

Step-Does_example : Does (leaves first (some first)) (bag two_taken) (bag one_left)
Step-Does_example = Step-Does keeps_all keeps leave_first

Steps-perm_example :
    Perm
      (all_ended three_events ++ outstanding one_left)
      (all_added three_events ++ outstanding both)
Steps-perm_example = Steps-perm keeps_all keeps run_three

-- A coroutine's task, and a callback, for which thread 4 makes coroutine 9.
abbrev called : Task
called = function_task any_thread (some 7)

abbrev mixed : Pool ℕ
mixed = pool_of (first ∷ called ∷ []) []

abbrev mixed_one : Pool ℕ
mixed_one = pool_of (called ∷ []) ((1, first) ∷ [])

abbrev mixed_both : Pool ℕ
mixed_both = pool_of [] ((4, called) ∷ (1, first) ∷ [])

take_mixed : Step keeps_all mixed (Pool.takes 1 first) mixed_one
unfolding search_task is_foreign is_busy
take_mixed = took 1 first tt refl

take_called : Step keeps_all mixed_one (Pool.takes 4 called) mixed_both
unfolding search_task is_foreign is_busy
take_called = took 4 called (λ e. absurd (omega arith), tt) refl

mixed_run : Tracks keeps_all mixed [] mixed_both ((4, 9) ∷ [])
mixed_run =
    then_goes (took_coroutine 1 first take_mixed refl)
      (then_goes (took_callback 4 called 9 take_called refl) stays)

mixed-IsApart : IsApart mixed []
mixed-IsApart a = ground arith

Tracks-apart_example : ◌≢◌ {A = ℕ} 2 9
Tracks-apart_example = Tracks-apart keeps_all keeps mixed_run mixed-IsApart [] 2 [] 9 [] refl

take_twice_example :
    (q : Pool ℕ) × Steps keeps_all twice (Pool.takes 1 first ∷ Pool.takes 4 first ∷ []) q
    × (q.held ≡ (4, first) ∷ (1, first) ∷ [])
    × (q.machine.sched.coroutines ≡ [])
take_twice_example =
    take_twice keeps_all twice 1 4 first first [] 2 refl (refl, refl) (refl, refl) refl tt
      (λ e. absurd (omega arith), tt)

open_first : (first.thread_id ≡ any_thread) × (is_busy fibers.heap first ≡ false)
unfolding is_busy
open_first = (refl, refl)

open_second : (second.thread_id ≡ any_thread) × (is_busy fibers.heap second ≡ false)
unfolding is_busy
open_second = (refl, refl)

Steps-IsTaken_example : IsTaken second (Pool.takes 1 first ∷ Pool.takes 4 second ∷ [])
unfolding run_both
Steps-IsTaken_example =
    Steps-IsTaken keeps_all keeps run_both
      ((open_first, (open_second, tt)), ((open_second, tt), tt)) (first ∷ []) second [] refl
      (omega arith)
