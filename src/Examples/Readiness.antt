-- ===== src/Examples/Readiness.antt =====
-- The theorems on events and on rounds of `idle`, on concrete states.
use io_scheduler.Examples.Timers.{one_timer-Inv}
use io_scheduler.Timer.Expiry.{due}
use io_scheduler.IoSchedule.Wakeup.{idle_round-queue, tasks_of}
use io_scheduler.IoSchedule.RoundTrip.{IsFree, Served, register_then_ready}
use io_scheduler.Examples.{counting_kernel, machine_of, no_timers, one_timer}
use io_scheduler.Event.{
  Event, Mask, get_context, mask_of, new_context, new_event, none_type, read_type, write_type,
}
use io_scheduler.IoSchedule.{Io, can_stop, process_ready, register_event}
use io_scheduler.IoSchedule.Idle.{dispatch_expired, end_round, idle_round, process_entries}
use io_scheduler.Schedule.{Machine}
use io_scheduler.Prelude.{OnSome, [], arith, false, none, refl, some, true, ℕ, ◌++◌, ◌∷◌, ◌≡◌}

abbrev unset : Mask
unset = mask_of none_type

abbrev fresh_machine : Machine (Io ℕ)
fresh_machine = machine_of [] no_timers (new_event 0 ∷ [])

-- Descriptor 0 with the callback 7 for READ.
abbrev reading : Event
reading = record {
  fd = 0;
  read = record { scheduler = true; coroutine = none; function = some 7 };
  write = new_context;
  current = mask_of read_type;
}

abbrev reading_machine : Machine (Io ℕ)
reading_machine = machine_of [] no_timers (reading ∷ [])

fresh-IsFree : IsFree write_type (new_event 0)
unfolding new_event new_context get_context
fresh-IsFree = record { not_none = λ e. cc; not_set = refl; no_waiter = refl }

register_then_ready_example :
    OnSome
      (λ m1.
        OnSome
          (Served write_type 0 7 (new_event 0) fresh_machine)
          (process_ready counting_kernel unset 0 (mask_of write_type) m1))
      (register_event counting_kernel 0 write_type (some 7) fresh_machine)
unfolding new_event
register_then_ready_example =
    register_then_ready counting_kernel unset write_type 0 7 (new_event 0) fresh_machine refl
      fresh-IsFree refl refl (omega arith)

timed-goes_on : can_stop (machine_of [] one_timer []) ≡ false
unfolding can_stop
timed-goes_on = refl

idle_round-queue_example :
    OnSome
      (λ (m' : Machine (Io ℕ)).
        m'.sched.coroutines ≡ [] ++ tasks_of one_timer.heap (due 200 one_timer one_timer.timers))
      (idle_round counting_kernel 200 unset [] 2 (machine_of [] one_timer []))
idle_round-queue_example =
    idle_round-queue counting_kernel 200 2 unset (machine_of [] one_timer []) one_timer-Inv
      timed-goes_on

fresh-goes_on : can_stop fresh_machine ≡ false
unfolding can_stop
fresh-goes_on = refl

fresh-round :
    idle_round counting_kernel 0 unset [] 2 fresh_machine
    ≡ some (end_round counting_kernel 2 (dispatch_expired counting_kernel 0 fresh_machine))
unfolding idle_round process_entries
fresh-round = rw fresh-goes_on refl
