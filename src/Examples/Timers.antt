-- ===== src/Examples/Timers.antt =====
-- The theorems on timers and on the pool, on concrete states.
use io_scheduler.Examples.{no_timers, one_timer}
use io_scheduler.Timer.OrderedSet.{follows, insert, insert_after}
use io_scheduler.Timer.{add_timer, add_timer_ptr, get_expired_list, get_next_time}
use io_scheduler.Timer.Invariant.{Inv, add_timer-Inv}
use io_scheduler.Timer.Expiry.{Collected, get_expired_list-Collected, get_next_time-wakes}
use io_scheduler.Prelude.{[], false, length, refl, some, ◌+◌, ◌<◌, ◌∷◌, ◌≡◌}

no_timers-Inv : Inv no_timers
no_timers-Inv = record { sorted = tt; distinct = tt; known = tt }

pub one_timer-Inv : Inv one_timer
one_timer-Inv = (add_timer-Inv (some 7) 100 false 5 5 no_timers no_timers-Inv).0

get_expired_list-Collected_example :
    let (m', tasks') = get_expired_list 200 one_timer [] in Collected 200 one_timer m' [] tasks'
get_expired_list-Collected_example = get_expired_list-Collected 200 one_timer one_timer-Inv []

one_timer-set : one_timer.timers ≡ 0 ∷ []
unfolding add_timer add_timer_ptr insert insert_after follows
one_timer-set = refl

get_next_time-wakes_example :
    0 < length (get_expired_list (5 + get_next_time 5 one_timer) one_timer []).1
get_next_time-wakes_example =
    get_next_time-wakes 5 one_timer one_timer-Inv (rw one_timer-set (λ e. cc))
