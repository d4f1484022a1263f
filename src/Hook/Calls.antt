-- ===== src/Hook/Calls.antt =====
-- What the hooked calls do for the coroutine that makes them.
use io_scheduler.Event.{Event}
use io_scheduler.Coroutine.{get_this_coroutine, pause, set_coroutine, set_state, swap_out, yield_to}
use io_scheduler.IoSchedule.{Io, add_io_timer}
use io_scheduler.Schedule.{Machine}
use io_scheduler.Hook.{Hooked, faults, original, paused, returned, sleep, usleep}
use io_scheduler.Prelude.{
  Bool, Option, arith, false, if◌then◌else◌, none, not, refl, some, suc, true, u32_mod, zero, ℕ,
  ◌%◌, ◌&&◌, ◌*◌, ◌≡◌,
}

-- A call that returned, with the property of the machine.
abbrev pub OnReturned : {A : Type 0} → ℕ → (A → Type 0) → Hooked A → Type 0
OnReturned r P original = ⊥
OnReturned r P faults = ⊥
OnReturned r P (returned v a) = (v ≡ r) × P a

-- The machine when the running coroutine has paused.
pub record Paused {Epoll : Type 0} (a : ℕ) (m m' : Machine (Io Epoll)) : Type 0 where
  pub state_left : (m'.fibers.heap a).state ≡ pause
  pub control : m'.fibers.cur_fiber ≡ m.fibers.main_coroutine
  pub same_sched : m'.sched ≡ m.sched
  pub same_env : m'.env ≡ m.env

paused-Paused :
    {Epoll : Type 0} (a : ℕ) (p : Option ℕ) (m : Machine (Io Epoll))
    → p ≡ some a
    → let s = m.fibers in
      OnReturned 0 (Paused a m) (paused (record m { fibers = record s { cur_fiber = p } }))
unfolding paused yield_to get_this_coroutine set_state swap_out set_coroutine
paused-Paused a none m h = cc
paused-Paused a (some b) m h =
    (refl, record { state_left = ground arith; control = refl; same_sched = refl; same_env = refl })

-- With the hook on and on a scheduler, `sleep` of a running coroutine sets a timer for the bound `run`
-- that starts when the time, modulo 2 ^ 32 milliseconds, is over; then it pauses the coroutine and
-- gives control to the main coroutine. Nothing else of the scheduler changes.
pub sleep-Paused :
    {Epoll : Type 0} (run seconds clock clock' a : ℕ) (m : Machine (Io Epoll))
    → m.env.on_scheduler ≡ true
    → m.fibers.cur_fiber ≡ some a
    → OnReturned 0
        (Paused a (add_io_timer (some run) (seconds * 1000 % u32_mod) false clock clock' m))
        (sleep true run seconds clock clock' m)
unfolding sleep add_io_timer
sleep-Paused {Epoll = Epoll} run seconds clock clock' a m h k = by_scheduler m.env.on_scheduler h
  where
    m1 : Machine (Io Epoll)
    m1 = add_io_timer (some run) (seconds * 1000 % u32_mod) false clock clock' m

    by_scheduler :
        (b : Bool) → b ≡ true → OnReturned 0 (Paused a m1) (if not b then original else paused m1)
    by_scheduler false p = cc
    by_scheduler true p = paused-Paused a m.fibers.cur_fiber m1 k

-- With the hook off, or on a thread without a scheduler, `usleep` calls itself and never returns.
pub usleep_never :
    {Epoll : Type 0} (fuel : ℕ) (hook_state : Bool) (run useconds clock clock' : ℕ)
    (m : Machine (Io Epoll))
    → (hook_state && m.env.on_scheduler) ≡ false
    → usleep fuel hook_state run useconds clock clock' m ≡ none
unfolding usleep
usleep_never zero hook_state run useconds clock clock' m h = refl
usleep_never (suc fuel) hook_state run useconds clock clock' m h =
    ground (arith, usleep_never fuel hook_state run useconds clock clock' m h)
