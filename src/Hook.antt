-- ===== src/Hook.antt =====
-- src/manager/hook.cpp and include/hook.h: the system calls that a program under the scheduler makes.
-- The original `sleep` is a parameter, and so are the number of the callback that stands for a bound
-- `schedule::run`, the number of the lambda that makes the original `read` or `write`, and the value
-- `unset` of the local `size`.
pub mod Calls
pub mod Originals
use io_scheduler.Event.{EventType, read_type, write_type}
use io_scheduler.Handle.{Lookup, Table, get_fd, null_read, pointer}
use io_scheduler.Coroutine.{call, pause, yield_to}
use io_scheduler.Schedule.{Machine}
use io_scheduler.IoSchedule.{Io, Kernel, add_io_timer, register_event}
use io_scheduler.Prelude.{
  Bool, Option, false, if◌then◌else◌, none, not, some, suc, u32_mod, zero, ℕ, ◌%◌, ◌*◌, ◌/◌,
}

-- How a hooked call goes on: the original is called, the call returns, or it faults.
pub data Hooked (A : Type 0) : Type 0 where
  original faults : Hooked A
  returned : ℕ → A → Hooked A

module _ {Epoll : Type 0} where
  -- `yieldtopause` of the running coroutine; the call returns 0 when it is resumed.
  unfoldable pub paused : Machine (Io Epoll) → Hooked (Machine (Io Epoll))
  paused m = elim (yield_to pause m.fibers) [
    | none ↦ faults
    | some s ↦ returned 0 (record m { fibers = s })
  ]

  -- `sleep`: the product is of `unsigned int`.
  unfoldable pub sleep : Bool → ℕ → ℕ → ℕ → ℕ → Machine (Io Epoll) → Hooked (Machine (Io Epoll))
  sleep hook_state run seconds clock clock' m =
      if not hook_state
      then original
      else (if not m.env.on_scheduler
          then original
          else paused (add_io_timer (some run) (seconds * 1000 % u32_mod) false clock clock' m))

  -- `usleep`, on fuel: where `sleep` calls the original, it calls itself. `none` is no fuel left.
  unfoldable pub usleep :
      ℕ → Bool → ℕ → ℕ → ℕ → ℕ → Machine (Io Epoll) → Option (Hooked (Machine (Io Epoll)))
  usleep zero hook_state run useconds clock clock' m = none
  usleep (suc fuel) hook_state run useconds clock clock' m =
      let again = usleep fuel hook_state run useconds clock clock' m in
      if not hook_state
      then again
      else (if not m.env.on_scheduler
          then again
          else some (paused (add_io_timer (some run) (useconds / 1000) false clock clock' m)))

module _ (kernel : Kernel) where
  open kernel use {Epoll}

  -- `read` and `write` from the lookup of the descriptor on: the event is registered, and `size` is
  -- returned.
  unfoldable pub hooked_event :
      EventType → ℕ → ℕ → ℕ → Lookup → Machine (Io Epoll) → Hooked (Machine (Io Epoll))
  hooked_event type unset fd call null_read m = faults
  hooked_event type unset fd call (pointer none) m = original
  hooked_event type unset fd call (pointer (some c)) m =
      elim (register_event kernel fd type (some call) m) [
        | none ↦ faults
        | some m' ↦ returned unset m'
      ]

  -- The first test is of the function `IsEnableHook`, not of its result, so it never holds.
  unfoldable pub hooked_call :
      EventType → ℕ → ℕ → ℕ → Table → Machine (Io Epoll) → Hooked (Machine (Io Epoll))
  hooked_call type unset fd call table m =
      if not m.env.on_scheduler
      then original
      else hooked_event type unset fd call (get_fd fd table) m

  unfoldable pub read : ℕ → ℕ → ℕ → Table → Machine (Io Epoll) → Hooked (Machine (Io Epoll))
  read = hooked_call read_type

  unfoldable pub write : ℕ → ℕ → ℕ → Table → Machine (Io Epoll) → Hooked (Machine (Io Epoll))
  write = hooked_call write_type
