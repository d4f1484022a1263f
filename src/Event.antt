-- ===== src/Event.antt =====
-- src/concurrent/event.cpp and include/event.h: what waits for a file descriptor. The mask of an
-- `event_type` (READ = 1, WRITE = 4) is a pair of bits.
use io_scheduler.Prelude.{
  Bool, Callback, Option, false, if◌then◌else◌, none, not, some, true, ℕ, ◌&&◌, ◌||◌,
}
use io_scheduler.Schedule.{Machine, any_thread, coroutine_task, dispatch, function_task}

pub record Mask : Type 0 where
  pub read : Bool
  pub write : Bool

pub data EventType : Type 0 where
  none_type read_type write_type : EventType

abbrev pub mask_of : EventType → Mask
mask_of none_type = record { read = false; write = false }
mask_of read_type = record { read = true; write = false }
mask_of write_type = record { read = false; write = true }

-- `a | b`, `a & b`, `a & ~b`, and the test for `NONE`.
abbrev pub mask_or : Mask → Mask → Mask
mask_or a b = record { read = a.read || b.read; write = a.write || b.write }

abbrev pub mask_and : Mask → Mask → Mask
mask_and a b = record { read = a.read && b.read; write = a.write && b.write }

abbrev pub mask_diff : Mask → Mask → Mask
mask_diff a b = record { read = a.read && not b.read; write = a.write && not b.write }

abbrev pub is_none_mask : Mask → Bool
is_none_mask a = not (a.read || a.write)

-- `scheduler` says whether `s_scheduler` is not null; there is one scheduler.
pub record EventContext : Type 0 where
  pub scheduler : Bool
  pub coroutine : Option ℕ
  pub function : Callback

unfoldable pub new_context : EventContext
new_context = record { scheduler = false; coroutine = none; function = none }

pub record Event : Type 0 where
  pub fd : ℕ
  pub read : EventContext
  pub write : EventContext
  pub current : Mask

-- `event::event(fd)`.
unfoldable pub new_event : ℕ → Event
new_event fd = record {
  fd = fd;
  read = new_context;
  write = new_context;
  current = mask_of none_type;
}

-- `GetContext` returns a reference: what is read there, and what a write there leaves. Another type
-- has the static `Null_context`, for which no caller asks.
unfoldable pub get_context : EventType → Event → EventContext
get_context read_type e = e.read
get_context write_type e = e.write
get_context none_type e = new_context

unfoldable pub set_context : EventType → EventContext → Event → Event
set_context read_type c e = record e { read = c }
set_context write_type c e = record e { write = c }
set_context none_type c e = e

-- `ResetContext`.
unfoldable pub reset_context : EventContext → EventContext
reset_context c = record c { coroutine = none; function = none }

-- The context that a trigger leaves: `dispatch` takes the callback and the coroutine out of it.
unfoldable pub triggered : EventContext → EventContext
triggered c = record { scheduler = false; coroutine = none; function = none }

module _ {E : Type 0} (notify : Machine E → Machine E) where
  -- The two dispatches of a context. `none` is a call through a null scheduler.
  unfoldable pub dispatch_function : EventContext → Machine E → Option (Machine E)
  dispatch_function c m = elim c.function [
    | none ↦ some m
    | some f ↦
        if c.scheduler then some (dispatch notify (function_task any_thread (some f)) m) else none
  ]

  unfoldable pub dispatch_coroutine : EventContext → Machine E → Option (Machine E)
  dispatch_coroutine c m = elim c.coroutine [
    | none ↦ some m
    | some a ↦ if c.scheduler then some (dispatch notify (coroutine_task any_thread a) m) else none
  ]

  -- `TriggerEvent`.
  unfoldable pub trigger_event : EventType → Event → Machine E → Option (Event × Machine E)
  trigger_event t e m =
      let c = get_context t e in
      let cleared : Event = record e { current = mask_diff e.current (mask_of t) } in
      elim (dispatch_function c m) [
        | none ↦ none
        | some m' ↦ elim (dispatch_coroutine c m') [
          | none ↦ none
          | some m'' ↦ some (set_context t (triggered c) cleared, m'')
        ]
      ]
