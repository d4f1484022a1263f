-- ===== src/IoSchedule.antt =====
-- src/io/io.cpp and include/io.h: the scheduler that waits for file descriptors. The kernel's epoll
-- instance is a parameter: what it keeps, and the result of `epoll_ctl`. A file descriptor is a number
-- below 2 ^ 30, so that `fd * 2` is an `int`.
pub mod Events
pub mod RoundTrip
pub mod Bookkeeping
pub mod Idle
pub mod Stopping
pub mod Sound
pub mod Invariant
pub mod Kept
pub mod Operations
pub mod Wakeup
pub mod Shutdown
pub mod Foreign
pub mod Construct
pub mod Lifetime
use io_scheduler.Prelude.{
  ◌||◌, Bool, Callback, List, Option, [], dec32, false, get_elem?, if◌then◌else◌, inc32, leb,
  length, ltb, none, not, set, some, suc, true, zero, ℕ, ◌&&◌, ◌*◌, ◌++◌, ◌-◌, ◌==◌, ◌∷◌,
}
use io_scheduler.Timer.{TimerManager, add_timer, delete_timer}
use io_scheduler.Event.{
  Event, EventContext, EventType, Mask, get_context, is_none_mask, mask_and, mask_diff, mask_of,
  mask_or, new_event, none_type, read_type, reset_context, set_context, trigger_event, write_type,
}
use io_scheduler.Schedule.{Machine, has_free_thread}

pub data ControlOp : Type 0 where
  ctl_add ctl_mod ctl_del : ControlOp

-- `epoll_ctl` on one instance: what the kernel keeps afterwards, and whether the call succeeded.
pub record Kernel : Type 1 where
  pub Epoll : Type 0
  pub epoll_ctl : Epoll → ControlOp → ℕ → Mask → Epoll × Bool

-- What `io_schedule` adds to `schedule`. `on_scheduler` says whether `g_cur_schedule` of the thread is
-- not null, `pipe` counts the messages written to the pipe, and `buffer` says whether `events` of
-- `idle` still points to its array.
pub record Io (Epoll : Type 0) : Type 0 where
  pub timers : TimerManager
  pub fds : List Event
  pub waiting_events : ℕ
  pub pipe : ℕ
  pub on_scheduler : Bool
  pub buffer : Bool
  pub epoll : Epoll
  pub pipe_fd : ℕ
  pub pipe_data : ℕ

-- The entry of the pipe is recognised, or its data are those of a null pointer.
abbrev pub is_pipe_harmless : {Epoll : Type 0} → Io Epoll → Bool
is_pipe_harmless io = io.pipe_data == io.pipe_fd || io.pipe_data == 0

-- The rest of the entries that `resize` pushes, from fd `i` on.
abbrev pub new_events : ℕ → ℕ → List Event
new_events zero i = []
new_events (suc n) i = new_event i ∷ new_events n (suc i)

-- `resize`.
unfoldable pub resize : ℕ → List Event → List Event
resize size fds =
    if ltb size (length fds) then fds else fds ++ new_events (size - length fds) (length fds)

-- The container that `RegisterEvent` looks into.
unfoldable pub with_room : ℕ → List Event → List Event
with_room fd fds = if ltb fd (length fds) then fds else resize (fd * 2) fds

-- What `RegisterEvent` puts into the context: the callback, or the running coroutine.
unfoldable pub registered : Callback → Option ℕ → Bool → EventContext → EventContext
registered none a here c = record c { scheduler = here; coroutine = a }
registered (some f) a here c = record c { scheduler = here; function = some f }

module _ {Epoll : Type 0} where
  abbrev pub set_fds : List Event → Machine (Io Epoll) → Machine (Io Epoll)
  set_fds fds m = let io = m.env in record m { env = record io { fds = fds } }

  abbrev pub set_epoll : Epoll → Machine (Io Epoll) → Machine (Io Epoll)
  set_epoll k m = let io = m.env in record m { env = record io { epoll = k } }

  abbrev pub with_waiting : (ℕ → ℕ) → Machine (Io Epoll) → Machine (Io Epoll)
  with_waiting f m =
      let io = m.env in record m { env = record io { waiting_events = f io.waiting_events } }

  -- `notify`: a message for a thread that waits. The result of `write` is only logged.
  unfoldable pub notify : Machine (Io Epoll) → Machine (Io Epoll)
  notify m =
      let io = m.env in
      if has_free_thread m.sched then record m { env = record io { pipe = suc io.pipe } } else m

  -- `can_stop`.
  unfoldable pub can_stop : Machine (Io Epoll) → Bool
  can_stop m =
      m.env.waiting_events == 0
      && not (m.sched.active_thread_num == 0)
      && length m.sched.coroutines == 0
      && not (length m.env.timers.timers == 0)
      && m.sched.auto_stop

  -- `AddTimer` and `DelteTimer`.
  unfoldable pub add_io_timer :
      Callback → ℕ → Bool → ℕ → ℕ → Machine (Io Epoll) → Machine (Io Epoll)
  add_io_timer func time cyclic clock clock' m =
      let io = m.env in
      record m {
        env = record io { timers = (add_timer func time cyclic clock clock' io.timers).0 };
      }

  unfoldable pub delete_io_timer : Option ℕ → Machine (Io Epoll) → Machine (Io Epoll)
  delete_io_timer obj m =
      let io = m.env in record m { env = record io { timers = (delete_timer obj io.timers).0 } }

  -- `DeleteEvent`: `none` is an access out of range.
  unfoldable pub delete_event :
      ℕ → EventType → Machine (Io Epoll) → Option (Machine (Io Epoll) × Bool)
  delete_event fd type m =
      if leb fd (length m.env.fds)
      then some (m, false)
      else (elim (get_elem? m.env.fds fd) [ none ↦ none | some e ↦ some (deleted e) ])
    where
      kept : Event → EventType
      kept e = elim type [
        | none_type ↦ none_type
        | read_type ↦ if e.current.read then read_type else none_type
        | write_type ↦ if e.current.write then write_type else none_type
      ]

      reset_in : EventType → Event → Machine (Io Epoll) × Bool
      reset_in none_type e = (m, false)
      reset_in t e = (
        with_waiting dec32
            (set_fds (set m.env.fds fd (set_context t (reset_context (get_context t e)) e)) m),
        true,
      )

      deleted : Event → Machine (Io Epoll) × Bool
      deleted e = reset_in (kept e) e

module _ (kernel : Kernel) where
  open kernel use {Epoll, epoll_ctl}

  -- The first part of `RegisterEvent` on the event `e` of the container `fds`: the bit is set, then
  -- the kernel is told.
  unfoldable pub register_at :
      ℕ → EventType → Callback → List Event → Event → Machine (Io Epoll) → Machine (Io Epoll)
  register_at fd type function fds e m =
      let op = if is_none_mask e.current then ctl_add else ctl_mod in
      let mask = mask_or (mask_of type) e.current in
      let marked : Event = record e { current = mask } in
      let (k, success) = epoll_ctl m.env.epoll op fd mask in
      let context =
        registered function m.fibers.cur_fiber m.env.on_scheduler (get_context type marked) in
      let put = λ (x : Event). set_epoll k (set_fds (set fds fd x) m) in
      if success then with_waiting inc32 (put (set_context type context marked)) else put marked

  -- `RegisterEvent`: `none` is an access out of range. A thread that registers runs a coroutine.
  unfoldable pub register_event :
      ℕ → EventType → Callback → Machine (Io Epoll) → Option (Machine (Io Epoll))
  register_event fd type function m =
      let fds = with_room fd m.env.fds in
      elim (get_elem? fds fd) [ none ↦ none | some e ↦ some (register_at fd type function fds e m) ]

  -- `CancelEvent`.
  unfoldable pub cancel_event : ℕ → Machine (Io Epoll) → Machine (Io Epoll) × Bool
  cancel_event fd m = elim (get_elem? m.env.fds fd) [
    | none ↦ (m, false)
    | some e ↦
        let k = (epoll_ctl m.env.epoll ctl_del fd (mask_of none_type)).0 in
        if is_none_mask e.current then (m, false) else (set_epoll k m, true)
  ]

  -- One bit of `triggertype` in `idle`: the trigger, and a waiting event less.
  unfoldable pub trigger_bit :
      Bool → EventType → ℕ → Machine (Io Epoll) → Option (Machine (Io Epoll))
  trigger_bit false type i m = some m
  trigger_bit true type i m = elim (get_elem? m.env.fds i) [
    | none ↦ none
    | some e ↦ elim (trigger_event notify type e m) [
      | none ↦ none
      | some (e', m') ↦ some (with_waiting dec32 (set_fds (set m'.env.fds i e') m'))
    ]
  ]

  -- The two triggers of `idle`, in their order.
  unfoldable pub fire : ℕ → Mask → Machine (Io Epoll) → Option (Machine (Io Epoll))
  fire i events m = elim (trigger_bit events.read read_type i m) [
    | none ↦ none
    | some m' ↦ trigger_bit events.write write_type i m'
  ]

  -- What `idle` does with an entry of `epoll_wait` for the event `e` at `i`. `unset` is the event mask
  -- of `leftevent`, which the source does not set.
  unfoldable pub process_event :
      Mask → ℕ → Mask → Event → Machine (Io Epoll) → Option (Machine (Io Epoll))
  process_event unset i events e m =
      let op = if is_none_mask (mask_diff e.current events) then ctl_del else ctl_mod in
      let told = set_epoll (epoll_ctl m.env.epoll op e.fd unset).0 m in
      if is_none_mask (mask_and events e.current) then some m else fire i events told

  unfoldable pub process_ready : Mask → ℕ → Mask → Machine (Io Epoll) → Option (Machine (Io Epoll))
  process_ready unset i events m = elim (get_elem? m.env.fds i) [
    | none ↦ none
    | some e ↦ process_event unset i events e m
  ]
