-- ===== src/IoSchedule/Events.antt =====
-- Registering, triggering, cancelling and deleting events.
use io_scheduler.Schedule.{Machine, Schedule, Task, any_thread, dispatch, enqueue, function_task}
use io_scheduler.Prelude.{
  Bool, Bool-cases, Callback, List, OnSome, Option, [], ap, arith, dec32, false, get_elem?,
  get_elem?-lt, if◌then◌else◌, inl, inr, length, length-append, ltb, max, none, refl, set, some,
  subst, suc, true, zero, zero_or_pos, ℕ, ◌*◌, ◌++◌, ◌+◌, ◌-◌, ◌<◌, ◌↔◌, ◌∷◌, ◌≡◌, ◌≢◌,
}
use io_scheduler.Event.{
  Event, EventContext, EventType, Mask, dispatch_coroutine, dispatch_function, get_context,
  is_none_mask, mask_and, mask_diff, mask_of, new_event, none_type, read_type, set_context,
  trigger_event, triggered, write_type,
}
use io_scheduler.IoSchedule.{
  Io, Kernel, ctl_del, ctl_mod, fire, new_events, notify, process_event, process_ready, register_at,
  register_event, resize, set_epoll, trigger_bit, with_room,
}

length-new_events : (n i : ℕ) → length (new_events n i) ≡ n
length-new_events zero i = refl
length-new_events (suc n) i = ap suc (length-new_events n (suc i))

-- `resize` never shrinks the container, and reaches the size asked for.
pub length-resize : (size : ℕ) (fds : List Event) → length (resize size fds) ≡ max size (length fds)
unfolding resize
length-resize size fds = ground (
  arith,
  length-append fds (new_events (size - length fds) (length fds)),
  length-new_events (size - length fds) (length fds),
)

-- The entry of each descriptor is for that descriptor.
abbrev pub InPlace : ℕ → List Event → Type 0
InPlace i [] = Unit {0}
InPlace i (e ∷ es) = (e.fd ≡ i) × InPlace (suc i) es

new_events-InPlace : (n i : ℕ) → InPlace i (new_events n i)
unfolding new_event
new_events-InPlace zero i = tt
new_events-InPlace (suc n) i = (refl, new_events-InPlace n (suc i))

append-InPlace :
    (i j : ℕ) (xs ys : List Event)
    → InPlace i xs
    → i + length xs ≡ j
    → InPlace j ys
    → InPlace i (xs ++ ys)
append-InPlace i j [] ys p e q = subst (λ k. InPlace k ys) (omega arith) q
append-InPlace i j (x ∷ xs) ys p e q = (p.0, append-InPlace (suc i) j xs ys p.1 (omega arith) q)

pub resize-InPlace : (size : ℕ) (fds : List Event) → InPlace 0 fds → InPlace 0 (resize size fds)
unfolding resize
resize-InPlace size fds p = elim (Bool-cases (ltb size (length fds))) [
  | inl e ↦ rw e p
  | inr e ↦ rw e (append-InPlace 0 (length fds) fds _ p (omega arith) (new_events-InPlace _ _))
]

pub room : (fd : ℕ) (fds : List Event) → 0 < fd + length fds → fd < length (with_room fd fds)
unfolding with_room
room fd fds h = ground (arith, length-resize (fd * 2) fds)

no_room : (fd : ℕ) (fds : List Event) → fd + length fds ≡ 0 → get_elem? (with_room fd fds) fd ≡ none
unfolding with_room resize
no_room zero [] h = refl
no_room (suc fd) fds h = absurd (omega arith)
no_room zero (e ∷ fds) h = absurd (omega arith)

module _ (kernel : Kernel) where
  open kernel use {Epoll, epoll_ctl}

  register_event-at :
      (fd : ℕ) (type : EventType) (f : Callback) (m : Machine (Io Epoll)) (e : Event)
      → get_elem? (with_room fd m.env.fds) fd ≡ some e
      → register_event kernel fd type f m
        ≡ some (register_at kernel fd type f (with_room fd m.env.fds) e m)
  unfolding register_event
  register_event-at fd type f m e h = ground arith

  -- `RegisterEvent` looks out of range exactly for descriptor 0 of an empty container.
  pub register_event_fault :
      (fd : ℕ) (type : EventType) (f : Callback) (m : Machine (Io Epoll))
      → (register_event kernel fd type f m ≡ none) ↔ (fd + length m.env.fds ≡ 0)
  register_event_fault fd type f m = (to_zero, from_zero)
    where
      to_zero : register_event kernel fd type f m ≡ none → fd + length m.env.fds ≡ 0
      to_zero h = elim (zero_or_pos (fd + length m.env.fds)) [
        | inl z ↦ z
        | inr p ↦
            let (e, q) = get_elem?-lt _ fd (room fd m.env.fds p) in
            let r = register_event-at fd type f m e q in cc
      ]

      from_zero : fd + length m.env.fds ≡ 0 → register_event kernel fd type f m ≡ none
      from_zero h = unfold register_event in ground (arith, no_room fd m.env.fds h)

-- The queue and the container behind a dispatch.
module _ {Epoll : Type 0} (t : Task) (m : Machine (Io Epoll)) where
  dispatch_io :
      ((dispatch notify t m).env.fds ≡ m.env.fds)
      × ((dispatch notify t m).env.waiting_events ≡ m.env.waiting_events)
      × ((dispatch notify t m).sched ≡ (enqueue t m.sched).0)
  unfolding dispatch notify
  dispatch_io = (ground arith, ground arith, ground arith)

abbrev pub bit : EventType → Mask → Bool
bit none_type a = false
bit read_type a = a.read
bit write_type a = a.write

-- The context is that of a callback registered.
pub record Holds (f : ℕ) (c : EventContext) : Type 0 where
  pub to_scheduler : c.scheduler ≡ true
  pub no_coroutine : c.coroutine ≡ none
  pub callback : c.function ≡ some f

-- The event when its type `t` has fired.
abbrev pub fired : EventType → Event → Event
fired t e =
    set_context t (triggered (get_context t e))
      (record e { current = mask_diff e.current (mask_of t) })

-- What a trigger leaves: the callback at the end of the queue, a waiting event less, and the event
-- fired at its place.
pub record TriggeredFrom {Epoll : Type 0} (t : EventType) (i f : ℕ) (e : Event) (queue : List Task)
    (waiting : ℕ) (fds : List Event) (m' : Machine (Io Epoll)) : Type 0 where
  pub queued : m'.sched.coroutines ≡ queue ++ function_task any_thread (some f) ∷ []
  pub counted : m'.env.waiting_events ≡ dec32 waiting
  pub stored : m'.env.fds ≡ set fds i (fired t e)

abbrev pub Triggered :
    {Epoll : Type 0} → EventType → ℕ → ℕ → Event → Machine (Io Epoll) → Machine (Io Epoll) → Type 0
Triggered t i f e m = TriggeredFrom t i f e m.sched.coroutines m.env.waiting_events m.env.fds

module _ {Epoll : Type 0} where
  trigger_event-Holds :
      (t : EventType) (f : ℕ) (e : Event) (m : Machine (Io Epoll))
      → Holds f (get_context t e)
      → trigger_event notify t e m
        ≡ some (fired t e, dispatch notify (function_task any_thread (some f)) m)
  unfolding trigger_event dispatch_function dispatch_coroutine
  trigger_event-Holds t f e m h = ground arith

module _ (kernel : Kernel) where
  open kernel use {Epoll, epoll_ctl}

  pub trigger_bit-Triggered :
      (t : EventType) (i f : ℕ) (e : Event) (m : Machine (Io Epoll))
      → get_elem? m.env.fds i ≡ some e
      → Holds f (get_context t e)
      → OnSome (Triggered t i f e m) (trigger_bit kernel true t i m)
  unfolding trigger_bit enqueue
  trigger_bit-Triggered t i f e m h c =
      let d = dispatch_io (function_task any_thread (some f)) m in
      rw (h, trigger_bit, trigger_event-Holds t f e m c)
        (record {
          queued = ap (λ (s : Schedule). s.coroutines) d.2;
          counted = ap dec32 d.1;
          stored = ap (λ (fds : List Event). set fds i (fired t e)) d.0;
        })

  -- Only the bits that `type` names are triggered.
  fire-Triggered :
      (t : EventType) (i f : ℕ) (e : Event) (m : Machine (Io Epoll))
      → t ≢ none_type
      → OnSome (Triggered t i f e m) (trigger_bit kernel true t i m)
      → OnSome (Triggered t i f e m) (fire kernel i (mask_of t) m)
  unfolding fire
  fire-Triggered none_type i f e m n h = absurd (n refl)
  fire-Triggered read_type i f e m n h = same (trigger_bit kernel true read_type i m) h
    where
      same :
          (o : Option (Machine (Io Epoll)))
          → OnSome (Triggered read_type i f e m) o
          → OnSome
              (Triggered read_type i f e m)
              (elim o [ none ↦ none | some m' ↦ trigger_bit kernel false write_type i m' ])
      same none q = q
      same (some m') q = unfold trigger_bit in q
  fire-Triggered write_type i f e m n h = unfold trigger_bit in h

  unfoldable pub told : Mask → Mask → Event → Machine (Io Epoll) → Machine (Io Epoll)
  told unset events e m =
      let op = if is_none_mask (mask_diff e.current events) then ctl_del else ctl_mod in
      set_epoll (epoll_ctl m.env.epoll op e.fd unset).0 m

  pub process_ready-fire :
      (unset events : Mask) (i : ℕ) (e : Event) (m : Machine (Io Epoll))
      → get_elem? m.env.fds i ≡ some e
      → is_none_mask (mask_and events e.current) ≡ false
      → process_ready kernel unset i events m ≡ fire kernel i events (told unset events e m)
  unfolding process_ready process_event told
  process_ready-fire unset events i e m h n = ground arith

  pub process_ready-Triggered :
      (unset : Mask) (t : EventType) (i f : ℕ) (e : Event) (m : Machine (Io Epoll))
      → get_elem? m.env.fds i ≡ some e
      → bit t e.current ≡ true
      → Holds f (get_context t e)
      → OnSome (Triggered t i f e m) (process_ready kernel unset i (mask_of t) m)
  unfolding told
  process_ready-Triggered unset t i f e m h b c =
      rw (process_ready-fire unset (mask_of t) i e m h (ready t e b)) (
        fire-Triggered t i f e (told unset (mask_of t) e m) (named t e b)
          (trigger_bit-Triggered t i f e (told unset (mask_of t) e m) h c))
    where
      ready :
          (t : EventType) (e : Event)
          → bit t e.current ≡ true
          → is_none_mask (mask_and (mask_of t) e.current) ≡ false
      ready none_type e q = cc
      ready read_type e q = ground arith
      ready write_type e q = ground arith

      named : (t : EventType) (e : Event) → bit t e.current ≡ true → t ≢ none_type
      named none_type e q = cc
      named read_type e q = λ p. cc
      named write_type e q = λ p. cc
