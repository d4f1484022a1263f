-- ===== src/IoSchedule/Foreign.antt =====
-- Events that a thread registers which has no scheduler of its own, as the threads that `start` makes.
use io_scheduler.Event.{
  Event, EventType, Mask, dispatch_function, get_context, is_none_mask, mask_and, mask_of, mask_or,
  none_type, read_type, set_context, trigger_event, write_type,
}
use io_scheduler.IoSchedule.{
  Io, Kernel, fire, process_ready, register_at, register_event, registered, set_epoll, set_fds,
  trigger_bit, with_room, with_waiting,
}
use io_scheduler.IoSchedule.Events.{process_ready-fire, told}
use io_scheduler.IoSchedule.RoundTrip.{registration}
use io_scheduler.Prelude.{
  ◌∙◌, OnSome, arith, false, get_elem?, get_elem?-set_self, inc32, lt_of_get_elem?, lt→ltb, none,
  refl, set, some, true, ℕ, ◌≡◌, ◌≢◌,
}
use io_scheduler.Schedule.{Machine}

-- The event after such a registration.
abbrev pub orphaned : EventType → ℕ → Event → Event
orphaned t f e =
    let marked : Event = record e { current = mask_or (mask_of t) e.current } in
    set_context t (registered (some f) none false (get_context t marked)) marked

-- A callback without a scheduler.
record Orphan (t : EventType) (f : ℕ) (e : Event) : Type 0 where
  no_scheduler : (get_context t e).scheduler ≡ false
  callback : (get_context t e).function ≡ some f

orphaned-Orphan : (t : EventType) (f : ℕ) (e : Event) → t ≢ none_type → Orphan t f (orphaned t f e)
unfolding get_context set_context registered
orphaned-Orphan none_type f e n = absurd (n refl)
orphaned-Orphan read_type f e n = record { no_scheduler = refl; callback = refl }
orphaned-Orphan write_type f e n = record { no_scheduler = refl; callback = refl }

orphaned-current :
    (t : EventType) (f : ℕ) (e : Event)
    → t ≢ none_type
    → is_none_mask (mask_and (mask_of t) (orphaned t f e).current) ≡ false
unfolding set_context
orphaned-current none_type f e n = absurd (n refl)
orphaned-current read_type f e n = refl
orphaned-current write_type f e n = refl

module _ (kernel : Kernel) where
  open kernel use {Epoll, epoll_ctl}

  trigger_bit-Orphan :
      (t : EventType) (i f : ℕ) (e : Event) (m : Machine (Io Epoll))
      → get_elem? m.env.fds i ≡ some e
      → Orphan t f e
      → trigger_bit kernel true t i m ≡ none
  unfolding trigger_bit trigger_event dispatch_function
  trigger_bit-Orphan t i f e m h o =
      rw (trigger_bit, h, trigger_event, dispatch_function, o.callback, o.no_scheduler)

  fire-Orphan :
      (t : EventType) (i f : ℕ) (e : Event) (m : Machine (Io Epoll))
      → t ≢ none_type
      → get_elem? m.env.fds i ≡ some e
      → Orphan t f e
      → fire kernel i (mask_of t) m ≡ none
  unfolding fire
  fire-Orphan none_type i f e m n h o = absurd (n refl)
  fire-Orphan read_type i f e m n h o = rw (fire, trigger_bit-Orphan read_type i f e m h o)
  fire-Orphan write_type i f e m n h o =
      unfold trigger_bit in trigger_bit-Orphan write_type i f e m h o

  orphan_machine : EventType → ℕ → ℕ → Event → Machine (Io Epoll) → Machine (Io Epoll)
  orphan_machine t fd f e m = with_waiting inc32 (
      set_epoll (registration kernel t fd e m.env.epoll).0
        (set_fds (set m.env.fds fd (orphaned t f e)) m))

  register_event-orphaned :
      (t : EventType) (fd f : ℕ) (e : Event) (m : Machine (Io Epoll))
      → get_elem? m.env.fds fd ≡ some e
      → m.env.on_scheduler ≡ false
      → (registration kernel t fd e m.env.epoll).1 ≡ true
      → register_event kernel fd t (some f) m ≡ some (orphan_machine t fd f e m)
  unfolding register_event register_at orphan_machine with_room registered
  register_event-orphaned t fd f e m h s k =
      ground (arith, lt→ltb _ _ (lt_of_get_elem? m.env.fds fd e h))

  -- If a thread without a scheduler registers a callback for READ or WRITE of a descriptor in the
  -- container and the kernel accepts it, then the entry that reports the descriptor ready calls through a
  -- null pointer.
  pub register_event-orphan_faults :
      (unset : Mask) (t : EventType) (fd f : ℕ) (e : Event) (m : Machine (Io Epoll))
      → t ≢ none_type
      → get_elem? m.env.fds fd ≡ some e
      → m.env.on_scheduler ≡ false
      → (registration kernel t fd e m.env.epoll).1 ≡ true
      → OnSome
          (λ m1. process_ready kernel unset fd (mask_of t) m1 ≡ none)
          (register_event kernel fd t (some f) m)
  unfolding orphan_machine told
  register_event-orphan_faults unset t fd f e m n h s k =
      let m1 = orphan_machine t fd f e m in
      let o = orphaned t f e in
      let here : get_elem? m1.env.fds fd ≡ some o =
        get_elem?-set_self m.env.fds fd o (lt_of_get_elem? m.env.fds fd e h) in
      rw (register_event-orphaned t fd f e m h s k) (
        process_ready-fire kernel unset (mask_of t) fd o m1 here (orphaned-current t f e n)
        ∙ fire-Orphan t fd f o (told kernel unset (mask_of t) o m1) n here
            (orphaned-Orphan t f e n))
