-- ===== src/IoSchedule/Kept.antt =====
-- The operations on events keep the invariant, and do not fault.
use io_scheduler.IoSchedule.Sound.{
  All-get, Armed, EventArmed, Sound, set-Sound, set_context-Armed, set_context-fd, with_room-Sound,
}
use io_scheduler.Schedule.{Machine}
use io_scheduler.Prelude.{
  Bool, Bool-cases, Callback, List, OnSome, OnSome-some, Option, ap, false, get_elem?, get_elem?-lt,
  if◌then◌else◌, inl, inr, length, length-set, none, refl, set, some, true, ℕ, ◌+◌, ◌<◌, ◌∙◌, ◌≡◌,
}
use io_scheduler.Event.{
  Event, EventContext, EventType, Mask, get_context, is_none_mask, mask_and, mask_of, mask_or,
  read_type, set_context, write_type,
}
use io_scheduler.IoSchedule.{
  Io, Kernel, ctl_add, ctl_mod, fire, process_event, process_ready, register_at, register_event,
  registered, set_epoll, set_fds, trigger_bit, with_room,
}
use io_scheduler.IoSchedule.Events.{room, told}
use io_scheduler.IoSchedule.Invariant.{IoInv, Queued, trigger_event-Kept}

-- What an operation of `idle` on the events keeps: the invariant, and the number of events.
abbrev pub Kept : {Epoll : Type 0} → Machine (Io Epoll) → Machine (Io Epoll) → Type 0
Kept m m' = IoInv m'.env × (length m'.env.fds ≡ length m.env.fds)

module _ (kernel : Kernel) where
  open kernel use {Epoll, epoll_ctl}

  trigger_bit-Kept :
      (b : Bool) (t : EventType) (i : ℕ) (m : Machine (Io Epoll))
      → i < length m.env.fds
      → IoInv m.env
      → OnSome (Kept m) (trigger_bit kernel b t i m)
  unfolding trigger_bit
  trigger_bit-Kept false t i m h v = (v, refl)
  trigger_bit-Kept true t i m h v =
      let (e, g) = get_elem?-lt m.env.fds i h in
      let (r, q, f) =
        OnSome-some (λ r. (r.0.fd ≡ e.fd) × EventArmed r.0 × Queued m r.1) _
          (trigger_event-Kept t e m (All-get m.env.fds i e v.events.armed g) v) in
      rw (trigger_bit, g, q)
        (
          record {
            timers_inv = f.2.0.timers_inv;
            events = rw f.2.1 (set-Sound m.env.fds i e r.0 v.events g f.0 f.1);
            here = f.2.0.here;
            piped = f.2.0.piped;
          },
          length-set _ i r.0 ∙ ap length f.2.1,
        )

  fire-Kept :
      (i : ℕ) (events : Mask) (m : Machine (Io Epoll))
      → i < length m.env.fds
      → IoInv m.env
      → OnSome (Kept m) (fire kernel i events m)
  unfolding fire
  fire-Kept i events m h v =
      let (m', q, k) = OnSome-some (Kept m) _ (trigger_bit-Kept events.read read_type i m h v) in
      let (m'', q', k') =
        OnSome-some (Kept m') _ (trigger_bit-Kept events.write write_type i m' (rw k.1 h) k.0) in
      rw (fire, q, q') (k'.0, k'.1 ∙ k.1)

  told-IoInv :
      (unset events : Mask) (e : Event) (m : Machine (Io Epoll))
      → IoInv m.env
      → IoInv (told kernel unset events e m).env
  unfolding told
  told-IoInv unset events e m v = record {
    timers_inv = v.timers_inv;
    events = v.events;
    here = v.here;
    piped = v.piped;
  }

  pub process_ready-Kept :
      (unset events : Mask) (i : ℕ) (m : Machine (Io Epoll))
      → i < length m.env.fds
      → IoInv m.env
      → OnSome (Kept m) (process_ready kernel unset i events m)
  unfolding process_ready process_event told
  process_ready-Kept unset events i m h v =
      let (e, g) = get_elem?-lt m.env.fds i h in
      let k = fire-Kept i events (told kernel unset events e m) h (told-IoInv unset events e m v) in
      rw (process_ready, g)
        (elim (Bool-cases (is_none_mask (mask_and events e.current))) [
          | inl n ↦ rw n (v, refl)
          | inr n ↦ rw n k
        ])

  set_fds-IoInv :
      (k : Epoll) (fds : List Event) (m : Machine (Io Epoll))
      → IoInv m.env
      → Sound fds
      → IoInv (set_epoll k (set_fds fds m)).env
  set_fds-IoInv k fds m v s = record {
    timers_inv = v.timers_inv;
    events = s;
    here = v.here;
    piped = v.piped;
  }

  registered-Armed :
      (f : Callback) (a : Option ℕ) (here : Bool) (c : EventContext)
      → here ≡ true
      → Armed (registered f a here c)
  unfolding registered
  registered-Armed none a here c t = λ h. cc
  registered-Armed (some f) a here c t = λ h. cc

  register_at-IoInv :
      (fd : ℕ) (type : EventType) (f : Callback) (fds : List Event) (e : Event)
      (m : Machine (Io Epoll))
      → IoInv m.env
      → Sound fds
      → get_elem? fds fd ≡ some e
      → IoInv (register_at kernel fd type f fds e m).env
  unfolding register_at
  register_at-IoInv fd type f fds e m v s g =
      let mask = mask_or (mask_of type) e.current in
      let marked : Event = record e { current = mask } in
      let a = All-get fds fd e s.armed g in
      let op = if is_none_mask e.current then ctl_add else ctl_mod in
      let (k, success) = epoll_ctl m.env.epoll op fd mask in
      let c = registered f m.fibers.cur_fiber m.env.on_scheduler (get_context type marked) in
      let c_armed =
        registered-Armed f m.fibers.cur_fiber m.env.on_scheduler (get_context type marked) v.here in
      elim (Bool-cases success) [
        | inl t ↦
            rw (register_at, t)
              (let w = set_fds-IoInv k (set fds fd (set_context type c marked)) m v (
                  set-Sound fds fd e (set_context type c marked) s g (set_context-fd type c marked)
                    (set_context-Armed type c marked a c_armed)) in
                record {
                  timers_inv = w.timers_inv;
                  events = w.events;
                  here = w.here;
                  piped = w.piped;
                })
        | inr t ↦ rw (register_at, t) (set_fds-IoInv k _ m v (set-Sound fds fd e marked s g refl a))
      ]

  pub register_event-IoInv :
      (fd : ℕ) (type : EventType) (f : Callback) (m : Machine (Io Epoll))
      → 0 < fd + length m.env.fds
      → IoInv m.env
      → OnSome (λ (m' : Machine (Io Epoll)). IoInv m'.env) (register_event kernel fd type f m)
  unfolding register_event
  register_event-IoInv fd type f m h v =
      let fds = with_room fd m.env.fds in
      let (e, g) = get_elem?-lt fds fd (room fd m.env.fds h) in
      rw (register_event, g)
        (register_at-IoInv fd type f fds e m v (with_room-Sound fd m.env.fds v.events) g)
