-- ===== src/IoSchedule/RoundTrip.antt =====
-- An event registered and then ready, and the ways in which the bookkeeping of events goes wrong.
use io_scheduler.Schedule.{Machine, any_thread, function_task}
use io_scheduler.Prelude.{
  Bool, List, OnSome, Option, [], ap, arith, false, get_elem?, get_elem?-set_ne, get_elem?-set_self,
  if◌then◌else◌, inc32, length, length-set, lt_of_get_elem?, lt→ltb, none, refl, set, some, true,
  u32_mod, ℕ, ◌++◌, ◌<◌, ◌∙◌, ◌∷◌, ◌≡◌, ◌≢◌,
}
use io_scheduler.Event.{
  Event, EventType, Mask, get_context, is_none_mask, mask_of, mask_or, none_type, read_type,
  set_context, write_type,
}
use io_scheduler.IoSchedule.{
  Io, Kernel, ctl_add, ctl_mod, process_ready, register_at, register_event, registered, set_epoll,
  set_fds, with_room, with_waiting,
}
use io_scheduler.IoSchedule.Events.{Holds, Triggered, bit, fired, process_ready-Triggered}

-- The event after a registration of the callback `f` for its type `t`.
abbrev pub armed : EventType → ℕ → Event → Event
armed t f e =
    let marked : Event = record e { current = mask_or (mask_of t) e.current } in
    set_context t (registered (some f) none true (get_context t marked)) marked

-- The type is READ or WRITE, is not registered, and has no coroutine waiting.
pub record IsFree (t : EventType) (e : Event) : Type 0 where
  pub not_none : t ≢ none_type
  pub not_set : bit t e.current ≡ false
  pub no_waiter : (get_context t e).coroutine ≡ none

armed-Holds :
    (t : EventType) (f : ℕ) (e : Event) → IsFree t e → Holds f (get_context t (armed t f e))
unfolding get_context set_context registered
armed-Holds none_type f e v = absurd (v.not_none refl)
armed-Holds read_type f e v = record {
  to_scheduler = refl;
  no_coroutine = v.no_waiter;
  callback = refl;
}
armed-Holds write_type f e v = record {
  to_scheduler = refl;
  no_coroutine = v.no_waiter;
  callback = refl;
}

armed-bit : (t : EventType) (f : ℕ) (e : Event) → IsFree t e → bit t (armed t f e).current ≡ true
unfolding set_context
armed-bit none_type f e v = absurd (v.not_none refl)
armed-bit read_type f e v = refl
armed-bit write_type f e v = refl

-- After the registration fired, the mask and the other context are as before.
fired-armed-current :
    (t : EventType) (f : ℕ) (e : Event) → IsFree t e → (fired t (armed t f e)).current ≡ e.current
unfolding get_context set_context registered
fired-armed-current none_type f e v = absurd (v.not_none refl)
fired-armed-current read_type f e v = let q : e.current.read ≡ false = v.not_set in ground arith
fired-armed-current write_type f e v = let q : e.current.write ≡ false = v.not_set in ground arith

fired-armed-context :
    (t u : EventType) (f : ℕ) (e : Event)
    → t ≢ u
    → get_context u (fired t (armed t f e)) ≡ get_context u e
unfolding get_context set_context registered
fired-armed-context none_type none_type f e n = refl
fired-armed-context read_type read_type f e n = absurd (n refl)
fired-armed-context write_type write_type f e n = absurd (n refl)
fired-armed-context t u f e n = refl

-- The machine is as it was, but for the callback `f` at the end of the queue and for the context of
-- the type `t`, which is empty now.
pub record Served {Epoll : Type 0} (t : EventType) (fd f : ℕ) (e : Event)
    (m m' : Machine (Io Epoll)) : Type 0 where
  pub queued : m'.sched.coroutines ≡ m.sched.coroutines ++ function_task any_thread (some f) ∷ []
  pub counted : m'.env.waiting_events ≡ m.env.waiting_events
  pub stored : get_elem? m'.env.fds fd ≡ some (fired t (armed t f e))
  pub same_mask : (fired t (armed t f e)).current ≡ e.current
  pub same_context :
      (u : EventType) → t ≢ u → get_context u (fired t (armed t f e)) ≡ get_context u e
  pub same_others : (i : ℕ) → fd ≢ i → get_elem? m'.env.fds i ≡ get_elem? m.env.fds i

module _ (kernel : Kernel) where
  open kernel use {Epoll, epoll_ctl}

  -- What the kernel is asked by the registration, and its answer.
  abbrev pub registration : EventType → ℕ → Event → Epoll → Epoll × Bool
  registration t fd e k =
      epoll_ctl k (if is_none_mask e.current then ctl_add else ctl_mod) fd
        (mask_or (mask_of t) e.current)

  registered_machine : EventType → ℕ → ℕ → Event → Machine (Io Epoll) → Machine (Io Epoll)
  registered_machine t fd f e m =
      with_waiting inc32
        (set_epoll (registration t fd e m.env.epoll).0 (set_fds (set m.env.fds fd (armed t f e)) m))

  register_event-armed :
      (t : EventType) (fd f : ℕ) (e : Event) (m : Machine (Io Epoll))
      → get_elem? m.env.fds fd ≡ some e
      → m.env.on_scheduler ≡ true
      → (registration t fd e m.env.epoll).1 ≡ true
      → register_event kernel fd t (some f) m ≡ some (registered_machine t fd f e m)
  unfolding register_event register_at registered_machine with_room registered
  register_event-armed t fd f e m h s k =
      ground (arith, lt→ltb _ _ (lt_of_get_elem? m.env.fds fd e h))

  -- If the descriptor is in the container, the type is READ or WRITE, is not registered and has
  -- no coroutine waiting, the thread has a scheduler, the kernel accepts the registration and
  -- the waiting count is a uint32_t: an event registered with a callback and then reported
  -- ready for that type puts the callback at the end of the queue once, and leaves waiting
  -- events, mask, the context of the other type and the other events as before.
  pub register_then_ready :
      (unset : Mask) (t : EventType) (fd f : ℕ) (e : Event) (m : Machine (Io Epoll))
      → get_elem? m.env.fds fd ≡ some e
      → IsFree t e
      → m.env.on_scheduler ≡ true
      → (registration t fd e m.env.epoll).1 ≡ true
      → m.env.waiting_events < u32_mod
      → OnSome
          (λ m1. OnSome (Served t fd f e m) (process_ready kernel unset fd (mask_of t) m1))
          (register_event kernel fd t (some f) m)
  register_then_ready unset t fd f e m h v s k w = rw (register_event-armed t fd f e m h s k) (
      served _ (
        process_ready-Triggered kernel unset t fd f (armed t f e) n here (armed-bit t f e v)
          (armed-Holds t f e v)))
    where
      n : Machine (Io Epoll)
      n = registered_machine t fd f e m

      inside : fd < length m.env.fds
      inside = lt_of_get_elem? m.env.fds fd e h

      here : get_elem? n.env.fds fd ≡ some (armed t f e)
      here = unfold registered_machine in get_elem?-set_self m.env.fds fd (armed t f e) inside

      inside' : fd < length n.env.fds
      inside' =
          unfold registered_machine in omega (arith, length-set m.env.fds fd (armed t f e), inside)

      served :
          (o : Option (Machine (Io Epoll)))
          → OnSome (Triggered t fd f (armed t f e) n) o
          → OnSome (Served t fd f e m) o
      served none q = q
      served (some m') q = record {
        queued = q.queued ∙ (unfold registered_machine in refl);
        counted = q.counted ∙ (unfold registered_machine in omega arith);
        stored =
            ap (λ (fds : List Event). get_elem? fds fd) q.stored
            ∙ get_elem?-set_self n.env.fds fd (fired t (armed t f e)) inside';
        same_mask = fired-armed-current t f e v;
        same_context = λ u d. fired-armed-context t u f e d;
        same_others = λ i d.
            ap (λ (fds : List Event). get_elem? fds i) q.stored
            ∙ get_elem?-set_ne n.env.fds fd i (fired t (armed t f e)) d
            ∙ (unfold registered_machine in get_elem?-set_ne m.env.fds fd i (armed t f e) d);
      }
