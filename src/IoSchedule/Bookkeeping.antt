-- ===== src/IoSchedule/Bookkeeping.antt =====
-- The ways in which the bookkeeping of events goes wrong.
use io_scheduler.Schedule.{Machine}
use io_scheduler.Prelude.{
  Bool-cases, List, OnSome, Option, ap, arith, dec32, false, get_elem?, get_elem?-ge,
  get_elem?-set_self, if◌then◌else◌, inl, inr, leb, leb_false→lt, length, lt_of_get_elem?, none,
  not, refl, set, some, true, ℕ, ◌∙◌, ◌≡◌,
}
use io_scheduler.Event.{
  Event, EventContext, EventType, Mask, dispatch_coroutine, dispatch_function, get_context,
  is_none_mask, mask_of, new_context, read_type, set_context, trigger_event, write_type,
}
use io_scheduler.IoSchedule.{
  Io, Kernel, cancel_event, delete_event, fire, process_ready, set_fds, trigger_bit, with_waiting,
}
use io_scheduler.IoSchedule.Events.{
  Holds, Triggered, fired, process_ready-fire, told, trigger_bit-Triggered,
}

module _ (kernel : Kernel) where
  open kernel use {Epoll, epoll_ctl}

  empty_bit :
      (t : EventType) (i : ℕ) (e : Event) (m : Machine (Io Epoll))
      → get_elem? m.env.fds i ≡ some e
      → (get_context t e).function ≡ none
      → (get_context t e).coroutine ≡ none
      → trigger_bit kernel true t i m
        ≡ some (with_waiting dec32 (set_fds (set m.env.fds i (fired t e)) m))
  unfolding trigger_bit trigger_event dispatch_function dispatch_coroutine
  empty_bit t i e m h f c = ground arith

  -- An entry for READ and WRITE where only READ is registered: the trigger is made for both, and the
  -- waiting events are two less, not one.
  pub unregistered_trigger :
      (unset : Mask) (i f : ℕ) (e : Event) (m : Machine (Io Epoll))
      → get_elem? m.env.fds i ≡ some e
      → e.current ≡ mask_of read_type
      → Holds f e.read
      → e.write ≡ new_context
      → OnSome
          (λ m'. m'.env.waiting_events ≡ dec32 (dec32 m.env.waiting_events))
          (process_ready kernel unset i (record { read = true; write = true }) m)
  unregistered_trigger unset i f e m h c r w =
      rw (process_ready-fire kernel unset both i e m h (ground arith)) (
        unfold fire in
        second (trigger_bit kernel true read_type i n) (
          trigger_bit-Triggered kernel read_type i f e n (unfold told in h)
            (unfold get_context in r)))
    where
      both : Mask
      both = record { read = true; write = true }

      n : Machine (Io Epoll)
      n = told kernel unset both e m

      write_left : get_context write_type (fired read_type e) ≡ new_context
      write_left = unfold get_context set_context in w

      second :
          (o : Option (Machine (Io Epoll)))
          → OnSome (Triggered read_type i f e n) o
          → OnSome
              (λ m'. m'.env.waiting_events ≡ dec32 (dec32 m.env.waiting_events))
              (elim o [ none ↦ none | some m' ↦ trigger_bit kernel true write_type i m' ])
      second none q = q
      second (some m') q =
          rw
            (empty_bit write_type i (fired read_type e) m' (there m' q)
              (ap (λ (x : EventContext). x.function) write_left ∙ (unfold new_context in refl))
              (ap (λ (x : EventContext). x.coroutine) write_left ∙ (unfold new_context in refl)))
            (ap dec32 (q.counted ∙ (unfold told in refl)))
        where
          there :
              (m' : Machine (Io Epoll))
              → Triggered read_type i f e n m'
              → get_elem? m'.env.fds i ≡ some (fired read_type e)
          there m' q =
              ap (λ (fds : List Event). get_elem? fds i) q.stored
              ∙ (unfold told in
                  get_elem?-set_self m.env.fds i (fired read_type e)
                    (lt_of_get_elem? m.env.fds i e h))

  -- `DeleteEvent` deletes no event: for a descriptor up to the size of the container it answers false
  -- and changes nothing, and above it looks out of range.
  pub delete_event_never :
      (fd : ℕ) (type : EventType) (m : Machine (Io Epoll))
      → delete_event fd type m ≡ (if leb fd (length m.env.fds) then some (m, false) else none)
  unfolding delete_event
  delete_event_never fd type m = elim (Bool-cases (leb fd (length m.env.fds))) [
    | inl e ↦ rw e
    | inr e ↦ rw (e, get_elem?-ge m.env.fds fd (omega (arith, leb_false→lt)))
  ]

  -- `CancelEvent` answers whether something is registered, and then tells the kernel: the event keeps
  -- its mask, its callbacks stay, and the waiting events are not counted down.
  pub cancel_event_keeps :
      (fd : ℕ) (m : Machine (Io Epoll))
      → let (m', done) = cancel_event kernel fd m in
        (m'.env.fds ≡ m.env.fds)
        × (m'.env.waiting_events ≡ m.env.waiting_events)
        × (m'.sched ≡ m.sched)
        × (done ≡ (elim (get_elem? m.env.fds fd) [
          | none ↦ false
          | some e ↦ not (is_none_mask e.current)
        ]))
  unfolding cancel_event
  cancel_event_keeps fd m = (ground arith, ground arith, ground arith, ground arith)
