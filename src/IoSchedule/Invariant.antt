-- ===== src/IoSchedule/Invariant.antt =====
-- The invariant of the timers and the events, which the operations of the scheduler keep.
use io_scheduler.IoSchedule.Sound.{
  Armed, EventArmed, Sound, get_context-Armed, set_context-Armed, set_context-fd,
}
use io_scheduler.Schedule.{
  Machine, Task, any_thread, batch_dispatch, coroutine_task, dispatch, function_task,
}
use io_scheduler.Timer.Invariant.{Inv}
use io_scheduler.Prelude.{
  Bool-cases, Callback, List, OnSome, OnSome-some, Option, Option-cases, [], arith, inl, inr, refl,
  some, subst, sym, true, ℤ, ◌∙◌, ◌∷◌, ◌≡◌,
}
use io_scheduler.Event.{
  Event, EventContext, EventType, dispatch_coroutine, dispatch_function, get_context, trigger_event,
  triggered,
}
use io_scheduler.IoSchedule.{Io, is_pipe_harmless, notify}

-- What the scheduler keeps: the set of timers is well-formed, the events are sound, the thread has a scheduler,
-- and the data of the pipe's entry are its descriptor or null.
pub record IoInv {Epoll : Type 0} (io : Io Epoll) : Type 0 where
  pub timers_inv : Inv io.timers
  pub events : Sound io.fds
  pub here : io.on_scheduler ≡ true
  pub piped : is_pipe_harmless io ≡ true

module _ {Epoll : Type 0} where
  -- A change of the timers, of the events, and of what the invariant does not speak of.
  pub keep-IoInv :
      (io io' : Io Epoll)
      → IoInv io
      → io'.timers ≡ io.timers
      → io'.fds ≡ io.fds
      → io'.on_scheduler ≡ io.on_scheduler
      → is_pipe_harmless io' ≡ is_pipe_harmless io
      → IoInv io'
  keep-IoInv io io' v t f o p = record {
    timers_inv = subst Inv (sym t) v.timers_inv;
    events = subst Sound (sym f) v.events;
    here = o ∙ v.here;
    piped = p ∙ v.piped;
  }

  dispatch-IoInv :
      (t : Task) (m : Machine (Io Epoll)) → IoInv m.env → IoInv (dispatch notify t m).env
  unfolding dispatch notify
  dispatch-IoInv t m v =
      keep-IoInv m.env _ v (ground arith) (ground arith) (ground arith) (ground arith)

  -- What an operation on the queue keeps: the invariant, and the events.
  abbrev pub Queued : Machine (Io Epoll) → Machine (Io Epoll) → Type 0
  Queued m m' = IoInv m'.env × (m'.env.fds ≡ m.env.fds)

  dispatch-Queued :
      (t : Task) (m : Machine (Io Epoll)) → IoInv m.env → Queued m (dispatch notify t m)
  dispatch-Queued t m v = (dispatch-IoInv t m v, unfold dispatch notify in ground arith)

  dispatch_function-Queued :
      (c : EventContext) (m : Machine (Io Epoll))
      → Armed c
      → IoInv m.env
      → OnSome (Queued m) (dispatch_function notify c m)
  unfolding dispatch_function
  dispatch_function-Queued c m a v = elim (Option-cases c.function) [
    | inl e ↦ rw e (v, refl)
    | inr (f, e) ↦ elim (Bool-cases c.scheduler) [
      | inl s ↦ rw (e, s) (dispatch-Queued (function_task any_thread (some f)) m v)
      | inr s ↦ let n = (a s).0 in cc
    ]
  ]

  dispatch_coroutine-Queued :
      (c : EventContext) (m : Machine (Io Epoll))
      → Armed c
      → IoInv m.env
      → OnSome (Queued m) (dispatch_coroutine notify c m)
  unfolding dispatch_coroutine
  dispatch_coroutine-Queued c m a v = elim (Option-cases c.coroutine) [
    | inl e ↦ rw e (v, refl)
    | inr (f, e) ↦ elim (Bool-cases c.scheduler) [
      | inl s ↦ rw (e, s) (dispatch-Queued (coroutine_task any_thread f) m v)
      | inr s ↦ let n = (a s).1 in cc
    ]
  ]

  pub batch_dispatch-Queued :
      (fs : List Callback) (tid : ℤ) (m : Machine (Io Epoll))
      → IoInv m.env
      → Queued m (batch_dispatch notify fs tid m)
  unfolding batch_dispatch
  batch_dispatch-Queued [] tid m v = (v, refl)
  batch_dispatch-Queued (f ∷ fs) tid m v =
      let k = dispatch-Queued (function_task tid f) m v in
      let k' = batch_dispatch-Queued fs tid (dispatch notify (function_task tid f) m) k.0 in
      (k'.0, k'.1 ∙ k.1)

  -- A trigger of an armed event goes through, and leaves it armed.
  abbrev TriggerKept : Event → Machine (Io Epoll) → Option (Event × Machine (Io Epoll)) → Type 0
  TriggerKept e m = OnSome (λ r. (r.0.fd ≡ e.fd) × EventArmed r.0 × Queued m r.1)

  pub trigger_event-Kept :
      (t : EventType) (e : Event) (m : Machine (Io Epoll))
      → EventArmed e
      → IoInv m.env
      → TriggerKept e m (trigger_event notify t e m)
  unfolding trigger_event triggered
  trigger_event-Kept t e m a v =
      let c = get_context t e in
      let (m', h, k) =
        OnSome-some (Queued m) _ (dispatch_function-Queued c m (get_context-Armed t e a) v) in
      let (m'', h', k') =
        OnSome-some (Queued m') _ (dispatch_coroutine-Queued c m' (get_context-Armed t e a) k.0) in
      rw (trigger_event, h, h')
        (set_context-fd t _ _, set_context-Armed t _ _ a (λ z. (refl, refl)), (k'.0, k'.1 ∙ k.1))
