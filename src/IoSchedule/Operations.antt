-- ===== src/IoSchedule/Operations.antt =====
-- Everything that is done with the scheduler, in any order: what each operation needs, and that it then
-- neither faults nor breaks the invariant.
use io_scheduler.IoSchedule.Bookkeeping.{delete_event_never}
use io_scheduler.Timer.Cancel.{delete_timer_never}
use io_scheduler.Timer.{TimerManager, get_expired_list}
use io_scheduler.Timer.Expiry.{get_expired_list-Collected}
use io_scheduler.Timer.Invariant.{add_timer-Inv}
use io_scheduler.Schedule.{Machine, any_thread}
use io_scheduler.Event.{Event, EventType, Mask}
use io_scheduler.IoSchedule.Idle.{
  Ready, delivered, dispatch_expired, drain_pipe, end_round, fd_ready, idle_round, null_ready,
  pipe_ready, process_entries, process_entry,
}
use io_scheduler.IoSchedule.{
  Io, Kernel, add_io_timer, can_stop, cancel_event, delete_event, delete_io_timer, register_event,
}
use io_scheduler.Prelude.{
  OnSome, OnSome-some, All, Bool, Bool-cases, Callback, List, OnSome-some, Option, [], ap, arith,
  false, if◌then◌else◌, ◌==◌, ◌||◌, inl, inr, length, le→leb, none, refl, some, subst, sym, true, ℕ,
  ◌+◌, ◌<◌, ◌∷◌, ◌≡◌, ◌≤◌,
}
use io_scheduler.IoSchedule.Invariant.{IoInv, Queued, batch_dispatch-Queued, keep-IoInv}
use io_scheduler.IoSchedule.Kept.{Kept, process_ready-Kept, register_event-IoInv}

-- What other code and the idle coroutine do. `idles` is a round of `idle`: the clock, the mask that it
-- hands to the kernel, the entries of `epoll_wait`, and the idle coroutine.
pub data Operation : Type 0 where
  adds_timer : Callback → ℕ → Bool → ℕ → ℕ → Operation
  deletes_timer : Option ℕ → Operation
  registers : ℕ → EventType → Callback → Operation
  cancels : ℕ → Operation
  deletes : ℕ → EventType → Operation
  idles : ℕ → Mask → List Ready → ℕ → Operation

-- An entry of `epoll_wait` points to an event of the container.
abbrev pub InRange : ℕ → Ready → Type 0
InRange n (fd_ready i events) = i < n
InRange n r = Unit {0}

-- What the code relies on: an entry points to an event of the container, and no descriptor is out of
-- range.
abbrev pub Allowed : Operation → List Event → Type 0
Allowed (registers fd type f) fds = 0 < fd + length fds
Allowed (deletes fd type) fds = fd ≤ length fds
Allowed (idles now unset entries idle) fds = All (InRange (length fds)) entries
Allowed op fds = Unit {0}

module _ (kernel : Kernel) where
  open kernel use {Epoll}

  abbrev pub state_of : Option (Machine (Io Epoll) × Bool) → Option (Machine (Io Epoll))
  state_of none = none
  state_of (some r) = some r.0

  -- `none` is a fault.
  abbrev pub perform : Operation → Machine (Io Epoll) → Option (Machine (Io Epoll))
  perform (adds_timer f time cyclic clock clock') m =
      some (add_io_timer f time cyclic clock clock' m)
  perform (deletes_timer obj) m = some (delete_io_timer obj m)
  perform (registers fd type f) m = register_event kernel fd type f m
  perform (cancels fd) m = some (cancel_event kernel fd m).0
  perform (deletes fd type) m = state_of (delete_event fd type m)
  perform (idles now unset entries idle) m = idle_round kernel now unset entries idle m

  -- Operations one after another, each with what the code relies on.
  pub data Runs : Machine (Io Epoll) → Machine (Io Epoll) → Type 0 where
    done : {m : Machine (Io Epoll)} → Runs m m
    next :
        {m m' m'' : Machine (Io Epoll)} (op : Operation)
        → Allowed op m.env.fds
        → perform op m ≡ some m'
        → Runs m' m''
        → Runs m m''

  abbrev Ends : Option (Machine (Io Epoll)) → Type 0
  Ends = OnSome (λ (m' : Machine (Io Epoll)). IoInv m'.env)

  process_entry-Kept :
      (unset : Mask) (r : Ready) (m : Machine (Io Epoll))
      → InRange (length m.env.fds) r
      → IoInv m.env
      → OnSome (Kept m) (process_entry kernel unset r m)
  unfolding process_entry
  process_entry-Kept unset pipe_ready m h v = by_data (io.pipe_data == io.pipe_fd) _ v.piped
    where
      io : Io Epoll
      io = m.env

      by_data :
          (b c : Bool)
          → (b || c) ≡ true
          → OnSome (Kept m) (if b then some (drain_pipe kernel m) else (if c then some m else none))
      by_data true c h = (keep-IoInv m.env _ v refl refl refl refl, refl)
      by_data false true h = (v, refl)
      by_data false false h = cc
  process_entry-Kept unset null_ready m h v = (v, refl)
  process_entry-Kept unset (fd_ready i events) m h v =
      process_ready-Kept kernel unset events i m h v

  process_entries-IoInv :
      (unset : Mask) (rs : List Ready) (m : Machine (Io Epoll))
      → All (InRange (length m.env.fds)) rs
      → IoInv m.env
      → Ends (process_entries kernel unset rs m)
  unfolding process_entries
  process_entries-IoInv unset [] m h v = v
  process_entries-IoInv unset (r ∷ rs) m h v =
      let (m', q, k) = OnSome-some (Kept m) _ (process_entry-Kept unset r m h.0 v) in
      rw (process_entries, q) (process_entries-IoInv unset rs m' (rw k.1 h.1) k.0)

  dispatch_expired-Queued :
      (now : ℕ) (m : Machine (Io Epoll)) → IoInv m.env → Queued m (dispatch_expired kernel now m)
  unfolding dispatch_expired
  dispatch_expired-Queued now m v =
      let io = m.env in
      let c = get_expired_list-Collected now io.timers v.timers_inv [] in
      let r = get_expired_list now io.timers [] in
      batch_dispatch-Queued r.1 any_thread (record m { env = record io { timers = r.0 } })
        (record { timers_inv = c.inv; events = v.events; here = v.here; piped = v.piped })

  delivered-InRange :
      (n : ℕ) (b : Bool) (rs : List Ready) → All (InRange n) rs → All (InRange n) (delivered b rs)
  delivered-InRange n true rs h = h
  delivered-InRange n false rs h = tt

  idle_round-IoInv :
      (now : ℕ) (unset : Mask) (entries : List Ready) (idle : ℕ) (m : Machine (Io Epoll))
      → All (InRange (length m.env.fds)) entries
      → IoInv m.env
      → Ends (idle_round kernel now unset entries idle m)
  unfolding idle_round end_round
  idle_round-IoInv now unset entries idle m h v = elim (Bool-cases (can_stop m)) [
    | inl s ↦ rw s v
    | inr s ↦
        let k = dispatch_expired-Queued now m v in
        let (m', q, w) =
          OnSome-some (λ (x : Machine (Io Epoll)). IoInv x.env) _
            (process_entries-IoInv unset (delivered m.env.buffer entries)
              (dispatch_expired kernel now m) (rw k.1 (delivered-InRange _ m.env.buffer entries h))
              k.0) in
        rw (s, q) (keep-IoInv m'.env _ w refl refl refl refl)
  ]

  -- What may be done in a state that has the invariant does not fault, and keeps it.
  perform-IoInv :
      (op : Operation) (m : Machine (Io Epoll))
      → Allowed op m.env.fds
      → IoInv m.env
      → Ends (perform op m)
  unfolding add_io_timer delete_io_timer cancel_event
  perform-IoInv (adds_timer f time cyclic clock clock') m a v = record {
    timers_inv = (add_timer-Inv f time cyclic clock clock' m.env.timers v.timers_inv).0;
    events = v.events;
    here = v.here;
    piped = v.piped;
  }
  perform-IoInv (deletes_timer obj) m a v =
      keep-IoInv m.env _ v
        (ap (λ (r : TimerManager × Bool). r.0) (delete_timer_never obj m.env.timers)) refl refl refl
  perform-IoInv (registers fd type f) m a v = register_event-IoInv kernel fd type f m a v
  perform-IoInv (cancels fd) m a v =
      keep-IoInv m.env _ v (ground arith) (ground arith) (ground arith) (ground arith)
  perform-IoInv (deletes fd type) m a v =
      subst (λ o. Ends (state_of o)) (sym (delete_event_never kernel fd type m))
        (rw (le→leb fd (length m.env.fds) a) v)
  perform-IoInv (idles now unset entries idle) m a v = idle_round-IoInv now unset entries idle m a v

  -- In whatever order timers are added and deleted, events registered, cancelled and deleted,
  -- and rounds of idle run, each on descriptors and events in the container: if the state at
  -- the start has the invariant (timers sorted and distinct, each event at the place of its
  -- descriptor, a callback or coroutine only in a context that knows its scheduler, the thread
  -- has a scheduler, the data of the pipe's entry are its descriptor or null), then no
  -- operation on descriptors and events in the container faults, and the state it leaves has
  -- the invariant.
  pub run-IoInv :
      (m m' : Machine (Io Epoll))
      → Runs m m'
      → IoInv m.env
      → (op : Operation) → Allowed op m'.env.fds
      → Ends (perform op m')
  run-IoInv m m' done v op a = perform-IoInv op m a v
  run-IoInv m m' (next op a h rest) v op' a' =
      run-IoInv _ m' rest (subst Ends h (perform-IoInv op m a v)) op' a'
