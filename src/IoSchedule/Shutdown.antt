-- ===== src/IoSchedule/Shutdown.antt =====
-- What `stop` does to the threads of an io scheduler.
use io_scheduler.Event.{Mask}
use io_scheduler.IoSchedule.{Io, Kernel, can_stop, notify}
use io_scheduler.IoSchedule.Idle.{idle_round}
use io_scheduler.IoSchedule.Stopping.{Breaks, idle_ends_worker}
use io_scheduler.Prelude.{
  Bool, OnSome, [], arith, false, if◌then◌else◌, none, refl, suc, true, u32_mod, zero, ℕ, ◌+◌, ap,
  ◌∙◌, ◌-◌, ◌≡◌,
}
use io_scheduler.Schedule.{Machine, Schedule, has_free_thread}
use io_scheduler.Timer.{TimerManager}
use io_scheduler.Schedule.Run.{run_round}
use io_scheduler.Schedule.Stop.{notify_all, release_threads, stop}

module _ {Epoll : Type 0} where
  -- A message for each time, if a thread waits, and nothing else.
  abbrev Notified : ℕ → Machine (Io Epoll) → Machine (Io Epoll) → Type 0
  Notified n m m' =
      (m'.sched ≡ m.sched)
      × (m'.env.timers ≡ m.env.timers)
      × (m'.env.pipe ≡ (if has_free_thread m.sched then m.env.pipe + n else m.env.pipe))

  notify-Notified : (m : Machine (Io Epoll)) → Notified 1 m (notify m)
  unfolding notify
  notify-Notified m = (ground arith, ground arith, ground arith)

  notify_all-Notified :
      (stopping : Machine (Io Epoll) → Bool) (resume : ℕ → Machine (Io Epoll) → Machine (Io Epoll))
      (n : ℕ) (m : Machine (Io Epoll))
      → Notified n m (notify_all notify stopping resume n m)
  unfolding notify_all
  notify_all-Notified stopping resume zero m = (refl, refl, ground arith)
  notify_all-Notified stopping resume (suc n) m =
      let (s, t, p) = notify_all-Notified stopping resume n (notify m) in
      let (s', t', p') = notify-Notified m in
      (s ∙ s', t ∙ t', p ∙ rw (s', p') (more (has_free_thread m.sched) m.env.pipe n))
    where
      more :
          (b : Bool) (k n : ℕ)
          → (if b then (if b then k + 1 else k) + n else (if b then k + 1 else k))
            ≡ (if b then k + suc n else k)
      more true k n = omega arith
      more false k n = refl

module _ (kernel : Kernel) where
  open kernel use {Epoll}

  -- On a scheduler that was made without the initial thread and has neither a timer nor a task, `stop`
  -- does not fail its assertion and, if a thread waits, writes a message for each thread; the thread whose
  -- round of `idle` comes next ends, if nothing is reported to it: the next round of `run` breaks the loop.
  pub stop-ends_worker :
      (resume : ℕ → Machine (Io Epoll) → Machine (Io Epoll)) (current : Bool) (tid now idle : ℕ)
      (unset : Mask) (m : Machine (Io Epoll))
      → m.sched.root_thread_id ≡ u32_mod - 1
      → m.sched.root_coroutine ≡ none
      → m.env.timers.timers ≡ []
      → m.sched.coroutines ≡ []
      → OnSome
          (λ (m' : Machine (Io Epoll)).
            (m'.env.pipe
              ≡ (if has_free_thread m.sched then m.env.pipe + m.sched.threads_num else m.env.pipe))
            × OnSome
                (λ m''. Breaks kernel (run_round notify resume tid idle m''))
                (idle_round kernel now unset [] idle m'))
          (stop notify can_stop resume current m)
  unfolding stop release_threads has_free_thread
  stop-ends_worker resume current tid now idle unset m r c t q =
      let s = m.sched in
      let m1 : Machine (Io Epoll) = record m {
        sched = record s { auto_stop = true; running = false };
      } in
      let (e, u, p) = notify_all-Notified can_stop resume m.sched.threads_num m1 in
      let m' = notify_all notify can_stop resume m.sched.threads_num m1 in
      rw (stop, r, c, release_threads)
        (
          p,
          idle_ends_worker kernel resume tid now idle unset m'
              (ap (λ (x : TimerManager). x.timers) u ∙ t)
              (ap (λ (x : Schedule). x.coroutines) e ∙ q) (ap (λ (x : Schedule). x.running) e),
        )
