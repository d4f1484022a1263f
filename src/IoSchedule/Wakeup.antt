-- ===== src/IoSchedule/Wakeup.antt =====
-- From `AddTimer` to the queue: the callback of a timer, and the round of `idle` that finds it due.
use io_scheduler.IoSchedule.{Io, Kernel, add_io_timer, can_stop}
use io_scheduler.IoSchedule.Idle.{dispatch_expired, end_round, idle_round, process_entries}
use io_scheduler.IoSchedule.Stopping.{dispatch_expired-queue}
use io_scheduler.Event.{Mask}
use io_scheduler.Prelude.{
  Option-cases, ==→≡, Bool, Bool-cases, List, OnSome, [], add64, ap, arith, false, filter, inl, inr,
  length, length-append, map, refl, some, sym, true, ℕ, ◌++◌, ◌<◌, ◌==◌, ◌∷◌, ◌≡◌, ◌≤◌, ◌∙◌,
}
use io_scheduler.Schedule.{Machine, Task, any_thread, function_task, is_task}
use io_scheduler.Timer.{Timer, TimerManager, add_timer, add_timer_ptr, new_timer}
use io_scheduler.Timer.Expiry.{due}
use io_scheduler.Timer.Invariant.{Inv, add_timer-Inv, func_at}
use io_scheduler.Timer.Due.{contains-filter, is_due}
use io_scheduler.Timer.OrderedSet.{contains}
use io_scheduler.Schedule.Pool.{Event, Pool, Steps}
use io_scheduler.Schedule.Pool.Served.{AllOpen, IsTaken, Steps-IsTaken, takings}
use io_scheduler.Schedule.Queue.{KeepsQueue}
use mathlib.Core.List.{Mem, append_assoc, mem-append_right, mem-cons_self}
use mathlib.Core.Option.{some-injective}

-- The callbacks of timers as tasks, without the empty ones.
abbrev pub tasks_of : (ℕ → Timer) → List ℕ → List Task
tasks_of heap xs = filter is_task (map (function_task any_thread) (map (func_at heap) xs))

-- A task is somewhere in the queue.
abbrev pub IsQueued : Task → List Task → Type 0
IsQueued t ts = (xs : List Task) × (ys : List Task) × (ts ≡ xs ++ t ∷ ys)

tasks_of-IsQueued :
    (heap : ℕ → Timer) (a f : ℕ) (xs : List ℕ)
    → contains a xs ≡ true
    → func_at heap a ≡ some f
    → IsQueued (function_task any_thread (some f)) (tasks_of heap xs)
tasks_of-IsQueued heap a f [] h g = absurd (false≢true h)
  where
    false≢true : false ≡ true → ⊥
    false≢true e = cc
tasks_of-IsQueued heap a f (x ∷ xs) h g = elim (Bool-cases (a == x)) [
  | inl e ↦
      let here : func_at heap x ≡ some f = ap (func_at heap) (sym (==→≡ a x e)) ∙ g in
      rw here ([], tasks_of heap xs, refl)
  | inr e ↦
      let (ys, zs, rest) = tasks_of-IsQueued heap a f xs (rw e at h) g in
      elim (Option-cases (func_at heap x)) [
        | inl n ↦ rw n (ys, zs, rest)
        | inr (k, n) ↦ rw n (
          function_task any_thread (some k) ∷ ys,
          zs,
          ap (λ ts. function_task any_thread (some k) ∷ ts) rest,
        )
      ]
]

append-IsQueued : (t : Task) (ts us : List Task) → IsQueued t us → IsQueued t (ts ++ us)
append-IsQueued t ts us (xs, ys, e) =
    (ts ++ xs, ys, ap (λ vs. ts ++ vs) e ∙ sym (append_assoc ts xs (t ∷ ys)))

-- The timer that `AddTimer` made: its place in the set, its callback and its start.
added :
    (f time clock clock' : ℕ) (cyclic : Bool) (m : TimerManager)
    → let (m', a) = add_timer (some f) time cyclic clock clock' m in
      (func_at m'.heap a ≡ some f) × ((m'.heap a).start ≡ add64 clock' time)
unfolding add_timer add_timer_ptr new_timer
added f time clock clock' cyclic m = (ground arith, ground arith)

due_now :
    (now a : ℕ) (m : TimerManager)
    → contains a m.timers ≡ true
    → (m.heap a).start ≤ now
    → contains a (due now m m.timers) ≡ true
due_now now a m c h = contains-filter (is_due m.heap now) a m.timers ∙ ground arith

module _ (kernel : Kernel) where
  open kernel use {Epoll}

  -- A round in which nothing is reported and that does not stop.
  quiet_round :
      (now idle : ℕ) (unset : Mask) (m : Machine (Io Epoll))
      → can_stop m ≡ false
      → idle_round kernel now unset [] idle m
        ≡ some (end_round kernel idle (dispatch_expired kernel now m))
  unfolding idle_round process_entries
  quiet_round now idle unset m h = elim (Bool-cases m.env.buffer) [
    | inl b ↦ rw (idle_round, h, b)
    | inr b ↦ rw (idle_round, h, b)
  ]

  -- If the set of timers is well-formed and the scheduler does not stop by itself, a round of
  -- idle in which the kernel reports nothing puts the callbacks of the timers due at the end of
  -- the queue, in the order of the set, for any thread, without the empty ones, and no other
  -- tasks.
  pub idle_round-queue :
      (now idle : ℕ) (unset : Mask) (m : Machine (Io Epoll))
      → Inv m.env.timers
      → can_stop m ≡ false
      → OnSome
          (λ (m' : Machine (Io Epoll)).
            m'.sched.coroutines
            ≡ m.sched.coroutines
              ++ tasks_of m.env.timers.heap (due now m.env.timers m.env.timers.timers))
          (idle_round kernel now unset [] idle m)
  idle_round-queue now idle unset m v h =
      rw (quiet_round now idle unset m h)
        (unfold end_round in dispatch_expired-queue kernel now m v)

  add_io_timer-IsQueued :
      (f time clock clock' now idle : ℕ) (cyclic : Bool) (unset : Mask) (m : Machine (Io Epoll))
      → Inv m.env.timers
      → m.sched.auto_stop ≡ false
      → add64 clock' time ≤ now
      → (m' : Machine (Io Epoll)) × (idle_round kernel now unset [] idle
            (add_io_timer (some f) time cyclic clock clock' m)
          ≡ some m')
        × IsQueued (function_task any_thread (some f)) m'.sched.coroutines
  add_io_timer-IsQueued f time clock clock' now idle cyclic unset m v s h =
      let m1 = add_io_timer (some f) time cyclic clock clock' m in
      let added_at = add_timer (some f) time cyclic clock clock' m.env.timers in
      let timers = added_at.0 in
      let a = added_at.1 in
      let (v1, c) = add_timer-Inv (some f) time cyclic clock clock' m.env.timers v in
      let (g, e) = added f time clock clock' cyclic m.env.timers in
      (
        end_round kernel idle (dispatch_expired kernel now m1),
        quiet_round now idle unset m1 (unfold can_stop add_io_timer in ground arith),
        unfold end_round add_io_timer in
            rw (dispatch_expired-queue kernel now m1 v1) (
              append-IsQueued (function_task any_thread (some f)) m.sched.coroutines _ (
                tasks_of-IsQueued timers.heap a f (due now timers timers.timers)
                  (due_now now a timers c (rw e h)) g)),
      )

  -- If the set of timers is well-formed and the scheduler does not stop by itself, the callback
  -- of a timer added is a task of the queue, for any thread, after a round of idle at or after
  -- the start of the timer in which the kernel reports nothing.
  pub add_io_timer-idle_round :
      (f time clock clock' now idle : ℕ) (cyclic : Bool) (unset : Mask) (m : Machine (Io Epoll))
      → Inv m.env.timers
      → m.sched.auto_stop ≡ false
      → add64 clock' time ≤ now
      → OnSome
          (λ (m' : Machine (Io Epoll)). Mem (function_task any_thread (some f)) m'.sched.coroutines)
          (idle_round kernel now unset [] idle (add_io_timer (some f) time cyclic clock clock' m))
  add_io_timer-idle_round f time clock clock' now idle cyclic unset m v s h =
      let (m', e, (xs, ys, q)) =
        add_io_timer-IsQueued f time clock clock' now idle cyclic unset m v s h in
      rw (e, q) (mem-append_right xs mem-cons_self)

  -- If the set of timers is well-formed, the scheduler does not stop by itself and `notify` leaves the queue
  -- alone, let a timer be added and a round of `idle` at or after its start end, which sees no entry. When the
  -- threads then work in any order, with tasks at each step that are for any thread and of no running coroutine,
  -- and find as many tasks as are queued after the round, one of them takes the callback.
  pub add_io_timer-IsTaken :
      (f time clock clock' now idle : ℕ) (cyclic : Bool) (unset : Mask) (m : Machine (Io Epoll))
      → Inv m.env.timers
      → m.sched.auto_stop ≡ false
      → add64 clock' time ≤ now
      → (notify : Machine (Io Epoll) → Machine (Io Epoll)) → KeepsQueue notify
      → (p q : Pool (Io Epoll)) (es : List Event)
      → idle_round kernel now unset [] idle (add_io_timer (some f) time cyclic clock clock' m)
        ≡ some p.machine
      → (run : Steps notify p es q) → AllOpen run
      → length p.machine.sched.coroutines ≤ takings es
      → IsTaken (function_task any_thread (some f)) es
  add_io_timer-IsTaken f time clock clock' now idle cyclic unset m v s h notify keeps p q es d run o
        n =
      let (m', e, (xs, ys, g)) =
        add_io_timer-IsQueued f time clock clock' now idle cyclic unset m v s h in
      let same : m' ≡ p.machine = some-injective m' p.machine (sym e ∙ d) in
      let queue = ap (λ (k : Machine (Io Epoll)). k.sched.coroutines) (sym same) ∙ g in
      Steps-IsTaken notify keeps run o xs (function_task any_thread (some f)) ys queue
        (before xs ys (function_task any_thread (some f)) (takings es) (rw queue at n))
    where
      before : (xs ys : List Task) (t : Task) (k : ℕ) → length (xs ++ t ∷ ys) ≤ k → length xs < k
      before xs ys t k b = omega (arith, length-append xs (t ∷ ys))
