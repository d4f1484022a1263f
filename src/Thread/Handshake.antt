-- ===== src/Thread/Handshake.antt =====
-- What the semaphore guarantees of a thread that was constructed.
use io_scheduler.Thread.{
  ChildPoint, ParentPoint, Semaphore, Start, Steps, Thread, begins, child_goes, child_step,
  constructed, created, identified, new_semaphore, new_thread, parent_goes, parent_step, release,
  released, runs, swapped, wait, waiting,
}
use io_scheduler.Prelude.{
  Bool, Callback, Option, arith, false, ltb, ltb→lt, none, refl, some, subst, true, ℕ, ◌+◌, ◌≡◌,
}

-- The releases made so far are the count and the wait that passed.
abbrev releases : ChildPoint → ℕ
releases created = 0
releases identified = 0
releases _ = 1

abbrev waits : ParentPoint → ℕ
waits waiting = 0
waits constructed = 1

-- What the new thread has done to the fields at each point.
abbrev Done : ℕ → Callback → ChildPoint → Thread → Callback → Type 0
Done tid func created t calls = t.function ≡ func
Done tid func identified t calls = (t.id ≡ tid) × (t.function ≡ func)
Done tid func released t calls = (t.id ≡ tid) × (t.function ≡ func)
Done tid func swapped t calls = (t.id ≡ tid) × (calls ≡ func)
Done tid func runs t calls = (t.id ≡ tid) × (calls ≡ func)

abbrev IsBalanced : ℕ → Callback → Start → Type 0
IsBalanced tid func s =
    (s.thread.semaphore.count + waits s.parent ≡ releases s.child)
    × Done tid func s.child s.thread s.calls

-- The property of the next state, if there is one.
abbrev OnNext : (Start → Type 0) → Option Start → Type 0
OnNext P none = Unit
OnNext P (some s) = P s

child_step-IsBalanced :
    (tid : ℕ) (func : Callback) (t : Thread) (p : ParentPoint) (c : ChildPoint) (calls : Callback)
    → let s : Start = record { thread = t; parent = p; child = c; calls = calls } in
      IsBalanced tid func s → OnNext (IsBalanced tid func) (child_step tid s)
unfolding child_step release
child_step-IsBalanced tid func t p created calls b = (b.0, (refl, b.1))
child_step-IsBalanced tid func t p identified calls b = (omega (arith, b.0), b.1)
child_step-IsBalanced tid func t p released calls b = b
child_step-IsBalanced tid func t p swapped calls b = b
child_step-IsBalanced tid func t p runs calls b = tt

same-Done :
    (tid : ℕ) (func : Callback) (c : ChildPoint) (t : Thread) (sem : Semaphore) (calls : Callback)
    → Done tid func c t calls
    → Done tid func c (record t { semaphore = sem }) calls
same-Done tid func created t sem calls d = d
same-Done tid func identified t sem calls d = d
same-Done tid func released t sem calls d = d
same-Done tid func swapped t sem calls d = d
same-Done tid func runs t sem calls d = d

parent_step-IsBalanced :
    (tid : ℕ) (func : Callback) (t : Thread) (p : ParentPoint) (c : ChildPoint) (calls : Callback)
    → let s : Start = record { thread = t; parent = p; child = c; calls = calls } in
      IsBalanced tid func s → OnNext (IsBalanced tid func) (parent_step s)
unfolding parent_step wait
parent_step-IsBalanced tid func t constructed c calls b = tt
parent_step-IsBalanced tid func t waiting c calls b = by_count (ltb 0 t.semaphore.count) refl
  where
    by_count :
        (positive : Bool)
        → ltb 0 t.semaphore.count ≡ positive
        → OnNext
            (IsBalanced tid func)
            (parent_step (record { thread = t; parent = waiting; child = c; calls = calls }))
    by_count false e = rw (parent_step, wait, e) tt
    by_count true e =
        rw (parent_step, wait, e)
          (omega (arith, b.0, ltb→lt 0 t.semaphore.count e), same-Done tid func c t _ calls b.1)

reached-IsBalanced :
    (tid : ℕ) (func : Callback) (s : Start) → Steps tid (new_thread func) s → IsBalanced tid func s
unfolding new_thread new_semaphore
reached-IsBalanced tid func s begins = (refl, refl)
reached-IsBalanced tid func s (parent_goes s1 s2 h e) = subst (OnNext (IsBalanced tid func)) e (
    parent_step-IsBalanced tid func s1.thread s1.parent s1.child s1.calls
      (reached-IsBalanced tid func s1 h))
reached-IsBalanced tid func s (child_goes s1 s2 h e) = subst (OnNext (IsBalanced tid func)) e (
    child_step-IsBalanced tid func s1.thread s1.parent s1.child s1.calls
      (reached-IsBalanced tid func s1 h))

Done-id :
    (tid : ℕ) (func : Callback) (c : ChildPoint) (t : Thread) (calls : Callback)
    → releases c ≡ 1
    → Done tid func c t calls
    → t.id ≡ tid
Done-id tid func created t calls e d = cc
Done-id tid func identified t calls e d = cc
Done-id tid func released t calls e d = d.0
Done-id tid func swapped t calls e d = d.0
Done-id tid func runs t calls e d = d.0

Done-calls :
    (tid : ℕ) (func : Callback) (c : ChildPoint) (t : Thread) (calls : Callback)
    → c ≡ runs
    → Done tid func c t calls
    → calls ≡ func
Done-calls tid func created t calls e d = cc
Done-calls tid func identified t calls e d = cc
Done-calls tid func released t calls e d = cc
Done-calls tid func swapped t calls e d = d.1
Done-calls tid func runs t calls e d = d.1

constructed-count :
    (p : ParentPoint) (c : ChildPoint) (n : ℕ)
    → p ≡ constructed
    → n + waits p ≡ releases c
    → releases c ≡ 1
constructed-count waiting c n e h = cc
constructed-count constructed created n e h = absurd (omega (arith, h))
constructed-count constructed identified n e h = absurd (omega (arith, h))
constructed-count constructed released n e h = refl
constructed-count constructed swapped n e h = refl
constructed-count constructed runs n e h = refl

-- In whatever order the two threads go, once the constructor has returned, the thread has the id of
-- the new thread.
pub new_thread-id :
    (tid : ℕ) (func : Callback) (s : Start)
    → Steps tid (new_thread func) s
    → s.parent ≡ constructed
    → s.thread.id ≡ tid
new_thread-id tid func s h e =
    let b = reached-IsBalanced tid func s h in
    Done-id tid func s.child s.thread s.calls
      (constructed-count s.parent s.child s.thread.semaphore.count e b.0) b.1

-- In whatever order the two threads go, the new thread calls the function that the constructor was
-- given.
pub new_thread-calls :
    (tid : ℕ) (func : Callback) (s : Start)
    → Steps tid (new_thread func) s
    → s.child ≡ runs
    → s.calls ≡ func
new_thread-calls tid func s h e =
    Done-calls tid func s.child s.thread s.calls e (reached-IsBalanced tid func s h).1
