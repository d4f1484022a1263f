-- ===== src/Schedule/Callbacks.antt =====
-- What a round of `run` does with a callback: it makes a coroutine for it, whose entry is
-- `MainThread_function`, and runs that.
use mathlib.Core.List.{append-nil}
use io_scheduler.Prelude.{
  Bool, false, OnSome, Option, arith, dec32, if◌then◌else◌, inc32, none, refl, some, sym, true,
  u32_mod, update, ℕ, ◌*◌, ◌++◌, ◌<◌, ◌∙◌, ◌≡◌, ◌≢◌,
}
use io_scheduler.Coroutine.{
  Fibers, Leave, State, error, main_thread_function, new_coroutine, pause, ready, returns,
  schedule_function, set_state, swap, throws, yields_pause, yields_ready,
}
use io_scheduler.Coroutine.Switches.{is_yield, state_after}
use io_scheduler.Schedule.{Machine, any_thread, coroutine_task, enqueue}
use io_scheduler.Schedule.Run.{
  aborts, after_function, away, comes_back, continues, enter, run_function, with_active,
}
use io_scheduler.Schedule.Rounds.{
  Gone, Settles, comes_back-Left, is_back, left_behind, IsQuiet, dispatch-Quiet, enter-leaving,
  leaving, requeued,
}

-- The state of the coroutine when the round is over.
abbrev pub state_recorded : Leave → State
state_recorded yields_ready = ready
state_recorded yields_pause = pause
state_recorded returns = pause
state_recorded throws = error

-- What a round leaves of a callback whose coroutine, at `a`, gave up the thread in the way `l`.
pub record Called {E : Type 0} (a : ℕ) (l : Leave) (m m' : Machine E) : Type 0 where
  pub state_kept : (m'.fibers.heap a).state ≡ state_recorded l
  pub queue_kept : m'.sched.coroutines ≡ m.sched.coroutines ++ requeued l a
  pub active_kept : m'.sched.active_thread_num ≡ m.sched.active_thread_num
  pub control :
      m'.fibers.cur_fiber ≡ (if is_yield l then m.fibers.main_coroutine else m.fibers.init_fiber)
  pub others_kept : (b : ℕ) → a ≢ b → m'.fibers.heap b ≡ m.fibers.heap b

-- The machine when the coroutine at `a` has given up the thread.
record Back {E : Type 0} (a : ℕ) (l : Leave) (m n : Machine E) : Type 0 where
  state_left : (n.fibers.heap a).state ≡ state_after l
  control_left :
      n.fibers.cur_fiber ≡ (if is_yield l then m.fibers.main_coroutine else m.fibers.init_fiber)
  stack_left : (n.fibers.heap a).stack ≡ true
  others_left : (b : ℕ) → a ≢ b → n.fibers.heap b ≡ m.fibers.heap b
  queue_left : n.sched.coroutines ≡ m.sched.coroutines
  active_left : n.sched.active_thread_num ≡ m.sched.active_thread_num

cleared :
    (a : ℕ) (s : Fibers)
    → (s.heap a).stack ≡ true
    → (s.heap a).state ≡ error
    → swap a none s
      ≡ some (
          let c = s.heap a in
          record s {
            heap = update s.heap a (record c { function = none; entry = schedule_function });
          })
unfolding swap
cleared a s h e = ground arith

module _ {E : Type 0} (notify : Machine E → Machine E) (quiet : IsQuiet notify) where
  paused :
      (a : ℕ) (l : Leave) (m n : Machine E)
      → Back a l m n
      → state_recorded l ≡ pause
      → m.sched.coroutines ++ requeued l a ≡ m.sched.coroutines
      → Called a l m (record n { fibers = set_state a pause n.fibers })
  unfolding set_state
  paused a l m n p e q = record {
    state_kept = ground arith;
    queue_kept = p.queue_left ∙ sym q;
    active_kept = p.active_left;
    control = p.control_left;
    others_kept = λ b h. ground (arith, p.others_left b h);
  }

  after_function-Called :
      (a : ℕ) (l : Leave) (m n : Machine E)
      → Back a l m n
      → OnSome (Called a l m) (after_function notify a n)
  unfolding after_function
  after_function-Called a yields_ready m n p =
      let d = dispatch-Quiet notify quiet (coroutine_task any_thread a) n in
      rw (p.state_left, after_function)
        (record {
          state_kept = ground (arith, d);
          queue_kept = unfold enqueue in ground (arith, d);
          active_kept = unfold enqueue in ground (arith, d);
          control = ground (arith, d);
          others_kept = λ b h. ground (arith, d, p.others_left b h);
        })
  after_function-Called a yields_pause m n p =
      rw (p.state_left, after_function)
        (paused a yields_pause m n p refl (append-nil m.sched.coroutines))
  after_function-Called a returns m n p =
      rw (p.state_left, after_function)
        (paused a returns m n p refl (append-nil m.sched.coroutines))
  after_function-Called a throws m n p =
      rw (p.state_left, after_function, cleared a n.fibers p.stack_left p.state_left)
        (record {
          state_kept = ground arith;
          queue_kept = p.queue_left ∙ sym (append-nil m.sched.coroutines);
          active_kept = p.active_left;
          control = p.control_left;
          others_kept = λ b h. ground (arith, p.others_left b h);
        })

  -- The coroutine made for the callback, and the machine when it has been entered and has given up the thread.
  made_for : ℕ → Machine E → Machine E
  made_for f m = record m { fibers = (new_coroutine (some f) (128 * 1024) true m.fibers).1 }

  entered_left : Leave → ℕ → Machine E → Machine E
  entered_left l f m = enter (leaving l) m.fibers.next (with_active inc32 (made_for f m))

  returned-Back :
      (l : Leave) (f : ℕ) (m : Machine E)
      → m.sched.active_thread_num < u32_mod
      → Back m.fibers.next l m (with_active dec32 (entered_left l f m))
        × (comes_back (entered_left l f m).fibers ≡ is_back l main_thread_function m.fibers)
        × (is_back l main_thread_function m.fibers ≡ false
            → Gone m.fibers.next l m.sched.coroutines m (entered_left l f m))
  unfolding entered_left made_for new_coroutine
  returned-Back l f m h =
      let made = (new_coroutine (some f) (128 * 1024) true m.fibers).1 in
      let (s, p, e) =
        enter-leaving m.fibers.next l (with_active inc32 (record m { fibers = made })) in
      rw e (
        record {
          state_left = p.state_left;
          control_left = p.control ∙ ground arith;
          stack_left = p.same_stack ∙ ground arith;
          others_left = λ b d. p.others b d ∙ ground arith;
          queue_left = refl;
          active_left = omega arith;
        },
        comes_back-Left m.fibers.next l made s p ∙ ground arith,
        λ g. record {
          state_gone = p.state_left;
          queue_gone = refl;
          active_gone = refl;
          control_gone = p.control ∙ ground (arith, left_behind l main_thread_function m.fibers g);
          others_gone = λ b d. p.others b d ∙ ground arith;
        },
      )

  -- If `notify` changes only what the subclass adds, the count of active threads is a `uint32_t`, and the
  -- callback does nothing but give up the thread, in one of its ways: a round that takes it never fails an assertion.
  -- Where that leads to the scheduler's main coroutine (the callback yields, or the thread's initial coroutine is
  -- the main one), the round goes on with the loop: a callback that yielded to be ready is queued again, as its
  -- coroutine; one that returned leaves its coroutine paused, not terminated; one that threw leaves it in the
  -- state error; the count of active threads is as before. Otherwise, for a callback that returned or threw, the
  -- loop does not go on: control is with the initial coroutine, and the count stays one higher. No other coroutine
  -- changes.
  pub run_function-Called :
      (l : Leave) (f : ℕ) (m : Machine E)
      → m.sched.active_thread_num < u32_mod
      → Settles
          (is_back l main_thread_function m.fibers)
          (Called m.fibers.next l m)
          (Gone m.fibers.next l m.sched.coroutines m)
          (run_function notify (leaving l) (some f) m)
  unfolding run_function new_coroutine entered_left made_for
  run_function-Called l f m h =
      let (p, e, g) = returned-Back l f m h in
      on_some (is_back l main_thread_function m.fibers) (comes_back (entered_left l f m).fibers) _ e
        (after_function-Called m.fibers.next l m _ p) g
    where
      on_some :
          (b c : Bool) (o : Option (Machine E))
          → c ≡ b
          → OnSome (Called m.fibers.next l m) o
          → (b ≡ false → Gone m.fibers.next l m.sched.coroutines m (entered_left l f m))
          → Settles b (Called m.fibers.next l m) (Gone m.fibers.next l m.sched.coroutines m) (
              if c
              then (elim o [ none ↦ aborts | some m' ↦ continues m' ])
              else away (entered_left l f m))
      on_some true true none e q g = q
      on_some true true (some m') e q g = q
      on_some true false o e q g = cc
      on_some false true o e q g = cc
      on_some false false o e q g = g refl
