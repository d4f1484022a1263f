-- ===== src/Schedule/Rounds.antt =====
-- What a round of `run` does to the task that it takes, for each way in which the task's code gives
-- up the thread.
use mathlib.Core.List.{append-nil}
use io_scheduler.Prelude.{
  Bool, Callback, List, OnSome-some, [], arith, false, if◌then◌else◌, inc32, none, refl, some, ap,
  Option, ==_refl, ◌||◌, subst, sym, true, u32_mod, ℕ, ℤ, ◌++◌, ◌<◌, ◌∙◌, ◌∷◌, ◌≡◌, ◌≢◌,
}
use io_scheduler.Coroutine.{
  Entry, Fibers, same_pointer, Leave, State, error, init, leave, pause, ready, returns, running,
  set_state, swap_enter, terminate, throws, yields_pause, yields_ready,
}
use io_scheduler.Coroutine.Switches.{Left, is_scheduled, is_yield, leave-swap_enter, state_after}
use io_scheduler.Schedule.{
  Machine, Schedule, Search, Task, any_thread, coroutine_task, dispatch, enqueue, search_task,
}
use io_scheduler.Schedule.Run.{
  Round, away, comes_back, aborts, act_on, after_coroutine, breaks, continues, enter, run_coroutine,
  run_function_or_idle, run_round, run_taken, with_active,
}

module _ {E : Type 0} where
  -- Code that does nothing but give up the thread in the way `l`.
  unfoldable pub leaving : Leave → ℕ → Machine E → Machine E
  leaving l a m = elim (leave l m.fibers) [ none ↦ m | some s ↦ record m { fibers = s } ]

  entered :
      (a : ℕ) (l : Leave) (m : Machine E) (s : Fibers)
      → leave l (swap_enter a m.fibers) ≡ some s
      → enter (leaving l) a m ≡ record m { fibers = s }
  unfolding enter leaving
  entered a l m s e = rw (e, leaving)

  pub enter-leaving :
      (a : ℕ) (l : Leave) (m : Machine E)
      → (s : Fibers) × Left a l m.fibers s × (enter (leaving l) a m ≡ record m { fibers = s })
  enter-leaving a l m =
      let (s, e, p) = OnSome-some (Left a l m.fibers) _ (leave-swap_enter a l m.fibers) in
      (s, p, entered a l m s e)

module _ {E : Type 0} (notify : Machine E → Machine E) where
  -- A notification may change only what the subclass adds.
  pub record IsQuiet : Type 0 where
    pub same_fibers : (m : Machine E) → (notify m).fibers ≡ m.fibers
    pub same_sched : (m : Machine E) → (notify m).sched ≡ m.sched

abbrev pub requeued : Leave → ℕ → List Task
requeued yields_ready a = coroutine_task any_thread a ∷ []
requeued _ a = []

-- What is left of a coroutine that gave up the thread where the loop does not go on: control is with the
-- thread's initial coroutine, nothing is queued, and the thread counts as active for good.
pub record Gone {E : Type 0} (a : ℕ) (l : Leave) (left : List Task) (m m' : Machine E)
    : Type 0 where
  pub state_gone : (m'.fibers.heap a).state ≡ state_after l
  pub queue_gone : m'.sched.coroutines ≡ left
  pub active_gone : m'.sched.active_thread_num ≡ inc32 m.sched.active_thread_num
  pub control_gone : m'.fibers.cur_fiber ≡ m.fibers.init_fiber
  pub others_gone : (b : ℕ) → a ≢ b → m'.fibers.heap b ≡ m.fibers.heap b

-- Whether control goes to the scheduler's main coroutine, from a coroutine that has this entry.
abbrev pub is_back : Leave → Entry → Fibers → Bool
is_back l entry s = is_yield l || is_scheduled entry || same_pointer s.init_fiber s.main_coroutine

same_pointer_self : (p : Option ℕ) → same_pointer p p ≡ true
same_pointer_self none = refl
same_pointer_self (some a) = ==_refl a

pub comes_back-Left :
    (a : ℕ) (l : Leave) (s s' : Fibers)
    → Left a l s s'
    → comes_back s' ≡ is_back l (s.heap a).entry s
unfolding comes_back
comes_back-Left a l s s' p =
    ap (λ q. same_pointer q s'.main_coroutine) p.control
    ∙ ap (same_pointer (if returns_to then s.main_coroutine else s.init_fiber)) (p.same_thread.0)
    ∙ by_tests (is_yield l) (is_scheduled (s.heap a).entry)
  where
    returns_to : Bool
    returns_to = is_yield l || is_scheduled (s.heap a).entry

    by_tests :
        (b c : Bool)
        → same_pointer (if b || c then s.main_coroutine else s.init_fiber) s.main_coroutine
          ≡ (b || c || same_pointer s.init_fiber s.main_coroutine)
    by_tests true c = same_pointer_self s.main_coroutine
    by_tests false true = same_pointer_self s.main_coroutine
    by_tests false false = refl

-- How a round goes on, where the test says whether the loop does.
abbrev pub Settles :
    {E : Type 0} → Bool → (Machine E → Type 0) → (Machine E → Type 0) → Round E → Type 0
Settles true P Q (continues m) = P m
Settles true P Q (breaks m) = ⊥
Settles true P Q (away m) = ⊥
Settles true P Q aborts = ⊥
Settles false P Q (continues m) = ⊥
Settles false P Q (breaks m) = ⊥
Settles false P Q (away m) = Q m
Settles false P Q aborts = ⊥

pub settled :
    {E : Type 0} (P Q : Machine E → Type 0) (b c : Bool) (kept gone : Machine E)
    → c ≡ b
    → P kept
    → (b ≡ false → Q gone)
    → Settles b P Q (if c then continues kept else away gone)
settled P Q true true kept gone e p q = p
settled P Q true false kept gone e p q = cc
settled P Q false true kept gone e p q = cc
settled P Q false false kept gone e p q = q refl

pub left_behind :
    (l : Leave) (entry : Entry) (s : Fibers)
    → is_back l entry s ≡ false
    → (is_yield l || is_scheduled entry) ≡ false
left_behind l entry s h = by_tests (is_yield l) (is_scheduled entry) _ h
  where
    by_tests : (b c d : Bool) → (b || c || d) ≡ false → (b || c) ≡ false
    by_tests true c d e = e
    by_tests false true d e = e
    by_tests false false d e = refl

-- What a round leaves of a coroutine that gave up the thread in the way `l`, with the tasks `left` in
-- the queue, where the loop goes on.
pub record Ran {E : Type 0} (a : ℕ) (l : Leave) (left : List Task) (m m' : Machine E) : Type 0 where
  pub state_kept : (m'.fibers.heap a).state ≡ state_after l
  pub queue_kept : m'.sched.coroutines ≡ left ++ requeued l a
  pub active_kept : m'.sched.active_thread_num ≡ m.sched.active_thread_num
  pub others_kept : (b : ℕ) → a ≢ b → m'.fibers.heap b ≡ m.fibers.heap b

module _ {E : Type 0} (notify : Machine E → Machine E) (quiet : IsQuiet notify) where
  pub dispatch-Quiet :
      (t : Task) (m : Machine E)
      → ((dispatch notify t m).fibers ≡ m.fibers)
        × ((dispatch notify t m).sched ≡ (enqueue t m.sched).0)
  unfolding dispatch
  dispatch-Quiet t m =
      let m' : Machine E = record m { sched = (enqueue t m.sched).0 } in
      (ground (arith, quiet.same_fibers m'), ground (arith, quiet.same_sched m'))

  after_coroutine-Ran :
      (a : ℕ) (l : Leave) (m n : Machine E)
      → n.sched.active_thread_num ≡ m.sched.active_thread_num
      → Left a l m.fibers n.fibers
      → Ran a l n.sched.coroutines m (after_coroutine notify a n)
  unfolding after_coroutine
  after_coroutine-Ran a yields_ready m n e p =
      let d = dispatch-Quiet (coroutine_task any_thread a) n in
      rw (p.state_left, after_coroutine)
        (record {
          state_kept = ground (arith, d);
          queue_kept = unfold enqueue in ground (arith, d);
          active_kept = unfold enqueue in ground (arith, d);
          others_kept = λ b h. ground (arith, d, p.others b h);
        })
  after_coroutine-Ran a yields_pause m n e p =
      rw (p.state_left, after_coroutine)
        (unfold set_state in
          record {
            state_kept = ground arith;
            queue_kept = ground (arith, append-nil n.sched.coroutines);
            active_kept = ground arith;
            others_kept = λ b h. ground (arith, p.others b h);
          })
  after_coroutine-Ran a returns m n e p =
      rw (p.state_left, after_coroutine)
        (record {
          state_kept = p.state_left;
          queue_kept = sym (append-nil n.sched.coroutines);
          active_kept = e;
          others_kept = p.others;
        })
  after_coroutine-Ran a throws m n e p =
      rw (p.state_left, after_coroutine)
        (record {
          state_kept = p.state_left;
          queue_kept = sym (append-nil n.sched.coroutines);
          active_kept = e;
          others_kept = p.others;
        })

  run_coroutine-Ran :
      (a : ℕ) (l : Leave) (m : Machine E)
      → m.sched.active_thread_num < u32_mod
      → Settles
          (is_back l (m.fibers.heap a).entry m.fibers)
          (Ran a l m.sched.coroutines m)
          (Gone a l m.sched.coroutines m)
          (run_coroutine notify (leaving l) a m)
  unfolding run_coroutine
  run_coroutine-Ran a l m h =
      let (s, p, e) = enter-leaving a l (with_active inc32 m) in
      rw e (
        settled (Ran a l m.sched.coroutines m) (Gone a l m.sched.coroutines m)
          (is_back l (m.fibers.heap a).entry m.fibers) (comes_back s) _ _
          (comes_back-Left a l m.fibers s p) (after_coroutine-Ran a l m _ (omega arith) p)
          (λ g. record {
            state_gone = p.state_left;
            queue_gone = refl;
            active_gone = refl;
            control_gone = p.control ∙ rw (left_behind l (m.fibers.heap a).entry m.fibers g) refl;
            others_gone = p.others;
          }))

-- The search found a task.
abbrev pub found : Task → List Task → Bool → Search
found t left b = record { taken = some t; left = left; need_notify = b }

-- The start of a round may be seen through a notification, and without the tasks taken off.
Ran-from :
    {E : Type 0} (a : ℕ) (l : Leave) (left : List Task) (m n r : Machine E)
    → n.fibers ≡ m.fibers
    → n.sched ≡ (let s = m.sched in record s { coroutines = left })
    → Ran a l n.sched.coroutines n r
    → Ran a l left m r
Ran-from a l left m n r e f h = record {
  state_kept = h.state_kept;
  queue_kept = h.queue_kept ∙ ground arith;
  active_kept = h.active_kept ∙ ground arith;
  others_kept = λ b d. h.others_kept b d ∙ ground arith;
}

Gone-from :
    {E : Type 0} (a : ℕ) (l : Leave) (left : List Task) (m n r : Machine E)
    → n.fibers ≡ m.fibers
    → n.sched ≡ (let s = m.sched in record s { coroutines = left })
    → Gone a l n.sched.coroutines n r
    → Gone a l left m r
Gone-from a l left m n r e f h = record {
  state_gone = h.state_gone;
  queue_gone = h.queue_gone ∙ ground arith;
  active_gone = h.active_gone ∙ ground arith;
  control_gone = h.control_gone ∙ ground arith;
  others_gone = λ b d. h.others_gone b d ∙ ground arith;
}

-- What becomes of a round with the coroutine at `a`.
abbrev pub RunsOn : {E : Type 0} → ℕ → Leave → List Task → Machine E → Round E → Type 0
RunsOn a l left m r =
    Settles (is_back l (m.fibers.heap a).entry m.fibers) (Ran a l left m) (Gone a l left m) r

-- A coroutine task of a round that takes it.
module _ {E : Type 0} (notify : Machine E → Machine E) (quiet : IsQuiet notify) where
  abbrev noticed : Bool → Machine E → Machine E
  noticed b m = if b then notify m else m

  noticed-same :
      (b : Bool) (m : Machine E)
      → ((noticed b m).fibers ≡ m.fibers) × ((noticed b m).sched ≡ m.sched)
  noticed-same true m = (quiet.same_fibers m, quiet.same_sched m)
  noticed-same false m = (refl, refl)

  taken_coroutine :
      (idle a : ℕ) (l : Leave) (f : Callback) (m : Machine E)
      → (m.fibers.heap a).state ≢ terminate
      → m.sched.active_thread_num < u32_mod
      → RunsOn a l m.sched.coroutines m (run_taken notify (leaving l) idle (some a) f m)
  unfolding run_taken
  taken_coroutine idle a l f m live h =
      at_state (m.fibers.heap a).state live (run_coroutine-Ran notify quiet a l m h)
    where
      at_state :
          (t : State)
          → t ≢ terminate
          → RunsOn a l m.sched.coroutines m (run_coroutine notify (leaving l) a m)
          → RunsOn a l m.sched.coroutines m (elim t [
            | terminate ↦ run_function_or_idle notify (leaving l) idle f m
            | _ ↦ run_coroutine notify (leaving l) a m
          ])
      at_state terminate n r = absurd (n refl)
      at_state init n r = r
      at_state ready n r = r
      at_state running n r = r
      at_state pause n r = r
      at_state error n r = r

  -- If `notify` changes only what the subclass adds, the count of active threads is a `uint32_t`, the search
  -- finds a coroutine that has not terminated, and its code does nothing but give up the thread, in one of its ways.
  -- Where that leads to the scheduler's main coroutine (it yields, or its entry is `schedule_function`, or the thread's
  -- initial coroutine is the main one), the round goes on with the loop: the coroutine is put at the end of
  -- the queue, for any thread, exactly if it yielded to be ready; it keeps the state in which it left; the count
  -- of active threads is as before. Otherwise the loop does not go on: control is with the initial coroutine,
  -- the coroutine is not queued, and the count of active threads stays one higher. No other coroutine changes.
  pub run_round-coroutine :
      (tid idle a : ℕ) (th : ℤ) (l : Leave) (left : List Task) (b : Bool) (m : Machine E)
      → search_task tid m.fibers.heap m.sched.coroutines ≡ found (coroutine_task th a) left b
      → (m.fibers.heap a).state ≢ terminate
      → m.sched.active_thread_num < u32_mod
      → RunsOn a l left m (run_round notify (leaving l) tid idle m)
  unfolding run_round
  run_round-coroutine tid idle a th l left b m e live h = rw e (acted b)
    where
      taken_off : Machine E
      taken_off = let s = m.sched in record m { sched = record s { coroutines = left } }

      carried :
          (n : Machine E) (r : Round E)
          → n.fibers ≡ m.fibers
          → n.sched ≡ taken_off.sched
          → RunsOn a l n.sched.coroutines n r
          → RunsOn a l left m r
      carried n r p q h = moved (is_back l (m.fibers.heap a).entry m.fibers) r (
          subst
            (λ (s : Fibers).
              Settles (is_back l (s.heap a).entry s) (Ran a l n.sched.coroutines n)
                (Gone a l n.sched.coroutines n) r)
            p h)
        where
          moved :
              (c : Bool) (r : Round E)
              → Settles c (Ran a l n.sched.coroutines n) (Gone a l n.sched.coroutines n) r
              → Settles c (Ran a l left m) (Gone a l left m) r
          moved true (continues r) h = Ran-from a l left m n r p q h
          moved true (breaks r) h = h
          moved true (away r) h = h
          moved true aborts h = h
          moved false (continues r) h = h
          moved false (breaks r) h = h
          moved false (away r) h = Gone-from a l left m n r p q h
          moved false aborts h = h

      acted :
          (b : Bool)
          → RunsOn a l left m
              (act_on notify (leaving l) idle (found (coroutine_task th a) left b) m)
      acted b =
          let n : Machine E = noticed b taken_off in
          let same = noticed-same b taken_off in
          unfold act_on in
          carried n _ same.0 same.1 (
            taken_coroutine idle a l none n
              (subst (λ (s : Fibers). (s.heap a).state ≢ terminate) (sym same.0) live)
              (subst (λ (s : Schedule). s.active_thread_num < u32_mod) (sym same.1) h))
