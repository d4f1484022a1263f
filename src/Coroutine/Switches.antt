-- ===== src/Coroutine/Switches.antt =====
-- Where control and the running coroutine are after each way to give up the thread.
use io_scheduler.Prelude.{
  Bool, OnSome, Option, arith, false, if◌then◌else◌, inc32, none, not, refl, some, suc, true, ℕ,
  ◌&&◌, ◌||◌, ◌≡◌, ◌≢◌,
}
use io_scheduler.Coroutine.{
  Entry, Fibers, Leave, State, error, get_this_coroutine, is_null, leave, main_thread_function,
  pause, ready, returns, schedule_function, swap_enter, terminate, throws, yields_pause,
  yields_ready,
}

-- The state that each way leaves behind.
abbrev pub state_after : Leave → State
state_after yields_ready = ready
state_after yields_pause = pause
state_after returns = terminate
state_after throws = error

abbrev pub is_yield : Leave → Bool
is_yield yields_ready = true
is_yield yields_pause = true
is_yield _ = false

abbrev pub is_scheduled : Entry → Bool
is_scheduled schedule_function = true
is_scheduled main_thread_function = false

-- What a round through the coroutine at `a` leaves.
pub record Left (a : ℕ) (l : Leave) (s s' : Fibers) : Type 0 where
  pub state_left : (s'.heap a).state ≡ state_after l
  pub control :
      s'.cur_fiber
      ≡ (if is_yield l || is_scheduled (s.heap a).entry then s.main_coroutine else s.init_fiber)
  pub same_stack : (s'.heap a).stack ≡ (s.heap a).stack
  pub others : (b : ℕ) → a ≢ b → s'.heap b ≡ s.heap b
  pub same_thread : (s'.main_coroutine ≡ s.main_coroutine) × (s'.init_fiber ≡ s.init_fiber)

-- A coroutine entered by `swap_enter` gives up the thread in the state of its way to do so, never
-- as running. Yielding goes to the scheduler's main coroutine; so does the end of one whose entry is
-- `schedule_function`; the end of one whose entry is `MainThread_function` goes to the thread's
-- initial coroutine instead. No other coroutine changes.
pub leave-swap_enter :
    (a : ℕ) (l : Leave) (s : Fibers) → OnSome (Left a l s) (leave l (swap_enter a s))
unfolding leave swap_enter
leave-swap_enter a yields_ready s = record {
  state_left = ground arith;
  control = ground arith;
  same_stack = ground arith;
  others = λ b h. ground arith;
  same_thread = ground arith;
}
leave-swap_enter a yields_pause s = record {
  state_left = ground arith;
  control = ground arith;
  same_stack = ground arith;
  others = λ b h. ground arith;
  same_thread = ground arith;
}
leave-swap_enter a returns s = record {
  state_left = ground arith;
  control = ground arith;
  same_stack = ground arith;
  others = λ b h. ground arith;
  same_thread = ground arith;
}
leave-swap_enter a throws s = record {
  state_left = ground arith;
  control = ground arith;
  same_stack = ground arith;
  others = λ b h. ground arith;
  same_thread = ground arith;
}

-- What `get_this_coroutine` leaves: the coroutine that it returns is the running one, a further call
-- returns it again and changes nothing, and a first call leaves it as the initial coroutine too,
-- at the second of the two addresses that it takes.
pub record Current (s : Fibers) (r : ℕ × Fibers) : Type 0 where
  pub running_one : r.1.cur_fiber ≡ some r.0
  pub again : get_this_coroutine r.1 ≡ some r
  pub first :
      s.cur_fiber ≡ none
      → (r.1.init_fiber ≡ some r.0)
        × (r.0 ≡ suc s.next)
        × (r.1.coroutine_num ≡ inc32 (inc32 s.coroutine_num))

Current-cases :
    (s : Fibers) (p q : Option ℕ)
    → (is_null p && not (is_null q)) ≡ false
    → let s' : Fibers = record s { cur_fiber = p; init_fiber = q } in
      OnSome (Current s') (get_this_coroutine s')
unfolding get_this_coroutine
Current-cases s none none h = record {
  running_one = refl;
  again = refl;
  first = λ e. (refl, refl, refl);
}
Current-cases s none (some b) h = cc
Current-cases s (some a) q h = record { running_one = refl; again = refl; first = λ e. cc }

-- The call succeeds unless the thread has lost its running coroutine and kept its initial one.
pub get_this_coroutine-Current :
    (s : Fibers)
    → (is_null s.cur_fiber && not (is_null s.init_fiber)) ≡ false
    → OnSome (Current s) (get_this_coroutine s)
get_this_coroutine-Current s h = Current-cases s s.cur_fiber s.init_fiber h
