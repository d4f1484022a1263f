-- ===== src/Coroutine.antt =====
-- src/concurrent/coroutine.cpp and include/coroutine.h: coroutines on a heap, and the pointers that
-- a thread keeps to them. A switch of context is the change of the running coroutine that goes with
-- it: `swapcontext` is taken to succeed, and what the code of the other context does is a value of
-- `Leave` or a parameter of the client.
pub mod Switches
use io_scheduler.Prelude.{
  Bool, Callback, Option, dec32, false, if◌then◌else◌, inc32, none, not, some, suc, true, u32_mod,
  update, ℕ, ◌%◌, ◌&&◌, ◌==◌,
}

-- The numbers of `coroutine::state` are the positions, from 0.
pub data State : Type 0 where
  init ready running pause terminate error : State

-- The function that `makecontext` gave to the context.
pub data Entry : Type 0 where
  schedule_function main_thread_function : Entry

-- `stack` says whether `m_stack` is not null.
pub record Coroutine : Type 0 where
  pub id : ℕ
  pub stack : Bool
  pub stack_size : ℕ
  pub function : Callback
  pub state : State
  pub entry : Entry

-- The heap and the atomic counters are the program's; `cur_fiber`, `init_fiber` and
-- `g_main_coroutine` are the thread's.
pub record Fibers : Type 0 where
  pub heap : ℕ → Coroutine
  pub next : ℕ
  pub coroutine_id : ℕ
  pub coroutine_num : ℕ
  pub cur_fiber : Option ℕ
  pub init_fiber : Option ℕ
  pub main_coroutine : Option ℕ

abbrev pub is_null : Option ℕ → Bool
is_null none = true
is_null (some a) = false

abbrev pub points_to : Option ℕ → ℕ → Bool
points_to none a = false
points_to (some b) a = b == a

-- Two pointers to coroutines are equal.
abbrev pub same_pointer : Option ℕ → Option ℕ → Bool
same_pointer none none = true
same_pointer none (some b) = false
same_pointer (some a) p = points_to p a

abbrev pub is_running : State → Bool
is_running running = true
is_running _ = false

unfoldable pub set_coroutine : Option ℕ → Fibers → Fibers
set_coroutine p s = record s { cur_fiber = p }

unfoldable pub set_state : ℕ → State → Fibers → Fibers
set_state a t s = record s { heap = update s.heap a (record (s.heap a) { state = t }) }

-- `coroutine::coroutine()`, at a fresh address; `none` is the failed assertion.
unfoldable pub new_init : Fibers → Option (ℕ × Fibers)
unfolding set_coroutine
new_init s = if is_null s.init_fiber then some (s.next, made) else none
  where
    fresh : Coroutine
    fresh = record {
      id = s.coroutine_id;
      stack = false;
      stack_size = 1024;
      function = none;
      state = running;
      entry = schedule_function;
    }

    made : Fibers
    made = set_coroutine (some s.next) (record s {
      heap = update s.heap s.next fresh;
      next = suc s.next;
      coroutine_num = inc32 s.coroutine_num;
    })

-- `coroutine::coroutine(func, stack_size, Use_Initthread)`.
unfoldable pub new_coroutine : Callback → ℕ → Bool → Fibers → ℕ × Fibers
unfolding set_coroutine
new_coroutine func stack_size use_init_thread s = (s.next, made)
  where
    fresh : Coroutine
    fresh = record {
      id = inc32 s.coroutine_id;
      stack = true;
      stack_size = stack_size % u32_mod;
      function = func;
      state = init;
      entry = if use_init_thread then main_thread_function else schedule_function;
    }

    made : Fibers
    made = set_coroutine (some s.next) (record s {
      heap = update s.heap s.next fresh;
      next = suc s.next;
      coroutine_id = inc32 s.coroutine_id;
      coroutine_num = inc32 s.coroutine_num;
    })

-- `~coroutine`.
unfoldable pub destroy : ℕ → Fibers → Fibers
unfolding set_state set_coroutine
destroy a s =
    let d = set_state a terminate (record s { coroutine_num = dec32 s.coroutine_num }) in
    if points_to s.cur_fiber a then set_coroutine none d else d

-- `get_this_coroutine`: the first call of a thread makes two coroutines, and the second of them is
-- both `init_fiber` and, by its constructor, `cur_fiber`.
unfoldable pub get_this_coroutine : Fibers → Option (ℕ × Fibers)
unfolding new_init set_coroutine
get_this_coroutine s = elim s.cur_fiber [ none ↦ first_call | some a ↦ some (a, s) ]
  where
    second : ℕ × Fibers → Option (ℕ × Fibers)
    second (a, s') = elim (new_init (set_coroutine (some a) s')) [
      | none ↦ none
      | some (b, s'') ↦ some (b, record s'' { init_fiber = some b })
    ]

    first_call : Option (ℕ × Fibers)
    first_call = elim (new_init s) [ none ↦ none | some (a, s') ↦ second (a, s') ]

unfoldable pub get_coroutine_id : Fibers → ℕ
get_coroutine_id s = elim s.cur_fiber [ none ↦ 0 | some a ↦ (s.heap a).id ]

-- `coroutine::swap`: `none` is a failed assertion.
unfoldable pub swap : ℕ → Callback → Fibers → Option Fibers
swap a func s =
    let c = s.heap a in
    if c.stack && not (is_running c.state)
    then some (record s {
      heap = update s.heap a (record c { function = func; entry = schedule_function });
    })
    else none

-- `swap_enter` up to the switch, and `swap_out`.
unfoldable pub swap_enter : ℕ → Fibers → Fibers
unfolding set_state set_coroutine
swap_enter a s = set_state a running (set_coroutine (some a) s)

unfoldable pub swap_out : Fibers → Fibers
unfolding set_coroutine
swap_out s = set_coroutine s.main_coroutine s

-- `call` up to the switch, and `back`.
unfoldable pub call : ℕ → Fibers → Fibers
unfolding set_state set_coroutine
call a s = set_state a running (set_coroutine (some a) s)

unfoldable pub back : Fibers → Fibers
unfolding set_coroutine
back s = set_coroutine s.init_fiber s

-- `yieldtopause` and `yieldtoready`, which differ in the state.
unfoldable pub yield_to : State → Fibers → Option Fibers
unfolding get_this_coroutine set_state swap_out
yield_to t s = elim (get_this_coroutine s) [
  | none ↦ none
  | some (a, s') ↦ some (swap_out (set_state a t s'))
]

-- The switch at the end of an entry function.
unfoldable pub exit_by : Entry → Fibers → Fibers
unfolding swap_out back
exit_by schedule_function s = swap_out s
exit_by main_thread_function s = back s

-- What the `try` block and its handler leave: the callback threw, or it returned.
unfoldable pub ended : Bool → Coroutine → Coroutine
ended true c = record c { state = error }
ended false c = record c { function = none; state = terminate }

-- `schedule_function` and `MainThread_function` after the callback.
unfoldable pub entry_end : Bool → Fibers → Option Fibers
unfolding get_this_coroutine exit_by ended
entry_end threw s = elim (get_this_coroutine s) [
  | none ↦ none
  | some (a, s') ↦
      some (
        exit_by (s'.heap a).entry (record s' { heap = update s'.heap a (ended threw (s'.heap a)) }))
]

-- The ways in which a running coroutine gives up the thread.
pub data Leave : Type 0 where
  yields_ready yields_pause returns throws : Leave

unfoldable pub leave : Leave → Fibers → Option Fibers
unfolding yield_to entry_end
leave yields_ready s = yield_to ready s
leave yields_pause s = yield_to pause s
leave returns s = entry_end false s
leave throws s = entry_end true s
