-- ===== src/Schedule/Run.antt =====
-- The loop of `schedule::run`, a round at a time. The code that a coroutine runs until it gives up
-- the thread is a parameter, and so is `notify`; the loop enters `idle` as a coroutine.
use io_scheduler.Prelude.{
  Bool, Callback, Option, dec32, false, if◌then◌else◌, inc32, none, some, true, ℕ, ◌*◌,
}
use io_scheduler.Coroutine.{
  Fibers, same_pointer, error, new_coroutine, pause, ready, set_state, swap, swap_enter, terminate,
}
use io_scheduler.Schedule.{
  Machine, Search, Task, any_thread, coroutine_task, dispatch, is_task, reset_task, search_task,
}

-- How a round of the loop ends: by `continue`, by `break`, by a failed assertion; or it is left for good,
-- since the thread goes on in a context other than that of the scheduler's main coroutine.
pub data Round (E : Type 0) : Type 0 where
  continues breaks away : Machine E → Round E
  aborts : Round E

-- `assert(i->s_coroutine || i->s_function)`.
abbrev pub is_sound : Option Task → Bool
is_sound none = true
is_sound (some t) = is_task t

module _ {E : Type 0} where
  abbrev pub with_active : (ℕ → ℕ) → Machine E → Machine E
  with_active f m =
      let s = m.sched in record m { sched = record s { active_thread_num = f s.active_thread_num } }

  abbrev pub with_free : (ℕ → ℕ) → Machine E → Machine E
  with_free f m =
      let s = m.sched in record m { sched = record s { free_thread_num = f s.free_thread_num } }

-- `resume a` is what the coroutine at `a` and whatever else runs meanwhile do between the switch to
-- it and the switch back.
unfoldable pub enter : {E : Type 0} → (ℕ → Machine E → Machine E) → ℕ → Machine E → Machine E
enter resume a m = resume a (record m { fibers = swap_enter a m.fibers })

-- `swap_enter` saves the loop in the context of the scheduler's main coroutine, so the loop goes on exactly
-- where that is the coroutine switched to.
unfoldable pub comes_back : Fibers → Bool
comes_back s = same_pointer s.cur_fiber s.main_coroutine

module _ {E : Type 0} (notify : Machine E → Machine E) where
  -- What follows the switch back from a task's coroutine: a ready one is dispatched, for any thread.
  unfoldable pub after_coroutine : ℕ → Machine E → Machine E
  after_coroutine a m = elim (m.fibers.heap a).state [
    | ready ↦ dispatch notify (coroutine_task any_thread a) m
    | terminate ↦ m
    | error ↦ m
    | _ ↦ record m { fibers = set_state a pause m.fibers }
  ]

  -- The same for a coroutine made for a callback. The first test is `state == (error | terminate)`,
  -- and the number of that is the number of `error`; `none` is a failed assertion of `swap`.
  unfoldable pub after_function : ℕ → Machine E → Option (Machine E)
  after_function a m = elim (m.fibers.heap a).state [
    | error ↦ elim (swap a none m.fibers) [ none ↦ none | some s ↦ some (record m { fibers = s }) ]
    | ready ↦ some (dispatch notify (coroutine_task any_thread a) m)
    | _ ↦ some (record m { fibers = set_state a pause m.fibers })
  ]

  module _ (resume : ℕ → Machine E → Machine E) where
    unfoldable pub run_coroutine : ℕ → Machine E → Round E
    run_coroutine a m =
        let left = enter resume a (with_active inc32 m) in
        if comes_back left.fibers
        then continues (after_coroutine a (with_active dec32 left))
        else away left

    unfoldable pub run_function : Callback → Machine E → Round E
    run_function f m =
        let (a, fibers) = new_coroutine f (128 * 1024) true m.fibers in
        let left = enter resume a (with_active inc32 (record m { fibers = fibers })) in
        if comes_back left.fibers
        then (elim (after_function a (with_active dec32 left)) [
          | none ↦ aborts
          | some m' ↦ continues m'
        ])
        else away left

    -- No task: the round ends the loop if the idle coroutine has terminated, and else enters it.
    unfoldable pub run_idle : ℕ → Machine E → Round E
    run_idle idle m =
        let left = enter resume idle (with_free inc32 m) in
        let back = with_free dec32 left in
        elim (m.fibers.heap idle).state [
          | terminate ↦ breaks m
          | _ ↦
              if comes_back left.fibers
              then continues (elim (back.fibers.heap idle).state [
                | terminate ↦ back
                | error ↦ back
                | _ ↦ record back { fibers = set_state idle pause back.fibers }
              ])
              else away left
        ]

    -- The task taken: a coroutine that has not terminated, or else a callback, or else nothing.
    unfoldable pub run_function_or_idle : ℕ → Callback → Machine E → Round E
    run_function_or_idle idle none m = run_idle idle m
    run_function_or_idle idle (some f) m = run_function (some f) m

    unfoldable pub run_taken : ℕ → Option ℕ → Callback → Machine E → Round E
    run_taken idle none f m = run_function_or_idle idle f m
    run_taken idle (some a) f m = elim (m.fibers.heap a).state [
      | terminate ↦ run_function_or_idle idle f m
      | _ ↦ run_coroutine a m
    ]

    -- What follows the search: the notification, and the task.
    unfoldable pub act_on : ℕ → Search → Machine E → Round E
    act_on idle r m =
        let s = m.sched in
        let m' : Machine E = record m { sched = record s { coroutines = r.left } } in
        let task : Task = elim r.taken [ none ↦ reset_task | some t ↦ t ] in
        elim (is_sound r.taken) [
          | false ↦ aborts
          | true ↦
              run_taken idle task.coroutine task.function (if r.need_notify then notify m' else m')
        ]

    -- One round of `while (true)` in `run`, on the thread `tid` with its idle coroutine.
    unfoldable pub run_round : ℕ → ℕ → Machine E → Round E
    run_round tid idle m = act_on idle (search_task tid m.fibers.heap m.sched.coroutines) m
