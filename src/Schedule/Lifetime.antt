-- ===== src/Schedule/Lifetime.antt =====
-- src/concurrent/schedule.cpp: the scheduler of a thread, `g_cur_schedule`, and the destructor. The virtual functions
-- have the bodies of the base class here.
use io_scheduler.Coroutine.{Fibers, get_this_coroutine}
use io_scheduler.Schedule.{Machine, Schedule, new_schedule, start}
use io_scheduler.Schedule.Stop.{stop}
use io_scheduler.Prelude.{
  ap, arith, sym, not, ◌∙◌, ==_refl, Option-cases, inl, inr, Bool, List, Option, false,
  if◌then◌else◌, none, refl, some, true, ℕ, ◌==◌, ◌≡◌,
}

-- `schedule::can_stop`, `notify` and `idle`.
unfoldable pub base_can_stop : {E : Type 0} → Machine E → Bool
base_can_stop m = false

unfoldable pub base_notify : {E : Type 0} → Machine E → Machine E
base_notify m = m

unfoldable pub base_idle : {E : Type 0} → Machine E → Machine E
base_idle m = m

-- `get_this_schedule` and `set_this_schedule`: a scheduler is an address.
unfoldable pub get_this_schedule : Option ℕ → Option ℕ
get_this_schedule current = current

unfoldable pub set_this_schedule : Option ℕ → Option ℕ → Option ℕ
set_this_schedule next current = next

abbrev pub is_current : ℕ → Option ℕ → Bool
is_current self none = false
is_current self (some a) = a == self

abbrev is_idle : Option (Fibers × Schedule) → Bool
is_idle none = true
is_idle (some (fibers, s)) = not s.running

new_schedule-idle :
    (thread_num tid : ℕ) (use_init_thread : Bool) (fibers : Fibers)
    → is_idle (new_schedule thread_num use_init_thread tid fibers) ≡ true
unfolding new_schedule
new_schedule-idle thread_num tid true fibers = elim (Option-cases (get_this_coroutine fibers)) [
  | inl e ↦ rw (new_schedule, e) refl
  | inr (x, e) ↦ rw (new_schedule, e) refl
]
new_schedule-idle thread_num tid false fibers = elim (Option-cases (get_this_coroutine fibers)) [
  | inl e ↦ rw (new_schedule, e) refl
  | inr (x, e) ↦ rw (new_schedule, e) refl
]

start-running : (ids : List ℕ) (s : Schedule) → not s.running ≡ true → (start ids s).running ≡ false
unfolding start
start-running ids s h = ground arith

module _ {E : Type 0} (resume : ℕ → Machine E → Machine E) where
  -- `~schedule`, of the scheduler at `self`: the machine and `g_cur_schedule` after it. `none` is a failed
  -- assertion in `stop`.
  unfoldable pub destroy_schedule : ℕ → Option ℕ → Machine E → Option (Machine E × Option ℕ)
  unfolding get_this_schedule base_notify base_can_stop
  destroy_schedule self current m =
      let stopped : Option (Machine E) =
        if m.sched.running
        then stop base_notify base_can_stop resume (is_current self current) m
        else some m in
      elim stopped [
        | none ↦ none
        | some m' ↦ some (m', if is_current self (get_this_schedule current) then none else current)
      ]

  -- A scheduler that was constructed and started, with whatever threads, is not stopped by its
  -- destructor: nothing of it changes, so its threads are not joined, and it is no longer that of the thread.
  pub destroy_schedule-started :
      (self thread_num tid : ℕ) (use_init_thread : Bool) (fibers fibers' : Fibers) (s : Schedule)
      (ids : List ℕ) (env : E)
      → new_schedule thread_num use_init_thread tid fibers ≡ some (fibers', s)
      → let m : Machine E = record { fibers = fibers'; sched = start ids s; env = env } in
        destroy_schedule self (some self) m ≡ some (m, none)
  unfolding destroy_schedule get_this_schedule
  destroy_schedule-started self thread_num tid use_init_thread fibers fibers' s ids env h =
      let idle = ap is_idle (sym h) ∙ new_schedule-idle thread_num tid use_init_thread fibers in
      rw (destroy_schedule, start-running ids s idle, ==_refl self) refl
