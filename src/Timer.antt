-- ===== src/Timer.antt =====
-- src/concurrent/timer.cpp and include/timer.h: timers as objects on a heap, and their manager.
-- A `shared_ptr<timer>` is an address or null; the clock is an argument, one number for each reading.
pub mod OrderedSet
pub mod Cancel
pub mod Order
pub mod Due
pub mod Invariant
pub mod Expiry
use io_scheduler.Prelude.{
  Bool, Callback, List, Option, [], add64, false, if◌then◌else◌, leb, ltb, map, none, not, some,
  sub64, suc, true, u64_mod, update, ℕ, ◌&&◌, ◌*◌, ◌++◌, ◌-◌, ◌==◌, ◌∷◌,
}
use OrderedSet.{before, erase_found, find, insert, lower_bound}

-- `manager` says whether `m_manager` is not null. `owned` says whether the `weak_ptr` that
-- `shared_from_this` reads was set when the object got its first `shared_ptr`.
pub record Timer : Type 0 where
  pub manager : Bool
  pub func : Callback
  pub current : ℕ
  pub delay : ℕ
  pub start : ℕ
  pub cyclic : Bool
  pub owned : Bool

-- A `shared_ptr` sets that `weak_ptr` only through an accessible base, and the base of `class timer`
-- is private.
abbrev pub base_accessible : Bool
base_accessible = false

-- Two readings of the clock, in the order of the body.
unfoldable pub new_timer : Callback → ℕ → Bool → ℕ → ℕ → Timer
new_timer func time cyclic clock clock' = record {
  manager = true;
  func = func;
  current = clock;
  delay = time;
  start = add64 clock' time;
  cyclic = cyclic;
  owned = base_accessible;
}

-- `timer::comparator`, on what the two pointers point to.
unfoldable pub comparator : Option Timer → Option Timer → Bool
comparator none none = true
comparator none (some back) = false
comparator (some front) none = true
comparator (some front) (some back) = leb front.start back.start

pub record TimerManager : Type 0 where
  pub heap : ℕ → Timer
  pub next : ℕ
  pub timers : List ℕ
  pub previous : ℕ

-- The comparator of the set, on addresses of the heap.
unfoldable pub compare_at : (ℕ → Timer) → ℕ → ℕ → Bool
unfolding comparator
compare_at heap a b = comparator (some (heap a)) (some (heap b))

-- `AddTimer(std::shared_ptr<timer>)`, for a pointer that is not null.
unfoldable pub add_timer_ptr : ℕ → TimerManager → TimerManager
add_timer_ptr a m = record m { timers = insert (compare_at m.heap) a m.timers }

-- `AddTimer(func, time, cyclic)`: the new object has a fresh address.
unfoldable pub add_timer : Callback → ℕ → Bool → ℕ → ℕ → TimerManager → TimerManager × ℕ
unfolding add_timer_ptr
add_timer func time cyclic clock clock' m =
    let t = new_timer func time cyclic clock clock' in
    (add_timer_ptr m.next (record m { heap = update m.heap m.next t; next = suc m.next }), m.next)

unfoldable pub deref : (ℕ → Timer) → Option ℕ → Option Timer
deref heap none = none
deref heap (some a) = some (heap a)

-- The set searched by a pointer that may be null.
unfoldable pub compare_ptr : (ℕ → Timer) → Option ℕ → Option ℕ → Bool
unfolding comparator deref
compare_ptr heap p q = comparator (deref heap p) (deref heap q)

unfoldable pub addresses : List (Option ℕ) → List ℕ
addresses [] = []
addresses (none ∷ ps) = addresses ps
addresses (some a ∷ ps) = a ∷ addresses ps

-- `DeleteTimer`: `find`, then `erase` of what was found.
unfoldable pub delete_timer : Option ℕ → TimerManager → TimerManager × Bool
unfolding find erase_found compare_ptr addresses
delete_timer obj m =
    let comp = compare_ptr m.heap in
    let members = map some m.timers in
    elim (find comp obj members) [
      | none ↦ (m, false)
      | some _ ↦ (record m { timers = addresses (erase_found comp obj members) }, true)
    ]

pub data Outcome : Type 0 where
  returns : TimerManager → Outcome
  bad_weak_ptr : Outcome

-- `timer::refresh` of the timer at `a`: `shared_from_this` throws where no `weak_ptr` was set.
unfoldable pub refresh : ℕ → ℕ → TimerManager → Outcome
unfolding delete_timer add_timer_ptr
refresh a clock m =
    if not (m.heap a).manager
    then returns m
    else (if not (m.heap a).owned
        then bad_weak_ptr
        else returns (again (delete_timer (some a) m).0))
  where
    again : TimerManager → TimerManager
    again d =
        let t = d.heap a in
        let t' = record t { current = clock; start = add64 clock t.delay } in
        add_timer_ptr a (record d { heap = update d.heap a t' })

-- `if (func) m_func = func;`
unfoldable pub chosen : Callback → Callback → Callback
chosen none old = old
chosen (some f) old = some f

-- `timer::reset`.
unfoldable pub reset : ℕ → ℕ → Bool → Callback → ℕ → TimerManager → Outcome
unfolding delete_timer add_timer_ptr chosen
reset a time from_now func clock m =
    if not (m.heap a).owned then bad_weak_ptr else returns (again (delete_timer (some a) m).0)
  where
    again : TimerManager → TimerManager
    again d =
        let t = d.heap a in
        let now = if from_now then clock else t.current in
        let t' = record t {
          func = chosen func t.func;
          current = now;
          delay = time;
          start = add64 now time;
        } in
        add_timer_ptr a (record d { heap = update d.heap a t' })

-- `DetectClockAdjust`: the answer, and the clock remembered.
unfoldable pub detect_clock_adjust : ℕ → TimerManager → TimerManager × Bool
detect_clock_adjust time m = (
  record m { previous = time },
  ltb time m.previous && ltb time (sub64 m.previous (1000 * 60 * 60)),
)

-- `~0ull`.
abbrev pub no_timer : ℕ
no_timer = u64_mod - 1

unfoldable pub get_next_time : ℕ → TimerManager → ℕ
get_next_time clock m = elim m.timers [
  | [] ↦ no_timer
  | a ∷ _ ↦ if ltb (m.heap a).start clock then 0 else (m.heap a).start - clock
]

-- What one round of the `for` loop of `GetExpiredList` does to the timer: `now` starts a cyclic one
-- again, and another loses its callback.
unfoldable pub settle : ℕ → Timer → Timer
settle now t =
    if t.cyclic
    then record t { current = now; start = add64 now t.delay }
    else record t { func = none }

-- The round: a cyclic timer is inserted again.
unfoldable pub settle_at : ℕ → ℕ → TimerManager → TimerManager
settle_at now j m =
    let heap = update m.heap j (settle now (m.heap j)) in
    record m {
      heap = heap;
      timers = if (m.heap j).cyclic then insert (compare_at heap) j m.timers else m.timers;
    }

-- The loop over the expired timers, which copies each callback first.
unfoldable pub collect : ℕ → List ℕ → TimerManager → List Callback → TimerManager × List Callback
collect now [] m tasks = (m, tasks)
collect now (j ∷ js) m tasks = collect now js (settle_at now j m) (tasks ++ (m.heap j).func ∷ [])

-- What follows the early return: the second call of `DetectClockAdjust` picks the end of the range.
unfoldable pub take_expired : ℕ → TimerManager → List Callback → TimerManager × List Callback
unfolding comparator detect_clock_adjust
take_expired now m tasks =
    let (m', adjusted) = detect_clock_adjust now m in
    let at_or_before = λ (a : ℕ). comparator (some (m.heap a)) (some now_timer) in
    let upto = if adjusted then m.timers else before at_or_before m.timers in
    let rest = if adjusted then [] else lower_bound at_or_before m.timers in
    let equal = λ (a : ℕ). (m.heap a).start == now in
    collect now (upto ++ before equal rest) (record m' { timers = lower_bound equal rest }) tasks
  where
    now_timer : Timer
    now_timer = record {
      manager = false;
      func = none;
      current = now;
      delay = 0;
      start = now;
      cyclic = false;
      owned = base_accessible;
    }

-- `GetExpiredList`, with the clock that it reads.
unfoldable pub get_expired_list : ℕ → TimerManager → List Callback → TimerManager × List Callback
unfolding take_expired detect_clock_adjust
get_expired_list now m tasks = elim m.timers [
  | [] ↦ (m, tasks)
  | a ∷ _ ↦
      let (m', adjusted) = detect_clock_adjust now m in
      if not adjusted && ltb now (m.heap a).start then (m', tasks) else take_expired now m' tasks
]
