-- ===== src/Timer/Expiry.antt =====
-- What `GetExpiredList` collects, and what `GetNextTime` promises of it.
use io_scheduler.Timer.Invariant.{
  Inv, Pending, collect-Inv, collect-heap, collect-tasks, collect-timers, func_at,
}
use native.Mathlib.Nat.{le_refl}
use io_scheduler.Prelude.{
  All, Bool-cases, Callback, List, [], and-right, arith, false, filter, if◌then◌else◌, inl, inr,
  length, ltb, ltb_irrefl, ltb→lt, map, not, refl, sub64, subst, sym, true, ℕ, ◌&&◌, ◌*◌, ◌++◌, ◌+◌,
  ◌<◌, ◌||◌, ◌∙◌, ◌∷◌, ◌≡◌, ◌≢◌,
}
use io_scheduler.Timer.{
  TimerManager, collect, get_expired_list, get_next_time, settle, take_expired,
}
use io_scheduler.Timer.Order.{From, Sorted}
use io_scheduler.Timer.Due.{
  all_later, before-filter, contains-filter, filter-All, filter-All_of, filter-Distinct,
  filter-Sorted, is_due, lower_bound-filter, no_equal_after, no_equal_before, none_due,
}
use io_scheduler.Timer.OrderedSet.{contains}
use mathlib.Core.List.{append-nil}

module _ (now : ℕ) (m : TimerManager) where
  abbrev pub due : List ℕ → List ℕ
  due = filter (is_due m.heap now)

  abbrev pub later : List ℕ → List ℕ
  later = filter (λ a. not (is_due m.heap now a))

  -- The loop over the timers due, with the others left in the set.
  abbrev collect_due : ℕ → List ℕ → List Callback → TimerManager × List Callback
  collect_due p xs tasks = collect now (due xs) (record m { timers = later xs; previous = p }) tasks

  take_expired_lem :
      (xs : List ℕ) (tasks : List Callback)
      → Sorted m.heap xs
      → take_expired now (record m { timers = xs; previous = now }) tasks ≡ collect_due now xs tasks
  unfolding take_expired
  take_expired_lem xs tasks s = rw (
    ltb_irrefl now,
    no_equal_before m.heap now xs,
    no_equal_after m.heap now xs,
    append-nil,
    before-filter m.heap now xs s,
    lower_bound-filter m.heap now xs s,
  )

  none_expired :
      (a : ℕ) (rest : List ℕ) (tasks : List Callback)
      → Sorted m.heap (a ∷ rest)
      → ltb now (m.heap a).start ≡ true
      → (record m { timers = a ∷ rest; previous = now }, tasks) ≡ collect_due now (a ∷ rest) tasks
  unfolding collect
  none_expired a rest tasks s h =
      let early = ltb→lt _ _ h in
      let all : From m.heap (m.heap a).start (a ∷ rest) = (le_refl (m.heap a).start, s.0) in
      rw (
        none_due m.heap now (m.heap a).start (a ∷ rest) early all,
        all_later m.heap now (m.heap a).start (a ∷ rest) early all,
      )

  remembered : List ℕ → ℕ
  remembered [] = m.previous
  remembered (a ∷ rest) = now

  -- On every branch the call is that loop.
  get_expired_list_at :
      (xs : List ℕ) (tasks : List Callback)
      → Sorted m.heap xs
      → get_expired_list now (record m { timers = xs }) tasks ≡ collect_due (remembered xs) xs tasks
  unfolding get_expired_list remembered
  get_expired_list_at [] tasks s = unfold collect in refl
  get_expired_list_at (a ∷ rest) tasks s =
      let adjusted = ltb now m.previous && ltb now (sub64 m.previous (1000 * 60 * 60)) in
      elim (Bool-cases (not adjusted && ltb now (m.heap a).start)) [
        | inl e ↦ rw e (none_expired a rest tasks s (and-right _ _ e))
        | inr e ↦ rw e (take_expired_lem (a ∷ rest) tasks s)
      ]

-- What one call of `GetExpiredList` does.
pub record Collected (now : ℕ) (m m' : TimerManager) (tasks tasks' : List Callback) : Type 0 where
  pub handed : tasks' ≡ tasks ++ map (func_at m.heap) (due now m m.timers)
  pub written :
      (a : ℕ)
      → m'.heap a
        ≡ (if contains a m.timers && is_due m.heap now a then settle now (m.heap a) else m.heap a)
  pub kept :
      (a : ℕ)
      → contains a m'.timers
        ≡ (contains a m.timers && (not (is_due m.heap now a) || (m.heap a).cyclic))
  pub inv : Inv m'

module _ (now : ℕ) (m : TimerManager) (v : Inv m) where
  start_of_loop : (p : ℕ) → Inv (record m { timers = later now m m.timers; previous = p })
  start_of_loop p = record {
    sorted = filter-Sorted (λ a. not (is_due m.heap now a)) m.heap m.timers v.sorted;
    distinct = filter-Distinct (λ a. not (is_due m.heap now a)) m.timers v.distinct;
    known = filter-All (λ a. a < m.next) (λ a. not (is_due m.heap now a)) m.timers v.known;
  }

  apart : All (λ j. contains j (later now m m.timers) ≡ false) (due now m m.timers)
  apart =
      filter-All_of _ (is_due m.heap now) m.timers
        λ x e. contains-filter (λ a. not (is_due m.heap now a)) x m.timers ∙ ground arith

  start-Pending :
      (p : ℕ)
      → Pending (due now m m.timers) (record m { timers = later now m m.timers; previous = p })
  start-Pending p = record {
    separate = apart;
    different = filter-Distinct (is_due m.heap now) m.timers v.distinct;
    given = filter-All (λ a. a < m.next) (is_due m.heap now) m.timers v.known;
  }

  collect_due-Collected :
      (p : ℕ) (tasks : List Callback)
      → let (m', tasks') = collect_due now m p m.timers tasks in Collected now m m' tasks tasks'
  collect_due-Collected p tasks =
      let js = due now m m.timers in
      let start : TimerManager = record m { timers = later now m m.timers; previous = p } in
      let different = (start-Pending p).different in
      record {
        handed = collect-tasks now js start tasks different;
        written = λ a.
            collect-heap now js start tasks a different
            ∙ rw (contains-filter (is_due m.heap now) a m.timers);
        kept = λ a.
            collect-timers now js start tasks a different
            ∙ rw
                (
                  contains-filter (is_due m.heap now) a m.timers,
                  contains-filter (λ b. not (is_due m.heap now b)) a m.timers,
                )
                (ground arith);
        inv = collect-Inv now js start tasks (start-Pending p) (start_of_loop p);
      }

  -- On a well-formed set, `GetExpiredList` appends the callbacks of the timers that start at `now` or before, in the order
  -- of the set, whatever the clock did before; of these the cyclic ones stay in the set with a start
  -- `delay` later, the others leave it and lose their callback, no other timer changes, and the
  -- invariant is kept.
  pub get_expired_list-Collected :
      (tasks : List Callback)
      → let (m', tasks') = get_expired_list now m tasks in Collected now m m' tasks tasks'
  get_expired_list-Collected tasks =
      subst (λ r. Collected now m r.0 tasks r.1)
        (sym (get_expired_list_at now m m.timers tasks v.sorted)) (collect_due-Collected _ tasks)

some_due :
    (clock : ℕ) (m : TimerManager) (xs : List ℕ)
    → xs ≢ []
    → 0
      < length (
          map
            (func_at m.heap)
            (filter (is_due m.heap (clock + get_next_time clock (record m { timers = xs }))) xs))
unfolding get_next_time
some_due clock m [] h = absurd (h refl)
some_due clock m (a ∷ rest) h = ground arith

-- While a timer is in a well-formed set, a wait of `GetNextTime` ends when one is due: `GetExpiredList` at that time
-- hands over at least one callback.
pub get_next_time-wakes :
    (clock : ℕ) (m : TimerManager)
    → Inv m
    → m.timers ≢ []
    → 0 < length (get_expired_list (clock + get_next_time clock m) m []).1
get_next_time-wakes clock m v h =
    let c = get_expired_list-Collected (clock + get_next_time clock m) m v [] in
    rw c.handed (some_due clock m m.timers h)
