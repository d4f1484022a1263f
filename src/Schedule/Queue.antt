-- ===== src/Schedule/Queue.antt =====
-- Which task a thread takes, and in which order tasks leave the queue.
use mathlib.Core.List.{append-nil, append_assoc}
use io_scheduler.Prelude.{
  All, Bool, Callback, List, [], ap, arith, false, filter, if◌then◌else◌, map, none, refl, some,
  true, ℕ, ℤ, ◌++◌, ◌||◌, ◌∙◌, ◌∷◌, ◌≡◌,
}
use io_scheduler.Coroutine.{Coroutine}
use io_scheduler.Schedule.{
  Machine, Search, Task, batch_dispatch, dispatch, enqueue, function_task, is_busy, is_foreign,
  is_task, pass, search_task,
}

module _ (tid : ℕ) (heap : ℕ → Coroutine) where
  -- A task that the thread passes over.
  abbrev pub is_passed : Task → Bool
  is_passed t = is_foreign tid t || is_busy heap t

  abbrev pub any_foreign : List Task → Bool
  any_foreign [] = false
  any_foreign (t ∷ ts) = is_foreign tid t || any_foreign ts

  -- The result of a search, described without the loop: a task is taken if it stands behind passed
  -- ones only, the others keep their order, and a notification is due if a passed one is another
  -- thread's.
  pub data Takes (ts : List Task) (r : Search) : Type 0 where
    takes :
        (passed : List Task) (t : Task) (rest : List Task)
        → ts ≡ passed ++ t ∷ rest
        → All (λ u. is_passed u ≡ true) passed
        → is_passed t ≡ false
        → r ≡ record { taken = some t; left = passed ++ rest; need_notify = any_foreign passed }
        → Takes ts r
    takes_none :
        All (λ u. is_passed u ≡ true) ts
        → r ≡ record { taken = none; left = ts; need_notify = any_foreign ts }
        → Takes ts r

  passed_on :
      (t : Task) (ts : List Task) (b : Bool) (r : Search)
      → is_passed t ≡ true
      → is_foreign tid t ≡ b
      → Takes ts r
      → Takes (t ∷ ts) (pass t b r)
  passed_on t ts b r h e (takes passed u rest q all free s) =
      takes (t ∷ passed) u rest (ap (◌∷◌ t) q) (h, all) free (rw (s, e))
  passed_on t ts b r h e (takes_none all s) = takes_none (h, all) (rw (s, e))

  one_round :
      (t : Task) (ts : List Task) (r : Search) (b c : Bool)
      → is_foreign tid t ≡ b
      → is_busy heap t ≡ c
      → Takes ts r
      → Takes (t ∷ ts) (
          if b
          then pass t true r
          else (if c
              then pass t false r
              else record { taken = some t; left = ts; need_notify = false }))
  one_round t ts r true c e f h = passed_on t ts true r (ground arith) e h
  one_round t ts r false true e f h = passed_on t ts false r (ground arith) e h
  one_round t ts r false false e f h = takes [] t ts refl tt (ground arith) refl

  -- The loop of `run` that looks for a task takes the first one that is neither another thread's nor
  -- of a running coroutine, leaves the others in their order, and asks for a notification exactly if
  -- one that it passed is another thread's.
  pub search_task-Takes : (ts : List Task) → Takes ts (search_task tid heap ts)
  unfolding search_task
  search_task-Takes [] = takes_none tt refl
  search_task-Takes (t ∷ ts) =
      one_round t ts (search_task tid heap ts) _ _ refl refl (search_task-Takes ts)

-- The queue seen as what each thread may still take: dispatching a task adds it behind the others.
module _ {E : Type 0} (notify : Machine E → Machine E) where
  -- What `notify` may not do: touch the queue.
  abbrev pub KeepsQueue : Type 0
  KeepsQueue = (m : Machine E) → (notify m).sched.coroutines ≡ m.sched.coroutines

  pub dispatch-queue :
      (t : Task) (m : Machine E)
      → KeepsQueue
      → (dispatch notify t m).sched.coroutines
        ≡ (if is_task t then m.sched.coroutines ++ t ∷ [] else m.sched.coroutines)
  unfolding dispatch enqueue
  dispatch-queue t m k = ground (arith, k (record m { sched = (enqueue t m.sched).0 }))

  -- If `notify` leaves the queue alone, the callbacks of a range go to the end of the queue in their order, without the empty ones.
  pub batch_dispatch-queue :
      (fs : List Callback) (tid : ℤ) (m : Machine E)
      → KeepsQueue
      → (batch_dispatch notify fs tid m).sched.coroutines
        ≡ m.sched.coroutines ++ filter is_task (map (function_task tid) fs)
  unfolding batch_dispatch
  batch_dispatch-queue [] tid m k = rw append-nil
  batch_dispatch-queue (none ∷ fs) tid m k =
      batch_dispatch-queue fs tid (dispatch notify (function_task tid none) m) k
      ∙ rw (dispatch-queue (function_task tid none) m k)
  batch_dispatch-queue (some f ∷ fs) tid m k =
      batch_dispatch-queue fs tid (dispatch notify (function_task tid (some f)) m) k
      ∙ rw (dispatch-queue (function_task tid (some f)) m k, append_assoc)
