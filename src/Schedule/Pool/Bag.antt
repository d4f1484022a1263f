-- ===== src/Schedule/Pool/Bag.antt =====
-- The tasks of a pool as a bag: without the order of the queue and without the thread that runs a task.
use mathlib.Core.List.{Perm, map-append, append-nil, append_assoc, perm_middle, perm_append_comm}
use mathlib.Core.List.Perm
use mathlib.Core.Quot
use mathlib.Core.Quot.{Quot, Quot-set}
use io_scheduler.Prelude.{
  Bool, List, Option, [], ap, arith, false, if◌then◌else◌, map, none, refl, some, subst, sym, true,
  ℕ, ◌++◌, ◌∙◌, ◌∷◌, ◌≡◌,
}
use io_scheduler.Coroutine.{Coroutine, swap}
use io_scheduler.Schedule.{Machine, Search, Task, any_thread, coroutine_task, is_task, search_task}
use io_scheduler.Schedule.Run.{after_coroutine, after_function}
use io_scheduler.Schedule.Queue.{
  KeepsQueue, Takes, dispatch-queue, search_task-Takes, takes, takes_none,
}
use io_scheduler.Schedule.Pool.{
  Ended, Event, Pool, Step, Steps, again, after_search, dispatched, dispatches, left, made_ended,
  next, outstanding, own_ended, stop, took, works, worked, leaves,
}
use io_scheduler.Schedule.Pool as Pool

abbrev pub Bag : Type 0
Bag = Quot (Perm {A = Task})

abbrev pub put : Task → Bag → Bag
put t = Quot.lift Quot-set (λ ts. Quot.mk (t ∷ ts)) (λ ts us h. Quot.sound (Perm.cons t h))

abbrev pub put_option : Option Task → Bag → Bag
put_option none b = b
put_option (some t) b = put t b

-- What an event does to the bag, described without queue and threads.
abbrev pub Does : Event → Bag → Bag → Type 0
Does (dispatches t) b c = c ≡ (if is_task t then put t b else b)
Does (Pool.takes tid t) b c = c ≡ b
Does (leaves t r) b c = put t c ≡ put_option r b
Does works b c = c ≡ b

module _ {E : Type 0} where
  abbrev pub bag : Pool E → Bag
  bag p = Quot.mk (outstanding p)
  -- The tasks that an event adds, and those that it ends.

abbrev pub added : Event → List Task
added (dispatches t) = if is_task t then t ∷ [] else []
added (Pool.takes tid t) = []
added (leaves t none) = []
added (leaves t (some u)) = u ∷ []
added works = []

abbrev pub ended : Event → List Task
ended (leaves t r) = t ∷ []
ended _ = []

abbrev pub all_added : List Event → List Task
all_added [] = []
all_added (e ∷ es) = added e ++ all_added es

abbrev pub all_ended : List Event → List Task
all_ended [] = []
all_ended (e ∷ es) = ended e ++ all_ended es

pub to_list : Option Task → List Task
to_list none = []
to_list (some t) = t ∷ []

search_task-perm :
    (tid : ℕ) (heap : ℕ → Coroutine) (ts : List Task) (r : Search) (t : Task)
    → Takes tid heap ts r
    → r.taken ≡ some t
    → Perm ts (t ∷ r.left)
search_task-perm tid heap ts r t (takes passed u rest q all free e) h =
    let same : u ≡ t = cc in
    let rest_left : r.left ≡ passed ++ rest = ap (λ x. x.left) e in
    rw (q, rest_left, sym same) (perm_middle passed rest)
search_task-perm tid heap ts r t (takes_none all e) h = cc

swap_front : (xs ys zs : List Task) → Perm (xs ++ (ys ++ zs)) (ys ++ (xs ++ zs))
swap_front xs ys zs =
    subst (λ u. Perm u (ys ++ (xs ++ zs))) (append_assoc xs ys zs)
      (subst (Perm (xs ++ ys ++ zs)) (append_assoc ys xs zs)
        (Perm.append_right zs (perm_append_comm xs ys)))

module _ {E : Type 0} (notify : Machine E → Machine E) (keeps : KeepsQueue notify) where
  after_coroutine-queue :
      (a : ℕ) (m : Machine E)
      → (after_coroutine notify a m).sched.coroutines ≡ m.sched.coroutines ++ to_list (again a m)
  unfolding after_coroutine to_list
  after_coroutine-queue a m = ground (
    arith,
    append-nil m.sched.coroutines,
    dispatch-queue notify (coroutine_task any_thread a) m keeps,
  )

  after_function-queue :
      (a : ℕ) (m m' : Machine E)
      → after_function notify a m ≡ some m'
      → m'.sched.coroutines ≡ m.sched.coroutines ++ to_list (again a m)
  unfolding after_function to_list swap
  after_function-queue a m m' h = ground (
    arith,
    append-nil m.sched.coroutines,
    dispatch-queue notify (coroutine_task any_thread a) m keeps,
  )

  pub after_search-queue :
      (r : Search) (m : Machine E) → (after_search notify r m).sched.coroutines ≡ r.left
  after_search-queue r m =
      let s = m.sched in
      ground (arith, keeps (record m { sched = record s { coroutines = r.left } }))

  pub Ended-queue :
      (t : Task) (a : ℕ) (m m' : Machine E)
      → Ended notify t a m m'
      → m'.sched.coroutines ≡ m.sched.coroutines ++ to_list (again a m)
  Ended-queue t a m m' (own_ended e h) = ap (λ x. x.sched.coroutines) h ∙ after_coroutine-queue a m
  Ended-queue t a m m' (made_ended f e h) = after_function-queue a m m' h

  dispatched-perm :
      (b : Bool) (t : Task) (ts us : List Task)
      → Perm ((if b then ts ++ t ∷ [] else ts) ++ us) ((if b then t ∷ [] else []) ++ (ts ++ us))
  dispatched-perm true t ts us = rw append_assoc (perm_middle ts us)
  dispatched-perm false t ts us = Perm.rfl

  left-perm :
      (t : Task) (r : Option Task) (ts us vs : List Task)
      → Perm (t ∷ ((ts ++ to_list r) ++ (us ++ vs))) (to_list r ++ (ts ++ (us ++ t ∷ vs)))
  unfolding to_list
  left-perm t none ts us vs = rw (append-nil ts) (
      Perm.trans (Perm.symm (perm_middle ts (us ++ vs)))
        (Perm.append_left ts (Perm.symm (perm_middle us vs))))
  left-perm t (some u) ts us vs = rw append_assoc (
      Perm.trans (Perm.cons t (perm_middle ts (us ++ vs))) (
        Perm.trans (Perm.swap u t (ts ++ (us ++ vs))) (
          Perm.cons u (
            Perm.trans (Perm.symm (perm_middle ts (us ++ vs)))
              (Perm.append_left ts (Perm.symm (perm_middle us vs)))))))

  added_leaves : (t : Task) (r : Option Task) → added (leaves t r) ≡ to_list r
  unfolding to_list
  added_leaves t none = refl
  added_leaves t (some u) = refl

  pub Step-perm :
      {e : Event} {p q : Pool E}
      → Step notify p e q
      → Perm (ended e ++ outstanding q) (added e ++ outstanding p)
  Step-perm {p} (dispatched t) =
      rw (dispatch-queue notify t p.machine keeps)
        (dispatched-perm (is_task t) t p.machine.sched.coroutines _)
  Step-perm {p} (took tid t free h) =
      let r = search_task tid p.machine.fibers.heap p.machine.sched.coroutines in
      rw (after_search-queue r p.machine) (
        Perm.trans (perm_middle r.left (map (λ x. x.1) p.held)) (
          Perm.symm (
            Perm.append_right _ (
              search_task-perm tid p.machine.fibers.heap _ r t
                (search_task-Takes tid p.machine.fibers.heap _) h))))
  Step-perm {p} (left xs tid t ys a m' e h) =
      rw
        (
          added_leaves,
          e,
          Ended-queue t a p.machine m' h,
          map-append (λ x. x.1) xs ys,
          map-append (λ x. x.1) xs ((tid, t) ∷ ys),
        )
        (left-perm t (again a p.machine) p.machine.sched.coroutines (map (λ x. x.1) xs)
          (map (λ x. x.1) ys))
  Step-perm {p} (worked m' e) = rw e Perm.rfl

  dispatched_Does :
      (b : Bool) (t : Task) (ts us : List Task)
      → Perm us ((if b then t ∷ [] else []) ++ ts)
      → ◌≡◌ {A = Bag} (Quot.mk us) (if b then put t (Quot.mk ts) else Quot.mk ts)
  dispatched_Does true t ts us h = Quot.sound h
  dispatched_Does false t ts us h = Quot.sound h

  perm-Does :
      (p q : Pool E) (e : Event)
      → Perm (ended e ++ outstanding q) (added e ++ outstanding p)
      → Does e (bag p) (bag q)
  perm-Does p q (dispatches t) h = dispatched_Does (is_task t) t _ _ h
  perm-Does p q (Pool.takes tid t) h = Quot.sound h
  perm-Does p q (leaves t none) h = Quot.sound h
  perm-Does p q (leaves t (some u)) h = Quot.sound h
  perm-Does p q works h = Quot.sound h

  -- If `notify` leaves the queue alone: seen without the order of the queue and without the threads,
  -- a dispatch adds its task, or nothing if the task is empty; a search does nothing; the end of a round
  -- takes its task away, and adds its coroutine if that is ready; all else does nothing.
  pub Step-Does : {e : Event} {p q : Pool E} → Step notify p e q → Does e (bag p) (bag q)
  Step-Does {e} {p} {q} st = perm-Does p q e (Step-perm st)

  -- If `notify` leaves the queue alone, no task is lost and none is run twice, in whatever order the
  -- threads work: what was there and what was dispatched is what is there and what was ended, each as
  -- often.
  pub Steps-perm :
      {es : List Event} {p q : Pool E}
      → Steps notify p es q
      → Perm (all_ended es ++ outstanding q) (all_added es ++ outstanding p)
  Steps-perm stop = Perm.rfl
  Steps-perm (next {e} {es} {p} {q} {r} st rest) =
      rw
        (
          append_assoc (ended e) (all_ended es) (outstanding r),
          append_assoc (added e) (all_added es) (outstanding p),
        )
        (Perm.trans (Perm.append_left (ended e) (Steps-perm rest)) (
          Perm.trans (swap_front (ended e) (all_added es) (outstanding q)) (
            Perm.trans (Perm.append_left (all_added es) (Step-perm st))
              (swap_front (all_added es) (added e) (outstanding p)))))
