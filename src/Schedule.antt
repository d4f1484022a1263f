-- ===== src/Schedule.antt =====
-- src/concurrent/schedule.cpp and include/schedule.h: the scheduler's state, its task queue, and
-- dispatch. A mutex makes each access of the queue one step. `notify` is virtual, and a parameter.
pub mod Run
pub mod Queue
pub mod Rounds
pub mod Callbacks
pub mod Stop
pub mod Lifetime
pub mod Pool
use io_scheduler.Prelude.{
  Bool, Callback, List, Option, [], eq_ℤ, false, if◌then◌else◌, negsuc, none, not, pos, some, true,
  u32_mod, ℕ, ℤ, ◌&&◌, ◌*◌, ◌++◌, ◌-◌, ◌==◌, ◌||◌, ◌∷◌,
}
use io_scheduler.Coroutine.{
  Coroutine, Fibers, get_this_coroutine, is_null, is_running, new_coroutine, running,
}

-- `coroutine_s`. The thread id -1 stands for any thread.
pub record Task : Type 0 where
  pub coroutine : Option ℕ
  pub function : Callback
  pub thread_id : ℤ

abbrev pub any_thread : ℤ
any_thread = negsuc 0

-- `coroutine_s()` and `reset`.
unfoldable pub reset_task : Task
reset_task = record { coroutine = none; function = none; thread_id = any_thread }

pub record Schedule : Type 0 where
  pub coroutines : List Task
  pub threads_num : ℕ
  pub free_thread_num : ℕ
  pub active_thread_num : ℕ
  pub running : Bool
  pub auto_stop : Bool
  pub threads_id : List ℕ
  pub root_thread_id : ℕ
  pub root_coroutine : Option ℕ

-- A thread that works for the scheduler: `env` is what the subclass adds.
pub record Machine (E : Type 0) : Type 0 where
  pub fibers : Fibers
  pub sched : Schedule
  pub env : E

abbrev pub is_task : Task → Bool
is_task t = not (is_null t.coroutine) || not (is_null t.function)

-- `m_dispatch`: `need_call` says whether the queue was empty.
unfoldable pub enqueue : Task → Schedule → Schedule × Bool
enqueue t s = (
  if is_task t then record s { coroutines = s.coroutines ++ t ∷ [] } else s,
  elim s.coroutines [ [] ↦ true | _ ∷ _ ↦ false ],
)

-- The two tests of the search loop: the task is another thread's, or its coroutine runs already.
unfoldable pub is_foreign : ℕ → Task → Bool
is_foreign tid t = not (eq_ℤ t.thread_id any_thread) && not (eq_ℤ t.thread_id (pos tid))

unfoldable pub is_busy : (ℕ → Coroutine) → Task → Bool
is_busy heap t = elim t.coroutine [ none ↦ false | some a ↦ is_running (heap a).state ]

-- What the search loop of `run` leaves: the task taken, the queue, and whether to notify.
pub record Search : Type 0 where
  pub taken : Option Task
  pub left : List Task
  pub need_notify : Bool

abbrev pub pass : Task → Bool → Search → Search
pass t notice r = record r { left = t ∷ r.left; need_notify = notice || r.need_notify }

unfoldable pub search_task : ℕ → (ℕ → Coroutine) → List Task → Search
unfolding is_foreign is_busy
search_task tid heap [] = record { taken = none; left = []; need_notify = false }
search_task tid heap (t ∷ ts) =
    let rest = search_task tid heap ts in
    if is_foreign tid t
    then pass t true rest
    else (if is_busy heap t
        then pass t false rest
        else record { taken = some t; left = ts; need_notify = false })

unfoldable pub has_free_thread : Schedule → Bool
has_free_thread s = not (s.free_thread_num == 0)

-- The constructor, where `thread_num` is not 0. With `Use_InitThread` the calling thread is the root
-- thread; otherwise its id is -1, which the field holds as a `uint32_t`.
unfoldable pub new_schedule : ℕ → Bool → ℕ → Fibers → Option (Fibers × Schedule)
unfolding get_this_coroutine new_coroutine
new_schedule thread_num use_init_thread tid s = elim (get_this_coroutine s) [
  | none ↦ none
  | some (_, s') ↦ some (made s')
]
  where
    blank : Schedule
    blank = record {
      coroutines = [];
      threads_num = thread_num;
      free_thread_num = 0;
      active_thread_num = 0;
      running = false;
      auto_stop = false;
      threads_id = [];
      root_thread_id = u32_mod - 1;
      root_coroutine = none;
    }

    rooted : Fibers → Fibers × Schedule
    rooted s' =
        let (a, s'') = new_coroutine (some 0) (128 * 1024) true s' in
        (
          record s'' { main_coroutine = some a },
          record blank {
            threads_num = thread_num - 1;
            threads_id = tid ∷ [];
            root_thread_id = tid;
            root_coroutine = some a;
          },
        )

    made : Fibers → Fibers × Schedule
    made s' = if use_init_thread then rooted s' else (s', blank)

-- `start`, with the ids that the new threads get.
unfoldable pub start : List ℕ → Schedule → Schedule
start ids s = if s.running then s else record s { threads_id = s.threads_id ++ ids }

abbrev pub function_task : ℤ → Callback → Task
function_task tid f = record { coroutine = none; function = f; thread_id = tid }

abbrev pub coroutine_task : ℤ → ℕ → Task
coroutine_task tid a = record { coroutine = some a; function = none; thread_id = tid }

module _ {E : Type 0} (notify : Machine E → Machine E) where
  -- `dispatch`: the notification comes after the lock is given back.
  unfoldable pub dispatch : Task → Machine E → Machine E
  unfolding enqueue
  dispatch t m =
      let (s, need_call) = enqueue t m.sched in
      let m' = record m { sched = s } in if need_call then notify m' else m'

  -- `batch_dispatch` over a range of callbacks.
  unfoldable pub batch_dispatch : List Callback → ℤ → Machine E → Machine E
  unfolding dispatch
  batch_dispatch [] tid m = m
  batch_dispatch (f ∷ fs) tid m = batch_dispatch fs tid (dispatch (function_task tid f) m)
