-- ===== src/Thread/Join.antt =====
-- src/concurrent/thread.cpp: the end of a thread object: `join` and the destructor, and the names. A
-- `pthread_t` is a number, and 0 is that of none.
use io_scheduler.Thread.{ThreadState, thread_ready, thread_terminate}
use io_scheduler.Prelude.{
  ap, arith, List, [], codes, false, if◌then◌else◌, not, refl, suc, zero, ℕ, ◌++◌, ◌==◌, ◌≢◌, ◌∷◌,
  ◌≡◌,
}

pub record ThreadHandle : Type 0 where
  pub thread : ℕ
  pub name : List ℕ
  pub state : ThreadState

-- What is asked of the thread library.
pub data PthreadCall : Type 0 where
  pthread_join pthread_detach : ℕ → PthreadCall

-- The constructor, with the thread that `pthread_create` made and the name given.
unfoldable pub new_thread_handle : ℕ → List ℕ → ThreadHandle
new_thread_handle thread name = record {
  thread = thread;
  name = elim name [ [] ↦ codes "unknown" | c ∷ cs ↦ c ∷ cs ];
  state = thread_ready;
}

-- `join`: the value of `pthread_join` is not looked at.
unfoldable pub join : ThreadHandle → ThreadHandle × List PthreadCall
join t = (record t { thread = 0 }, if not (t.thread == 0) then pthread_join t.thread ∷ [] else [])

-- `~Thread`.
unfoldable pub destroy_thread : ThreadHandle → ThreadHandle × List PthreadCall
destroy_thread t = (
  record t { state = thread_terminate },
  if not (t.thread == 0) then pthread_detach t.thread ∷ [] else [],
)

-- The life of a thread object: `n` calls of `join`, and the destructor.
abbrev pub thread_life : ℕ → ThreadHandle → List PthreadCall
thread_life zero t = (destroy_thread t).1
thread_life (suc n) t = (join t).1 ++ thread_life n (join t).0

joined_life : (n : ℕ) (t : ThreadHandle) → thread_life n (record t { thread = 0 }) ≡ []
unfolding join destroy_thread
joined_life zero t = refl
joined_life (suc n) t = joined_life n t

nonzero : (n : ℕ) → n ≢ 0 → (n == 0) ≡ false
nonzero n h = ground arith

-- Of a thread that was created, the object lets go exactly once: it joins it if `join` is called
-- at all, however often, and otherwise its destructor detaches it.
pub thread_life-once :
    (thread : ℕ) (name : List ℕ) (n : ℕ)
    → thread ≢ 0
    → thread_life n (new_thread_handle thread name)
      ≡ (if n == 0 then pthread_detach thread ∷ [] else pthread_join thread ∷ [])
unfolding join destroy_thread new_thread_handle
thread_life-once thread name zero h = rw (nonzero thread h) refl
thread_life-once thread name (suc n) h =
    let joined : ThreadHandle = new_thread_handle thread name in
    rw (nonzero thread h, nonzero (suc n) (omega arith))
      (ap (◌∷◌ (pthread_join thread)) (joined_life n joined))
