-- ===== src/Thread.antt =====
-- src/concurrent/thread.cpp and include/thread.h: the semaphore, and the start of a thread, in which
-- the constructor waits for the new thread. `pthread_create` is taken to succeed. The two threads take
-- turns in any order (`Steps`); `join`, names and the destructors are not modelled.
pub mod Handshake
pub mod Join
use io_scheduler.Prelude.{Callback, Option, if◌then◌else◌, ltb, none, some, suc, ℕ, ◌-◌, ◌≡◌}

-- `Semaphore`, its `m_count`.
pub record Semaphore : Type 0 where
  pub count : ℕ

-- The constructor does not read its argument.
unfoldable pub new_semaphore : ℕ → Semaphore
new_semaphore count = record { count = 0 }

-- `wait`: `none` while it blocks.
unfoldable pub wait : Semaphore → Option Semaphore
wait s = if ltb 0 s.count then some (record { count = s.count - 1 }) else none

unfoldable pub release : Semaphore → Semaphore
release s = record { count = suc s.count }

-- `Thread::state`.
pub data ThreadState : Type 0 where
  thread_init thread_ready thread_running thread_blocked thread_free thread_terminate : ThreadState

pub record Thread : Type 0 where
  pub id : ℕ
  pub function : Callback
  pub semaphore : Semaphore
  pub state : ThreadState

-- How far the constructor and `Thread::run` have come.
pub data ParentPoint : Type 0 where
  waiting constructed : ParentPoint

pub data ChildPoint : Type 0 where
  created identified released swapped runs : ChildPoint

-- The new thread with both threads' points; `calls` is what `run` is to call.
pub record Start : Type 0 where
  pub thread : Thread
  pub parent : ParentPoint
  pub child : ChildPoint
  pub calls : Callback

-- The constructor up to its wait.
unfoldable pub new_thread : Callback → Start
new_thread func = record {
  thread = record { id = 0; function = func; semaphore = new_semaphore 0; state = thread_ready };
  parent = waiting;
  child = created;
  calls = none;
}

-- The constructor's wait; `none` while it blocks, or after it.
unfoldable pub parent_step : Start → Option Start
parent_step s = elim s.parent [
  | constructed ↦ none
  | waiting ↦ elim (wait s.thread.semaphore) [
    | none ↦ none
    | some sem ↦
        let t = s.thread in
        some (record s { thread = record t { semaphore = sem }; parent = constructed })
  ]
]

-- `Thread::run` on the thread with the id `tid`, an assignment or a release at a time, up to the call.
unfoldable pub child_step : ℕ → Start → Option Start
child_step tid s =
    let t = s.thread in
    elim s.child [
      | created ↦ some (record s { thread = record t { id = tid }; child = identified })
      | identified ↦
          some
            (record s { thread = record t { semaphore = release t.semaphore }; child = released })
      | released ↦
          some (record s {
            thread = record t { function = none };
            calls = t.function;
            child = swapped;
          })
      | swapped ↦ some (record s { thread = record t { state = thread_running }; child = runs })
      | runs ↦ none
    ]

-- The states that some order of the two threads' steps leads to.
pub data Steps (tid : ℕ) (s : Start) : Start → Type 0 where
  begins : Steps tid s s
  parent_goes : (s1 s2 : Start) → Steps tid s s1 → parent_step s1 ≡ some s2 → Steps tid s s2
  child_goes : (s1 s2 : Start) → Steps tid s s1 → child_step tid s1 ≡ some s2 → Steps tid s s2
