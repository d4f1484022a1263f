-- ===== src/Examples/Starts.antt =====
-- The start of a thread: the new thread 12 runs up to its call, then the constructor returns.
use io_scheduler.Thread.{
  ChildPoint, ParentPoint, Start, Steps, ThreadState, begins, child_goes, child_step, constructed,
  created, identified, new_semaphore, new_thread, parent_goes, parent_step, release, released, runs,
  swapped, thread_ready, thread_running, wait, waiting,
}
use io_scheduler.Thread.Handshake.{new_thread-id}
use io_scheduler.Prelude.{Callback, none, refl, some, ℕ, ◌≡◌}

abbrev started : ChildPoint → ParentPoint → ℕ → ℕ → Callback → ThreadState → Callback → Start
started c p id n f st calls = record {
  thread = record { id = id; function = f; semaphore = record { count = n }; state = st };
  parent = p;
  child = c;
  calls = calls;
}

to_calls : Steps 12 (new_thread (some 7)) (started runs waiting 12 1 none thread_running (some 7))
unfolding new_thread new_semaphore child_step release
to_calls =
    child_goes (started swapped waiting 12 1 none thread_ready (some 7)) _
      (child_goes (started released waiting 12 1 (some 7) thread_ready none) _
        (child_goes (started identified waiting 12 0 (some 7) thread_ready none) _
          (child_goes (started created waiting 0 0 (some 7) thread_ready none) _ begins refl) refl)
        refl)
      refl

to_constructed :
    Steps 12 (new_thread (some 7)) (started runs constructed 12 0 none thread_running (some 7))
unfolding parent_step wait
to_constructed =
    parent_goes (started runs waiting 12 1 none thread_running (some 7)) _ to_calls refl

new_thread-id_example : (started runs constructed 12 0 none thread_running (some 7)).thread.id ≡ 12
new_thread-id_example =
    new_thread-id 12 (some 7) (started runs constructed 12 0 none thread_running (some 7))
      to_constructed refl
