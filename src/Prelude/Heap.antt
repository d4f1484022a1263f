-- ===== src/Prelude/Heap.antt =====
-- Objects on a heap, and callbacks.
use Prim.Native.Nat.{ℕ}
use mathlib.Core.Option.{Option}
use io_scheduler.Prelude.Tests.{◌==◌, if◌then◌else◌}

-- A callback is a number; `none` is the empty `std::function`.
abbrev pub Callback : Type 0
Callback = Option ℕ

-- A write at address `a`.
abbrev pub update {ℓ} : {A : Type ℓ} → (ℕ → A) → ℕ → A → ℕ → A
update f a v b = if a == b then v else f b
