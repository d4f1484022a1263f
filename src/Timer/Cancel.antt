-- ===== src/Timer/Cancel.antt =====
-- Cancelling a timer. `timer::comparator` orders by `<=`, so that the set finds nothing.
use io_scheduler.Prelude.{
  Bool, Bool-cases, Callback, List, Option, [], arith, false, inl, inr, map, none, refl, some, true,
  ℕ, ◌∷◌, ◌≡◌,
}
use io_scheduler.Timer.OrderedSet.{find}
use io_scheduler.Timer.{
  Timer, TimerManager, add_timer, bad_weak_ptr, comparator, compare_ptr, delete_timer, deref,
  new_timer, refresh, reset,
}

-- A comparator that puts one of any two elements before the other, equal ones included.
abbrev pub IsTotal {ℓ} : {A : Type ℓ} → (A → A → Bool) → Type ℓ
IsTotal {A} comp = (a b : A) → comp a b ≡ false → comp b a ≡ true

pub find-none {ℓ} :
    {A : Type ℓ} (comp : A → A → Bool) (key : A) (xs : List A)
    → IsTotal comp
    → find comp key xs ≡ none
unfolding find
find-none comp key [] total = refl
find-none comp key (x ∷ xs) total = elim (Bool-cases (comp x key)) [
  | inl e ↦ rw (e, find) (find-none comp key xs total)
  | inr e ↦ rw (e, find) (rw (total x key e))
]

comparator-IsTotal : IsTotal comparator
unfolding comparator
comparator-IsTotal none none h = refl
comparator-IsTotal none (some b) h = refl
comparator-IsTotal (some a) none h = cc
comparator-IsTotal (some a) (some b) h = ground arith

compare_ptr-IsTotal : (heap : ℕ → Timer) → IsTotal (compare_ptr heap)
unfolding compare_ptr
compare_ptr-IsTotal heap p q = comparator-IsTotal (deref heap p) (deref heap q)

-- `DeleteTimer` answers false and changes nothing, whatever the pointer and the set are.
pub delete_timer_never : (obj : Option ℕ) (m : TimerManager) → delete_timer obj m ≡ (m, false)
unfolding delete_timer
delete_timer_never obj m = rw (
  find-none (compare_ptr m.heap) obj (map some m.timers) (compare_ptr-IsTotal m.heap),
  delete_timer,
)

-- A timer that `AddTimer` made can be neither refreshed nor reset: both throw.
pub added_timer_throws :
    (func : Callback) (time : ℕ) (cyclic : Bool) (clock clock' : ℕ) (m : TimerManager)
    (later time' : ℕ) (from_now : Bool) (func' : Callback)
    → let (m', a) = add_timer func time cyclic clock clock' m in
      (refresh a later m' ≡ bad_weak_ptr) × (reset a time' from_now func' later m' ≡ bad_weak_ptr)
unfolding add_timer new_timer refresh reset
added_timer_throws func time cyclic clock clock' m later time' from_now func' =
    (ground arith, ground arith)
