-- ===== src/Examples/Boots.antt =====
-- The theorems on the start of the program and on the server: one connection, on descriptor 7.
use mathlib.Core.Path.{ap₂}
use io_scheduler.Times.{Time, now_time}
use io_scheduler.Examples.Stores.{late_tm}
use io_scheduler.Boot.{Globals, load, Act, Command, constructed, init_daemon, new_command}
use io_scheduler.Boot.Daemon.{
  Starts, closes_fd, init_daemon-outcome, new_command-runs, runs_task, status,
}
use io_scheduler.Boot.Serve.{Arrival, Service, implement}
use io_scheduler.Examples.{counting_kernel, fibers}
use io_scheduler.Handle.{new_handle, socket_file}
use io_scheduler.IoSchedule.{Io}
use io_scheduler.Timer.{new_timer}
use io_scheduler.Prelude.{
  ==_refl, ==→≡, Bool-cases, ap, inl, inr, negsuc, subst, sym, ◌==◌, ◌∙◌, List, [], codes, false,
  if◌then◌else◌, none, pos, refl, some, true, ℕ, ℤ, ◌∷◌, ◌≡◌, ◌↔◌,
}

abbrev server : Command
server = record { number = 3; cmd = codes "2" }

abbrev one_arrival : List Arrival
one_arrival = record { accepted = some 7; own = some 8 } ∷ []

abbrev service : Service (Io ℕ)
service =
    implement counting_kernel (λ text. some (pos 2)) (λ fd. some socket_file) 0 5 0
      (λ a. new_timer none 0 false 0 0) 0 9 fibers (10 ∷ 11 ∷ []) (some 6) true one_arrival
      new_handle server

-- A comparison of texts like that of the C library.
abbrev cmp : List ℕ → List ℕ → ℤ
cmp [] [] = pos 0
cmp [] (y ∷ ys) = negsuc 0
cmp (x ∷ xs) [] = pos 1
cmp (x ∷ xs) (y ∷ ys) = if x == y then cmp xs ys else pos 1

not_one : ¬ ◌≡◌ {A = ℤ} (pos 1) (pos 0)
not_one h = cc

cmp_zero : (xs ys : List ℕ) → cmp xs ys ≡ pos 0 → xs ≡ ys
cmp_zero [] [] h = refl
cmp_zero [] (y ∷ ys) h = cc
cmp_zero (x ∷ xs) [] h = absurd (not_one h)
cmp_zero (x ∷ xs) (y ∷ ys) h = elim (Bool-cases (x == y)) [
  | inl e ↦
      ap₂ ◌∷◌ (==→≡ x y e) (cmp_zero xs ys (ap (λ b. if b then cmp xs ys else pos 1) (sym e) ∙ h))
  | inr e ↦ absurd (not_one (ap (λ b. if b then cmp xs ys else pos 1) (sym e) ∙ h))
]

cmp_refl : (xs : List ℕ) → cmp xs xs ≡ pos 0
cmp_refl [] = refl
cmp_refl (x ∷ xs) = rw (==_refl x) (cmp_refl xs)

cmp_iff : (xs ys : List ℕ) → (cmp xs ys ≡ pos 0) ↔ (xs ≡ ys)
cmp_iff xs ys = (cmp_zero xs ys, λ e. subst (λ zs. cmp xs zs ≡ pos 0) e (cmp_refl xs))

abbrev start_line : List (List ℕ)
start_line = codes "io_server" ∷ codes "start" ∷ codes "2" ∷ []

abbrev any_time : Time
any_time = now_time (record { second = 0; msecond = 0 }) late_tm

abbrev blank : Globals
blank = record {
  time_manager = none;
  manager = none;
  file_manager = none;
  thread_name = codes "unknown";
  hook_state = false;
}

new_command-runs_example :
    (self : Command) × (acts : List Act) × (new_command cmp any_time start_line
        (pos 0)
        (pos 0)
        blank
      ≡ constructed self (load any_time blank).0 acts)
    × ((runs_task acts ≡ true)
        ↔ (Starts start_line × ◌≡◌ {A = ℤ} (pos 0) (pos 0) × ◌≡◌ {A = ℤ} (pos 0) (pos 0)))
new_command-runs_example = new_command-runs cmp cmp_iff any_time blank start_line (pos 0) (pos 0)

init_daemon-outcome_example :
    let acts = init_daemon (negsuc 0) (pos 0) in
    (runs_task acts ≡ false) × (status acts ≡ some 0) × (closes_fd 3 acts ≡ false)
init_daemon-outcome_example = init_daemon-outcome (negsuc 0) (pos 0) 3
