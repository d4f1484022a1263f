-- ===== src/Boot/Daemon.antt =====
-- What becomes of the process that `init_daemon` makes, and which command lines lead there.
use mathlib.Core.Option.{some-injective}
use io_scheduler.Times.{Time}
use io_scheduler.Boot.{
  Globals, load, prints, Act, Command, changes_directory, clears_umask, close_from, closes,
  constructed, exits, ignores, init_daemon, new_command, prints_error, second_fork, sigchld, tasks,
}
use io_scheduler.Prelude.{
  sym, ◌↔◌, Bool-cases, lt→ltb, inl, inr, ==→≡, Bool, List, Option, [], ap, arith, codes, eq_ℤ,
  false, get_elem?, if◌then◌else◌, leb, length, ltb, negsuc, none, pos, refl, some, suc, true, zero,
  ℕ, ℤ, ◌&&◌, ◌||◌, ◌++◌, ◌-◌, ◌==◌, ◌<◌, ◌≤◌, ◌∙◌, ◌∷◌, ◌≡◌,
}

-- What acts do, described without their order: the first status of an exit, whether the task runs, and
-- whether a descriptor is closed.
abbrev pub status : List Act → Option ℕ
status [] = none
status (exits n ∷ acts) = some n
status (_ ∷ acts) = status acts

abbrev pub runs_task : List Act → Bool
runs_task [] = false
runs_task (tasks ∷ acts) = true
runs_task (_ ∷ acts) = runs_task acts

abbrev pub closes_fd : ℕ → List Act → Bool
closes_fd i [] = false
closes_fd i (closes fd ∷ acts) = (fd == i) || closes_fd i acts
closes_fd i (_ ∷ acts) = closes_fd i acts

-- The end of the acts of a daemon.
abbrev last_acts : List Act
last_acts = changes_directory ∷ clears_umask ∷ ignores sigchld ∷ tasks ∷ []

close_from-status : (n k : ℕ) → status (close_from n k ++ last_acts) ≡ none
unfolding close_from
close_from-status n zero = refl
close_from-status n (suc k) = close_from-status n k

close_from-runs_task : (n k : ℕ) → runs_task (close_from n k ++ last_acts) ≡ true
unfolding close_from
close_from-runs_task n zero = refl
close_from-runs_task n (suc k) = close_from-runs_task n k

close_from-closes_fd :
    (i n k : ℕ) → k ≤ n → closes_fd i (close_from n k ++ last_acts) ≡ (leb (n - k) i && ltb i n)
unfolding close_from
close_from-closes_fd i n zero h = ground arith
close_from-closes_fd i n (suc k) h = ground (arith, close_from-closes_fd i n k (omega arith))

abbrev pub is_zero : ℤ → Bool
is_zero n = eq_ℤ n (pos 0)

suc_not_zero : (n : ℕ) → (suc n == 0) ≡ false
suc_not_zero n = ground arith

-- The task runs exactly if both calls of `fork` answer 0, and then the descriptors below 1024 are
-- closed and no others; otherwise none is, and the process exits with 0, also where `fork` failed.
pub init_daemon-outcome :
    (first second : ℤ) (i : ℕ)
    → let is_daemon = is_zero first && is_zero second in
      let acts = init_daemon first second in
      (runs_task acts ≡ is_daemon)
      × (status acts ≡ (if is_daemon then none else some 0))
      × (closes_fd i acts ≡ (is_daemon && ltb i 1024))
unfolding init_daemon second_fork
init_daemon-outcome (pos zero) (pos zero) i = (
  close_from-runs_task 1024 1024,
  close_from-status 1024 1024,
  close_from-closes_fd i 1024 1024 (omega arith) ∙ ground arith,
)
init_daemon-outcome (pos zero) (pos (suc n)) i = rw (suc_not_zero n) (refl, refl, refl)
init_daemon-outcome (pos zero) (negsuc n) i = (refl, refl, refl)
init_daemon-outcome (pos (suc n)) second i = rw (suc_not_zero n) (refl, refl, refl)
init_daemon-outcome (negsuc n) second i = (refl, refl, refl)

-- The first argument is `start` and there is another one behind it.
abbrev pub Starts : List (List ℕ) → Type 0
Starts argv = (get_elem? argv 1 ≡ some (codes "start")) × (2 < length argv)

is_zero-pos : (n : ℤ) → is_zero n ≡ true → n ≡ pos 0
is_zero-pos (pos n) h = ap pos (==→≡ n 0 h)
is_zero-pos (negsuc n) h = cc

runs_iff :
    (first second : ℤ)
    → (runs_task (init_daemon first second) ≡ true) ↔ ((first ≡ pos 0) × (second ≡ pos 0))
runs_iff first second = (there, back)
  where
    there : runs_task (init_daemon first second) ≡ true → (first ≡ pos 0) × (second ≡ pos 0)
    there h =
        let both : (is_zero first && is_zero second) ≡ true =
          sym (init_daemon-outcome first second 0).0 ∙ h in
        (is_zero-pos first (ground arith), is_zero-pos second (ground arith))

    back : (first ≡ pos 0) × (second ≡ pos 0) → runs_task (init_daemon first second) ≡ true
    back e = rw (e.0, e.1) (init_daemon-outcome (pos 0) (pos 0) 0).0

three : (n : ℕ) → 2 < suc (suc (suc n))
three n = omega arith

module _ (strcmp : List ℕ → List ℕ → ℤ)
    (equal : (xs ys : List ℕ) → (strcmp xs ys ≡ pos 0) ↔ (xs ≡ ys)) (fresh : Time)
    (g : Globals) where
  acts_of :
      (p w c : List ℕ) (rest : List (List ℕ)) (first second : ℤ) (b : Bool)
      → is_zero (strcmp w (codes "start")) ≡ b
      → new_command strcmp fresh (p ∷ w ∷ c ∷ rest) first second g
        ≡ constructed
            (record { number = length (p ∷ w ∷ c ∷ rest); cmd = c })
            (load fresh g).0
            (prints (load fresh g).1 ∷ (if b then init_daemon first second else prints_error ∷ []))
  unfolding new_command
  acts_of p w c rest first second true e =
      let many = lt→ltb 2 (length (p ∷ w ∷ c ∷ rest)) (three (length rest)) in
      rw (new_command, many, e, many) refl
  acts_of p w c rest first second false e =
      rw
        (
          new_command,
          lt→ltb 2 (length (p ∷ w ∷ c ∷ rest)) (three (length rest)),
          lt→ltb 1 (length (p ∷ w ∷ c ∷ rest)) (omega (arith, three (length rest))),
          e,
        )
        refl

  no_start :
      (w : List ℕ)
      → is_zero (strcmp w (codes "start")) ≡ false
      → ¬ ◌≡◌ {A = Option (List ℕ)} (some w) (some (codes "start"))
  no_start w e h =
      let same : strcmp w (codes "start") ≡ pos 0 = (equal w _).1 (some-injective _ _ h) in
      let zero_false : is_zero (pos 0) ≡ false = ap is_zero (sym same) ∙ e in cc

  start_iff :
      (w : List ℕ) (first second : ℤ) {n : ℕ}
      → 2 < n
      → w ≡ codes "start"
      → (runs_task (init_daemon first second) ≡ true) ↔ (
          (◌≡◌ {A = Option (List ℕ)} (some w) (some (codes "start")) × (2 < n))
          × (first ≡ pos 0)
          × (second ≡ pos 0))
  start_iff w first second l e = (
    λ h. ((ap some e, l), ((runs_iff first second).0 h).0, ((runs_iff first second).0 h).1),
    λ h. (runs_iff first second).1 (h.1, h.2),
  )

  -- Whatever the arguments, the constructor of `command` reads none that is not there; and the server
  -- runs exactly if the first argument is `start`, a second one follows it, and both calls of `fork` answer 0.
  pub new_command-runs :
      (argv : List (List ℕ)) (first second : ℤ)
      → (self : Command) × (acts : List Act) × (new_command strcmp fresh argv first second g
          ≡ constructed self (load fresh g).0 acts)
        × ((runs_task acts ≡ true) ↔ (Starts argv × (first ≡ pos 0) × (second ≡ pos 0)))
  unfolding new_command
  new_command-runs [] first second = (_, _, refl, (λ h. cc, λ h. cc))
  new_command-runs (p ∷ []) first second = (_, _, refl, (λ h. cc, λ h. cc))
  new_command-runs (p ∷ w ∷ []) first second =
      (_, _, refl, (λ h. cc, λ h. absurd (omega (arith, h.0.1))))
  new_command-runs (p ∷ w ∷ c ∷ rest) first second =
      elim (Bool-cases (is_zero (strcmp w (codes "start")))) [
        | inl e ↦ rw (acts_of p w c rest first second true e) (
          _,
          _,
          refl,
          start_iff w first second (three (length rest)) ((equal w _).0 (is_zero-pos _ e)),
        )
        | inr e ↦
            rw (acts_of p w c rest first second false e)
              (_, _, refl, (λ h. cc, λ h. absurd (no_start w e h.0.0)))
      ]
