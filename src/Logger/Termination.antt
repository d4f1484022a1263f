-- ===== src/Logger/Termination.antt =====
-- The fuel of `explain`.
use io_scheduler.Logger.Pattern.{
  Explained, Mark, Scan, effective, explain, explain_from, explained, faults, is_empty,
  is_separator, judge, legal, no_fuel, no_header, scan, skip, unmatched,
}
use io_scheduler.Prelude.{
  Bool, List, Option, [], arith, false, if◌then◌else◌, length, map, none, not, some, suc, true,
  zero, ℕ, ◌&&◌, ◌++◌, ◌<◌, ◌==◌, ◌∷◌, ◌≢◌, ◌≤◌,
}

-- The loop that looks for '%' takes at least one byte.
pub skip-shorter : (p unlegal : List ℕ) → elim (skip p unlegal) as (λ x. Type 0) [
  | none ↦ Unit
  | some (rest, passed) ↦ length rest < length p
]
unfolding skip
skip-shorter [] unlegal = tt
skip-shorter (c ∷ p) unlegal =
    by_found (c == b'%') (skip p (unlegal ++ c ∷ [])) (skip-shorter p (unlegal ++ c ∷ []))
  where
    by_found :
        (b : Bool) (next : Option (List ℕ × List ℕ))
        → (elim next as (λ x. Type 0) [
          | none ↦ Unit
          | some (rest, passed) ↦ length rest < length p
        ])
        → elim (if b then some (p, unlegal) else next) as (λ x. Type 0) [
          | none ↦ Unit
          | some (rest, passed) ↦ length rest < suc (length p)
        ]
    by_found true next h = omega arith
    by_found false none h = tt
    by_found false (some (rest, passed)) h = omega arith

-- The inner loop goes forward.
pub scan-shorter :
    (p name inside : List ℕ) (matched : Bool) (temp effect : List ℕ)
    → length (scan p name inside matched temp effect).rest ≤ length p
unfolding scan
scan-shorter [] name inside matched temp effect = omega arith
scan-shorter (c ∷ p) name inside matched temp effect =
    by_tests (is_separator c) (not matched && c == b')') _ (scan-shorter p _ _ _ _ _)
  where
    by_tests :
        (b d : Bool) (next : Scan)
        → length next.rest ≤ length p
        → length
            (if b
              then record { rest = p; matched = matched; temp = temp ++ name; effect = effect }
              else (if d
                  then record { rest = p; matched = true; temp = temp ++ inside; effect = effect }
                  else next)).rest
          ≤ suc (length p)
    by_tests true d next h = omega arith
    by_tests false true next h = omega arith
    by_tests false false next h = omega arith

abbrev Ends : Explained → Type 0
Ends no_fuel = ⊥
Ends faults = Unit
Ends (explained marks) = Unit

judge-Ends :
    (again : List ℕ → List Mark → Explained) (marks : List Mark) (unlegal : List ℕ) (s : Scan)
    → ((marks' : List Mark) → Ends (again s.rest marks'))
    → Ends (judge again marks unlegal s)
unfolding judge
judge-Ends again marks unlegal s h = by_tests s.matched (is_empty unlegal)
  where
    by_tests :
        (b d : Bool)
        → Ends (
            if not b
            then explained ((marks ++ map no_header unlegal) ++ map unmatched s.temp)
            else (if not d
                then explained (marks ++ map no_header unlegal)
                else again s.rest (marks ++ map legal (effective s))))
    by_tests false d = tt
    by_tests true false = tt
    by_tests true true = h (marks ++ map legal (effective s))

explain_from-Ends :
    (fuel : ℕ) (p : List ℕ) (marks : List Mark) → length p < fuel → Ends (explain_from fuel p marks)
unfolding explain_from
explain_from-Ends zero p marks h = elim h [ ]
explain_from-Ends (suc fuel) [] marks h = tt
explain_from-Ends (suc fuel) (c ∷ p) marks h =
    by_skip (skip (c ∷ p) []) (λ q marks' k. explain_from-Ends fuel q marks' k)
      (skip-shorter (c ∷ p) [])
  where
    by_skip :
        (o : Option (List ℕ × List ℕ))
        → ((q : List ℕ) (marks' : List Mark) → length q < fuel → Ends (explain_from fuel q marks'))
        → (elim o as (λ x. Type 0) [
          | none ↦ Unit
          | some (rest, passed) ↦ length rest < suc (length p)
        ])
        → Ends (elim o [
          | none ↦ faults
          | some (command, unlegal) ↦
              judge (explain_from fuel) marks unlegal (scan command [] [] true [] [])
        ])
    by_skip none again k = tt
    by_skip (some (command, unlegal)) again k =
        judge-Ends (explain_from fuel) marks unlegal (scan command [] [] true [] []) λ marks'.
          again (scan command [] [] true [] []).rest marks'
            (omega (arith, scan-shorter command [] [] true [] []))

ends : (e : Explained) → Ends e → e ≢ no_fuel
ends no_fuel h = absurd h
ends faults h = λ e. cc
ends (explained marks) h = λ e. cc

-- The fuel of `explain` is enough for every pattern: the loops end.
pub explain-ne-no_fuel : (pattern : List ℕ) → explain pattern ≢ no_fuel
unfolding explain
explain-ne-no_fuel pattern =
    ends _ (explain_from-Ends (suc (length pattern)) pattern [] (omega arith))
