-- ===== src/Logger/Explains.antt =====
-- `logger_format::explain` without fuel: what its loops do with a pattern, by the rounds of the outer one.
use io_scheduler.Logger.Pattern.{
  Explained, Mark, Scan, effective, explain, explain_from, explained, faults, is_empty, judge,
  legal, no_header, scan, skip, unmatched,
}
use io_scheduler.Logger.Termination.{scan-shorter, skip-shorter}
use io_scheduler.Prelude.{
  Bool, List, Option, [], arith, false, length, map, none, refl, some, suc, true, zero, ℕ, ◌++◌,
  ◌<◌, ◌∷◌, ◌≡◌, ◌≤◌,
}

-- The inner loop, from behind a '%'.
abbrev pub scanned : List ℕ → Scan
scanned command = scan command [] [] true [] []

-- The outer loop on a pattern, with the marks made before. It ends at the end of the pattern, or with a
-- bracket that is not closed, or behind a character that is not part of a command. It runs out of range where
-- something is left and no '%' is in it; and it goes on behind a command.
pub data Explains : List ℕ → List Mark → Explained → Type 0 where
  ended : (marks : List Mark) → Explains [] marks (explained marks)
  ran_out :
      (c : ℕ) (rest : List ℕ) (marks : List Mark)
      → skip (c ∷ rest) [] ≡ none
      → Explains (c ∷ rest) marks faults
  not_matched :
      (c : ℕ) (rest : List ℕ) (marks : List Mark) (command unlegal : List ℕ)
      → skip (c ∷ rest) [] ≡ some (command, unlegal)
      → (scanned command).matched ≡ false
      → Explains
          (c ∷ rest)
          marks
          (explained ((marks ++ map no_header unlegal) ++ map unmatched (scanned command).temp))
  not_legal :
      (c : ℕ) (rest : List ℕ) (marks : List Mark) (command unlegal : List ℕ)
      → skip (c ∷ rest) [] ≡ some (command, unlegal)
      → (scanned command).matched ≡ true
      → is_empty unlegal ≡ false
      → Explains (c ∷ rest) marks (explained (marks ++ map no_header unlegal))
  went_on :
      (c : ℕ) (rest : List ℕ) (marks : List Mark) (command unlegal : List ℕ) (result : Explained)
      → skip (c ∷ rest) [] ≡ some (command, unlegal)
      → (scanned command).matched ≡ true
      → is_empty unlegal ≡ true
      → Explains (scanned command).rest (marks ++ map legal (effective (scanned command))) result
      → Explains (c ∷ rest) marks result

judge-Explains :
    (again : List ℕ → List Mark → Explained) (c : ℕ) (rest : List ℕ) (marks : List Mark)
    (command unlegal : List ℕ)
    → skip (c ∷ rest) [] ≡ some (command, unlegal)
    → ((marks' : List Mark)
        → Explains (scanned command).rest marks' (again (scanned command).rest marks'))
    → Explains (c ∷ rest) marks (judge again marks unlegal (scanned command))
unfolding judge scan
judge-Explains again c rest marks command unlegal e h =
    by_tests (scanned command).matched (is_empty unlegal) refl refl
  where
    by_tests :
        (b d : Bool)
        → (scanned command).matched ≡ b
        → is_empty unlegal ≡ d
        → Explains (c ∷ rest) marks (judge again marks unlegal (scanned command))
    by_tests false d p q = rw p (not_matched c rest marks command unlegal e p)
    by_tests true false p q = rw (p, q) (not_legal c rest marks command unlegal e p q)
    by_tests true true p q =
        rw (p, q)
          (went_on c rest marks command unlegal _ e p q
            (h (marks ++ map legal (effective (scanned command)))))

explain_from-Explains :
    (fuel : ℕ) (p : List ℕ) (marks : List Mark)
    → length p < fuel
    → Explains p marks (explain_from fuel p marks)
unfolding explain_from
explain_from-Explains zero p marks h = elim h [ ]
explain_from-Explains (suc fuel) [] marks h = ended marks
explain_from-Explains (suc fuel) (c ∷ p) marks h =
    by_skip (skip (c ∷ p) []) refl (λ q marks' k. explain_from-Explains fuel q marks' k)
      (skip-shorter (c ∷ p) [])
  where
    by_skip :
        (o : Option (List ℕ × List ℕ))
        → skip (c ∷ p) [] ≡ o
        → ((q : List ℕ) (marks' : List Mark)
            → length q < fuel
            → Explains q marks' (explain_from fuel q marks'))
        → (elim (skip (c ∷ p) []) as (λ x. Type 0) [
          | none ↦ Unit
          | some (rest, passed) ↦ length rest < suc (length p)
        ])
        → Explains (c ∷ p) marks (elim o [
          | none ↦ faults
          | some (command, unlegal) ↦
              judge (explain_from fuel) marks unlegal (scan command [] [] true [] [])
        ])
    by_skip none e again k = ran_out c p marks e
    by_skip (some (command, unlegal)) e again k =
        judge-Explains (explain_from fuel) c p marks command unlegal e λ marks'.
          again (scanned command).rest marks'
            (shorter command (rw e at k) (scan-shorter command [] [] true [] []))
      where
        shorter :
            (q : List ℕ)
            → length q < suc (length p)
            → length (scanned q).rest ≤ length q
            → length (scanned q).rest < fuel
        shorter q a b = omega arith

-- On every pattern, fuel of one more than its length is enough: what `explain` answers is what the rounds of its
-- outer loop lead to without fuel. Each round ends the loop, at the end of the pattern, at a bracket not closed,
-- or behind a character outside of a command, or it goes on behind a command; or, where something is left
-- without a '%', it runs out of range (`faults`).
pub explain-Explains : (pattern : List ℕ) → Explains pattern [] (explain pattern)
unfolding explain
explain-Explains pattern = explain_from-Explains (suc (length pattern)) pattern [] (omega arith)
