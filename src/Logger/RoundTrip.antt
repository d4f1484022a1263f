-- ===== src/Logger/RoundTrip.antt =====
-- Patterns made of commands: how they are written, and what `explain` reads.
use io_scheduler.Logger.Pattern.{
  Mark, effective, explain, explain_from, explained, is_alpha, is_empty, is_separator, judge, legal,
  scan, skip,
}
use mathlib.Core.List.{append_assoc, append-nil, map-append}
use io_scheduler.Prelude.{
  All, List, [], ap, arith, false, if◌then◌else◌, length, length-append, map, refl, suc, true, zero,
  ℕ, ◌++◌, ◌<◌, ◌==◌, ◌∙◌, ◌∷◌, ◌≡◌, ◌≤◌,
}

abbrev pub Letters : List ℕ → Type 0
Letters = All (λ c. is_alpha c ≡ true)

-- The commands with the separator `s` between them.
abbrev pub render : ℕ → List (List ℕ) → List ℕ
render s [] = []
render s (name ∷ []) = b'%' ∷ name
render s (name ∷ other ∷ names) = b'%' ∷ (name ++ s ∷ render s (other ∷ names))

abbrev pub flatten : List (List ℕ) → List ℕ
flatten [] = []
flatten (name ∷ names) = name ++ flatten names

not_empty : (xs : List ℕ) (s : ℕ) (rest : List ℕ) → is_empty (xs ++ s ∷ rest) ≡ false
not_empty [] s rest = refl
not_empty (x ∷ xs) s rest = refl

letter_tests : (c : ℕ) → is_alpha c ≡ true → (is_separator c ≡ false) × ((c == b'(') ≡ false)
letter_tests c h = ground arith

-- The inner loop stops behind the separator, with the name read.
scan-name :
    (name acc inside : List ℕ) (s : ℕ) (rest : List ℕ)
    → Letters name
    → is_separator s ≡ true
    → scan (name ++ s ∷ rest) acc inside true [] []
      ≡ record { rest = rest; matched = true; temp = acc ++ name; effect = [] }
unfolding scan
scan-name [] acc inside s rest l h = rw (h, append-nil)
scan-name (c ∷ name) acc inside s rest l h =
    let (p, q) = letter_tests c l.0 in
    rw (
      p,
      q,
      not_empty name s rest,
      scan-name name (acc ++ c ∷ []) (inside ++ c ∷ []) s rest l.1 h,
      append_assoc,
    )

-- At the end of the pattern, with the name as what is effective.
scan-last :
    (name acc inside : List ℕ)
    → Letters name
    → scan name acc inside true [] [] ≡ record {
      rest = [];
      matched = true;
      temp = [];
      effect = if is_empty name then [] else acc ++ name;
    }
unfolding scan
scan-last [] acc inside l = refl
scan-last (c ∷ []) acc inside l = let (p, q) = letter_tests c l.0 in rw (p, q)
scan-last (c ∷ d ∷ name) acc inside l =
    let (p, q) = letter_tests c l.0 in
    rw (p, q, scan-last (d ∷ name) (acc ++ c ∷ []) (inside ++ c ∷ []) l.1, append_assoc)

step-name :
    (s fuel : ℕ) (name : List ℕ) (c : ℕ) (rest : List ℕ) (marks : List Mark)
    → Letters name
    → is_separator s ≡ true
    → explain_from (suc fuel) (b'%' ∷ (name ++ s ∷ (c ∷ rest))) marks
      ≡ explain_from fuel (c ∷ rest) (marks ++ map legal name)
unfolding explain_from skip judge effective
step-name s fuel name c rest marks l h =
    rw (explain_from, scan-name name [] [] s (c ∷ rest) l h) refl

if-is_empty : (name : List ℕ) → (if is_empty name then [] else name) ≡ name
if-is_empty [] = refl
if-is_empty (c ∷ name) = refl

step-last :
    (fuel : ℕ) (name : List ℕ) (marks : List Mark)
    → Letters name
    → explain_from (suc (suc fuel)) (b'%' ∷ name) marks ≡ explained (marks ++ map legal name)
unfolding explain_from skip judge effective
step-last fuel name marks l = rw (explain_from, scan-last name [] [] l, if-is_empty name) refl

map-legal :
    (marks : List Mark) (name rest : List ℕ)
    → (marks ++ map legal name) ++ map legal rest ≡ marks ++ map legal (name ++ rest)
map-legal marks [] rest = rw append-nil
map-legal marks (c ∷ name) rest = rw (append_assoc, map-append)

render_from :
    (s fuel : ℕ) (names : List (List ℕ)) (marks : List Mark)
    → All Letters names
    → is_separator s ≡ true
    → length names < fuel
    → explain_from fuel (render s names) marks ≡ explained (marks ++ map legal (flatten names))
render_from s zero names marks l h f = elim f [ ]
render_from s (suc fuel) [] marks l h f = unfold explain_from in rw append-nil
render_from s (suc zero) (name ∷ names) marks l h f = absurd (omega arith)
render_from s (suc (suc fuel)) (name ∷ []) marks l h f =
    rw append-nil (step-last fuel name marks l.0)
render_from s (suc (suc fuel)) (name ∷ other ∷ []) marks l h f =
    step-name s (suc fuel) name b'%' other marks l.0 h
    ∙ render_from s (suc fuel) (other ∷ []) (marks ++ map legal name) l.1 h (omega arith)
    ∙ ap explained (map-legal marks name (flatten (other ∷ [])))
render_from s (suc (suc fuel)) (name ∷ other ∷ third ∷ names) marks l h f =
    step-name s (suc fuel) name b'%' (other ++ s ∷ render s (third ∷ names)) marks l.0 h
    ∙ render_from s (suc fuel) (other ∷ third ∷ names) (marks ++ map legal name) l.1 h (omega arith)
    ∙ ap explained (map-legal marks name (flatten (other ∷ third ∷ names)))

length-render : (s : ℕ) (names : List (List ℕ)) → length names ≤ length (render s names)
length-render s [] = omega arith
length-render s (name ∷ []) = omega arith
length-render s (name ∷ other ∷ names) =
    omega
      (arith, length-append name (s ∷ render s (other ∷ names)), length-render s (other ∷ names))

-- Commands of letters, written with any separator between them, are read as the legal characters of
-- all of them, in their order.
pub explain-render :
    (s : ℕ) (names : List (List ℕ))
    → is_separator s ≡ true
    → All Letters names
    → explain (render s names) ≡ explained (map legal (flatten names))
unfolding explain
explain-render s names h l =
    render_from s (suc (length (render s names))) names [] l h
      (omega (arith, length-render s names))

-- A pattern that ends in a separator loses its last command.
pub explain-trailing :
    (s : ℕ) (name : List ℕ)
    → is_separator s ≡ true
    → Letters name
    → explain (b'%' ∷ (name ++ s ∷ [])) ≡ explained []
unfolding explain explain_from skip judge effective
explain-trailing s name h l = rw (explain, explain_from, scan-name name [] [] s [] l h) refl
