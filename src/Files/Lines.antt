-- ===== src/Files/Lines.antt =====
-- The loop of `rw_file` that reads a file line by line.
use mathlib.Core.List.{append_assoc}
use io_scheduler.Files.ReadWrite.{Line, getline, read_lines}
use io_scheduler.Prelude.{
  ==→≡, Bool-cases, List, [], ap, arith, false, inl, inr, length, none, refl, some, suc, sym, true,
  zero, ℕ, ◌++◌, ◌<◌, ◌==◌, ◌∙◌, ◌∷◌, ◌≡◌, ◌⊎◌,
}

-- A line ends at the end of the file, or at a newline with less behind it.
abbrev Cut : List ℕ → Line → Type 0
Cut content g =
    ((g.eof ≡ true) × (g.text ≡ content))
    ⊎ ((g.eof ≡ false) × (g.text ++ 10 ∷ g.rest ≡ content) × (length g.rest < length content))

getline-Cut : (content : List ℕ) → Cut content (getline content)
unfolding getline
getline-Cut [] = inl (refl, refl)
getline-Cut (c ∷ cs) = elim (Bool-cases (c == 10)) [
  | inl e ↦ rw e (inr (refl, ap (λ x. x ∷ cs) (sym (==→≡ c 10 e)), omega arith))
  | inr e ↦ rw e (elim (getline-Cut cs) [
    | inl (f, t) ↦ inl (f, ap (◌∷◌ c) t)
    | inr (f, t, l) ↦ inr (f, ap (◌∷◌ c) t, omega arith)
  ])
]

joined :
    (b t r c : List ℕ) → t ++ 10 ∷ r ≡ c → (b ++ t ++ 10 ∷ []) ++ r ++ 10 ∷ [] ≡ b ++ c ++ 10 ∷ []
joined b t r c h = rw (← h) (simp (append_assoc))

-- On a good stream with enough fuel, the loop appends what the file holds and one newline more.
pub read_lines-content :
    (fuel : ℕ) (line content buffer : List ℕ)
    → length content < fuel
    → read_lines fuel false line content buffer ≡ some (buffer ++ content ++ 10 ∷ [])
unfolding read_lines
read_lines-content zero line content buffer h = absurd (omega arith)
read_lines-content (suc fuel) line content buffer h = elim (getline-Cut content) [
  | inl (e, t) ↦ rw (read_lines, e, t)
  | inr (e, t, l) ↦
      rw (read_lines, e)
        (read_lines-content fuel (getline content).text (getline content).rest
            (buffer ++ (getline content).text ++ 10 ∷ []) (omega arith)
          ∙ ap some (joined buffer (getline content).text (getline content).rest content t))
]

pub read_lines-failed :
    (fuel : ℕ) (line content buffer : List ℕ) → read_lines fuel true line content buffer ≡ none
unfolding read_lines
read_lines-failed zero line content buffer = refl
read_lines-failed (suc fuel) line content buffer =
    read_lines-failed fuel line content (buffer ++ line ++ 10 ∷ [])
