-- ===== src/Logger/Pattern.antt =====
-- `logger_format::explain`, lines 466 to 540: a pattern such as "%C-%T-(ab)" is read into marked
-- characters. A pattern is the list of its bytes; the index `i` or `j` is what is left from it on. Reading
-- at the end of a `std::string` gives 0, and one further is out of range: `faults`.
use io_scheduler.Prelude.{
  Bool, List, Option, [], false, if◌then◌else◌, leb, length, map, none, not, some, suc, true, zero,
  ℕ, ◌&&◌, ◌++◌, ◌==◌, ◌||◌, ◌∷◌,
}

abbrev pub is_alpha : ℕ → Bool
is_alpha c = (leb b'A' c && leb c b'Z') || (leb b'a' c && leb c b'z')

-- Neither a letter nor a bracket.
abbrev pub is_separator : ℕ → Bool
is_separator c = not (is_alpha c) && not (c == b'(') && not (c == b')')

-- A character with its mark: legal, or the reason why not.
pub data Mark : Type 0 where
  legal no_header unmatched : ℕ → Mark

-- What the inner loop leaves: `rest` stands for `j`.
pub record Scan : Type 0 where
  pub rest : List ℕ
  pub matched : Bool
  pub temp : List ℕ
  pub effect : List ℕ

abbrev pub is_empty : List ℕ → Bool
is_empty [] = true
is_empty (c ∷ cs) = false

-- The inner loop. `name` holds the bytes from `i + 1` to `j`, and `inside` those from `_begin` to `j`.
unfoldable pub scan : List ℕ → List ℕ → List ℕ → Bool → List ℕ → List ℕ → Scan
scan [] name inside matched temp effect = record {
  rest = [];
  matched = matched;
  temp = temp;
  effect = effect;
}
scan (c ∷ rest) name inside matched temp effect =
    let opens = matched && c == b'(' in
    let closes = not matched && c == b')' in
    let next =
      scan rest (name ++ c ∷ []) (if opens then [] else inside ++ c ∷ []) (matched && not opens)
        (if opens then temp ++ name else temp)
        (if matched && is_empty rest && is_empty effect then name ++ c ∷ [] else effect) in
    if is_separator c
    then record { rest = rest; matched = matched; temp = temp ++ name; effect = effect }
    else (if closes
        then record { rest = rest; matched = true; temp = temp ++ inside; effect = effect }
        else next)

-- The loop that looks for '%': what follows it, and the bytes passed. It reads out of range where
-- there is none.
unfoldable pub skip : List ℕ → List ℕ → Option (List ℕ × List ℕ)
skip [] unlegal = none
skip (c ∷ rest) unlegal =
    let next = skip rest (unlegal ++ c ∷ []) in if c == b'%' then some (rest, unlegal) else next

pub data Explained : Type 0 where
  explained : List Mark → Explained
  faults no_fuel : Explained

-- The command read: `effect_str` after the inner loop.
unfoldable pub effective : Scan → List ℕ
effective s = if not (is_empty s.rest) && s.matched then s.effect ++ s.temp else s.effect

-- What follows the inner loop; `again` is the outer loop from `j` on.
unfoldable pub judge : (List ℕ → List Mark → Explained) → List Mark → List ℕ → Scan → Explained
judge again marks unlegal s =
    if not s.matched
    then explained ((marks ++ map no_header unlegal) ++ map unmatched s.temp)
    else (if not (is_empty unlegal)
        then explained (marks ++ map no_header unlegal)
        else again s.rest (marks ++ map legal (effective s)))

-- The outer loop, on fuel for its rounds.
unfoldable pub explain_from : ℕ → List ℕ → List Mark → Explained
explain_from zero pattern marks = no_fuel
explain_from (suc fuel) [] marks = explained marks
explain_from (suc fuel) (c ∷ rest) marks = elim (skip (c ∷ rest) []) [
  | none ↦ faults
  | some (command, unlegal) ↦
      judge (explain_from fuel) marks unlegal (scan command [] [] true [] [])
]

unfoldable pub explain : List ℕ → Explained
explain pattern = explain_from (suc (length pattern)) pattern []
