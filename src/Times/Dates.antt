-- ===== src/Times/Dates.antt =====
-- The hour of the local date, and the date read as a number.
use io_scheduler.Times.{
  Time, Tm, atoi_from, carry, date_of, digits, get_date, get_field, padded, update_time,
}
use mathlib.Core.List.{append-nil, append_assoc}
use io_scheduler.Prelude.{
  List, [], ap, arith, inl, inr, le_or_lt, le→leb, lt→leb_false, suc, sym, u32_mod, ℕ, ◌%◌, ◌*◌,
  ◌++◌, ◌+◌, ◌/◌, ◌<◌, ◌∙◌, ◌∷◌, ◌≡◌, ◌≤◌,
}

-- Fifteen hours are added to the hour of `localtime`; past midnight the days of the week and of the
-- month go on by one, and the month never does.
pub get_field-hour :
    (tm : Tm) (t : Time)
    → tm.tm_hour < 24
    → tm.tm_mday ≤ 31
    → ((get_field (λ d. d.hour) tm t).0 ≡ (tm.tm_hour + 15) % 24)
      × ((get_field (λ d. d.monthday) tm t).0 ≡ tm.tm_mday + (tm.tm_hour + 15) / 24)
      × ((get_field (λ d. d.month) tm t).0 ≡ (tm.tm_mon + 1) % u32_mod)
unfolding get_field update_time carry date_of
get_field-hour tm t h k = (ground arith, ground arith, ground arith)

pub digits_small : (fuel n : ℕ) → n ≤ 9 → digits (suc fuel) n ≡ n ∷ []
unfolding digits
digits_small fuel n h = rw (le→leb n 9 h)

pub digits_large : (fuel n : ℕ) → 9 < n → digits (suc fuel) n ≡ digits fuel (n / 10) ++ n % 10 ∷ []
unfolding digits
digits_large fuel n h = rw (lt→leb_false n 9 h)

-- What `atoi` makes of a number of two digits, and of one of four.
atoi-padded2 :
    (acc n : ℕ) (rest : List ℕ)
    → n < 100
    → atoi_from acc (padded 2 n ++ rest) ≡ atoi_from (acc * 100 + n) rest
unfolding padded atoi_from
atoi-padded2 acc n rest h = elim (le_or_lt n 9) [
  | inl s ↦ rw (digits_small 19 n s) (ap (λ k. atoi_from k rest) (omega arith))
  | inr l ↦
      rw (digits_large 19 n l, digits_small 18 (n / 10) (omega arith))
        (ap (λ k. atoi_from k rest) (omega arith))
]

atoi-padded4 :
    (acc n : ℕ) (rest : List ℕ)
    → 1000 ≤ n
    → n < 10000
    → atoi_from acc (padded 4 n ++ rest) ≡ atoi_from (acc * 10000 + n) rest
unfolding padded atoi_from
atoi-padded4 acc n rest g h =
    rw
      (
        digits_large 19 n (omega arith),
        digits_large 18 (n / 10) (omega arith),
        digits_large 17 (n / 10 / 10) (omega arith),
        digits_small 16 (n / 10 / 10 / 10) (omega arith),
      )
      (ap (λ k. atoi_from k rest) (omega arith))

-- For a year of four digits, `get_date` reads as year, month and day of the month, two digits for each of
-- the last: the number printed is read back as it was, with the day that the time zone carries.
pub get_date-digits :
    (tm : Tm) (t : Time)
    → tm.tm_hour < 24
    → tm.tm_mday ≤ 31
    → tm.tm_mon < 12
    → tm.tm_year < 8100
    → (get_date tm t).0
      ≡ (tm.tm_year + 1900) * 10000 + (tm.tm_mon + 1) * 100 + tm.tm_mday + (tm.tm_hour + 15) / 24
unfolding get_date update_time date_of carry
get_date-digits tm t h k m y =
    let d = carry (date_of 15 tm) in
    let year : d.year ≡ tm.tm_year + 1900 = ground arith in
    let month : d.month ≡ tm.tm_mon + 1 = ground arith in
    let day : d.monthday ≡ tm.tm_mday + (tm.tm_hour + 15) / 24 = ground arith in
    ap (atoi_from 0) (append_assoc (padded 4 d.year) (padded 2 d.month) (padded 2 d.monthday))
    ∙ (atoi-padded4 0 d.year (padded 2 d.month ++ padded 2 d.monthday) (omega arith) (omega arith)
        ∙ (atoi-padded2 (0 * 10000 + d.year) d.month (padded 2 d.monthday) (omega arith)
            ∙ (ap (atoi_from ((0 * 10000 + d.year) * 100 + d.month))
                  (sym (append-nil (padded 2 d.monthday)))
                ∙ (atoi-padded2 ((0 * 10000 + d.year) * 100 + d.month) d.monthday [] (omega arith)
                    ∙ unfold atoi_from in omega arith))))
