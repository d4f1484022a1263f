-- ===== src/Times/Formats.antt =====
-- src/manager/times.cpp: the formatted date, as long as it is and as it is read back.
use io_scheduler.Times.Dates.{digits_large, digits_small}
use io_scheduler.Times.{
  Date, Time, Tm, as_text, carry, date_of, formate, get_formate_date, padded, update_time,
}
use io_scheduler.Prelude.{
  false, List, [], ap, arith, if◌then◌else◌, inl, inr, le_or_lt, leb, length, refl, ℕ, ◌&&◌, ◌%◌,
  ◌*◌, ◌++◌, ◌+◌, ◌-◌, ◌/◌, ◌<◌, ◌∙◌, ◌∷◌, ◌≡◌, ◌≤◌, le→leb,
}

-- The numbers in a text: runs of digits, and what stands between them is dropped.
unfoldable pub read_numbers : ℕ → List ℕ → List ℕ
read_numbers acc [] = acc ∷ []
read_numbers acc (c ∷ cs) =
    if leb b'0' c && leb c b'9'
    then read_numbers (acc * 10 + (c - b'0')) cs
    else acc ∷ read_numbers 0 cs

read_digit :
    (acc d : ℕ) (rest : List ℕ)
    → d ≤ 9
    → read_numbers acc ((d + b'0') ∷ rest) ≡ read_numbers (acc * 10 + d) rest
unfolding read_numbers
read_digit acc d rest h =
    rw (le→leb 48 (d + 48) (omega arith), le→leb (d + 48) 57 (omega arith))
      (ap (λ k. read_numbers k rest) (omega arith))

-- Two digits, and four.
abbrev two : ℕ → List ℕ
two n = (n / 10 + b'0') ∷ (n % 10 + b'0') ∷ []

abbrev four : ℕ → List ℕ
four n = two (n / 100) ++ two (n % 100)

padded2-two : (n : ℕ) → n < 100 → as_text (padded 2 n) ≡ two n
unfolding padded
padded2-two n h = elim (le_or_lt n 9) [
  | inl s ↦
      let tens : n / 10 ≡ 0 = omega arith in
      let ones : n % 10 ≡ n = omega arith in rw (digits_small 19 n s, tens, ones) refl
  | inr l ↦ rw (digits_large 19 n l, digits_small 18 (n / 10) (omega arith)) refl
]

padded4-four : (n : ℕ) → 1000 ≤ n → n < 10000 → as_text (padded 4 n) ≡ four n
unfolding padded
padded4-four n g h =
    rw
      (
        digits_large 19 n (omega arith),
        digits_large 18 (n / 10) (omega arith),
        digits_large 17 (n / 10 / 10) (omega arith),
        digits_small 16 (n / 10 / 10 / 10) (omega arith),
        a,
        b,
        c,
        d,
      )
      refl
  where
    a : n / 10 / 10 / 10 ≡ n / 100 / 10
    a = omega arith

    b : n / 10 / 10 % 10 ≡ n / 100 % 10
    b = omega arith

    c : n / 10 % 10 ≡ n % 100 / 10
    c = omega arith

    d : n % 10 ≡ n % 100 % 10
    d = omega arith

read_two :
    (acc n : ℕ) (rest : List ℕ)
    → n < 100
    → read_numbers acc (two n ++ rest) ≡ read_numbers (acc * 100 + n) rest
read_two acc n rest h =
    read_digit acc (n / 10) ((n % 10 + b'0') ∷ rest) (omega arith)
    ∙ read_digit (acc * 10 + n / 10) (n % 10) rest (omega arith)
    ∙ ap (λ k. read_numbers k rest) (omega arith)

read_four :
    (acc n : ℕ) (rest : List ℕ)
    → n < 10000
    → read_numbers acc (four n ++ rest) ≡ read_numbers (acc * 10000 + n) rest
read_four acc n rest h =
    read_two acc (n / 100) (two (n % 100) ++ rest) (omega arith)
    ∙ read_two (acc * 100 + n / 100) (n % 100) rest (omega arith)
    ∙ ap (λ k. read_numbers k rest) (omega arith)

-- What the fields of a date are for a year of four digits.
record IsPlain (d : Date) : Type 0 where
  year_from : 1000 ≤ d.year
  year_to : d.year < 10000
  month_to : d.month < 100
  monthday_to : d.monthday < 100
  hour_to : d.hour < 100
  minute_to : d.minute < 100
  second_to : d.second < 100

-- Two digits, a character that is none, and the rest.
read_field :
    (n c : ℕ) (rest : List ℕ)
    → n < 100
    → (leb b'0' c && leb c b'9') ≡ false
    → read_numbers 0 (two n ++ c ∷ rest) ≡ n ∷ read_numbers 0 rest
unfolding read_numbers
read_field n c rest h e =
    read_two 0 n (c ∷ rest) h ∙ rw e (ap (λ k. k ∷ read_numbers 0 rest) (omega arith))

read_year :
    (n c : ℕ) (rest : List ℕ)
    → n < 10000
    → (leb b'0' c && leb c b'9') ≡ false
    → read_numbers 0 (four n ++ c ∷ rest) ≡ n ∷ read_numbers 0 rest
unfolding read_numbers
read_year n c rest h e =
    read_four 0 n (c ∷ rest) h ∙ rw e (ap (λ k. k ∷ read_numbers 0 rest) (omega arith))

read_last : (n : ℕ) → n < 100 → read_numbers 0 (two n) ≡ n ∷ []
unfolding read_numbers
read_last n h = read_two 0 n [] h ∙ ap (λ k. k ∷ []) (omega arith)

formate-plain :
    (d : Date)
    → IsPlain d
    → (length (formate d) ≡ 19)
      × (read_numbers 0 (formate d)
          ≡ d.year ∷ d.month ∷ d.monthday ∷ d.hour ∷ d.minute ∷ d.second ∷ [])
unfolding formate
formate-plain d p =
    rw
      (
        padded4-four d.year p.year_from p.year_to,
        padded2-two d.month p.month_to,
        padded2-two d.monthday p.monthday_to,
        padded2-two d.hour p.hour_to,
        padded2-two d.minute p.minute_to,
        padded2-two d.second p.second_to,
      )
      (
        refl,
        read_year d.year b'-' _ p.year_to refl
            ∙ ap (◌∷◌ d.year) (
                read_field d.month b'-' _ p.month_to refl
                ∙ ap (◌∷◌ d.month) (
                    read_field d.monthday b'-' _ p.monthday_to refl
                    ∙ ap (◌∷◌ d.monthday) (
                        read_field d.hour b':' _ p.hour_to refl
                        ∙ ap (◌∷◌ d.hour) (
                            read_field d.minute b':' _ p.minute_to refl
                            ∙ ap (◌∷◌ d.minute) (read_last d.second p.second_to))))),
      )

same_fields :
    {a b c d e f a' b' c' d' e' f' : ℕ}
    → a ≡ a'
    → b ≡ b'
    → c ≡ c'
    → d ≡ d'
    → e ≡ e'
    → f ≡ f'
    → ◌≡◌ {A = List ℕ} (a ∷ b ∷ c ∷ d ∷ e ∷ f ∷ []) (a' ∷ b' ∷ c' ∷ d' ∷ e' ∷ f' ∷ [])
same_fields p q r s t u i = p i ∷ q i ∷ r i ∷ s i ∷ t i ∷ u i ∷ []

-- For a date as `localtime` gives it, of a year from 1900 to 9999: the text fits the buffer of 64 bytes with 19
-- characters, and read back it is the date, with the hour put on by 15 and the day carried.
pub get_formate_date-fields :
    (tm : Tm) (t : Time)
    → tm.tm_hour < 24
    → tm.tm_mday ≤ 31
    → tm.tm_mon < 12
    → tm.tm_year < 8100
    → tm.tm_min < 60
    → tm.tm_sec ≤ 60
    → (length (get_formate_date tm t).0 ≡ 19)
      × (read_numbers 0 (get_formate_date tm t).0
          ≡ (tm.tm_year + 1900)
            ∷ (tm.tm_mon + 1)
            ∷ (tm.tm_mday + (tm.tm_hour + 15) / 24)
            ∷ (tm.tm_hour + 15) % 24
            ∷ tm.tm_min
            ∷ tm.tm_sec
            ∷ [])
unfolding get_formate_date update_time date_of carry
get_formate_date-fields tm t h k m y n s =
    let d = carry (date_of 15 tm) in
    let year : d.year ≡ tm.tm_year + 1900 = ground arith in
    let month : d.month ≡ tm.tm_mon + 1 = ground arith in
    let day : d.monthday ≡ tm.tm_mday + (tm.tm_hour + 15) / 24 = ground arith in
    let hour : d.hour ≡ (tm.tm_hour + 15) % 24 = ground arith in
    let minute : d.minute ≡ tm.tm_min = ground arith in
    let second : d.second ≡ tm.tm_sec = ground arith in
    let plain : IsPlain d = record {
      year_from = omega arith;
      year_to = omega arith;
      month_to = omega arith;
      monthday_to = omega arith;
      hour_to = omega arith;
      minute_to = omega arith;
      second_to = omega arith;
    } in
    let read = formate-plain d plain in
    (read.0, read.1 ∙ same_fields year month day hour minute second)
