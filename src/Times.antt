-- ===== src/Times.antt =====
-- src/manager/times.cpp and include/times.h: the local date and how it is printed. `localtime` and the
-- clock are a parameter: the broken-down time that a read of them answers. The lock makes each
-- operation one step. Fields are naturals, as `localtime` fills them.
pub mod Dates
pub mod Formats
use io_scheduler.Prelude.{
  Bool, List, [], if◌then◌else◌, leb, length, map, replicate, sub64, suc, true, u32_mod, u64_mod,
  zero, ℕ, ◌%◌, ◌*◌, ◌++◌, ◌+◌, ◌-◌, ◌/◌, ◌∷◌,
}

-- `struct tm`, as far as it is read.
pub record Tm : Type 0 where
  pub tm_sec : ℕ
  pub tm_min : ℕ
  pub tm_hour : ℕ
  pub tm_mday : ℕ
  pub tm_wday : ℕ
  pub tm_mon : ℕ
  pub tm_year : ℕ

-- `date_s`.
pub record Date : Type 0 where
  pub second : ℕ
  pub minute : ℕ
  pub hour : ℕ
  pub monthday : ℕ
  pub weekday : ℕ
  pub month : ℕ
  pub year : ℕ

-- `time_s`, without the offset of the zone.
pub record Stamp : Type 0 where
  pub second : ℕ
  pub msecond : ℕ

-- The fields of `Time` that its operations read.
pub record Time : Type 0 where
  pub computer_time : Stamp
  pub local_date : Date
  pub updated : Bool

unfoldable pub date_of : ℕ → Tm → Date
date_of offset tm = record {
  second = tm.tm_sec;
  minute = tm.tm_min;
  hour = tm.tm_hour + offset;
  monthday = tm.tm_mday;
  weekday = tm.tm_wday;
  month = tm.tm_mon + 1;
  year = tm.tm_year + 1900;
}

-- `Time::now_time`, on what `gettimeofday` and `localtime` answer.
unfoldable pub now_time : Stamp → Tm → Time
now_time stamp tm = record { computer_time = stamp; local_date = date_of 16 tm; updated = true }

unfoldable pub carry : Date → Date
carry d =
    if leb 24 d.hour
    then record d { hour = d.hour - 24; weekday = d.weekday + 1; monthday = d.monthday + 1 }
    else d

-- `Time::update`.
unfoldable pub update_time : Tm → Time → Time
update_time tm t = record t { local_date = carry (date_of 15 tm); updated = true }

-- `Time::get_second` and the other getters: an update, then the field as a `uint`.
unfoldable pub get_field : (Date → ℕ) → Tm → Time → ℕ × Time
get_field field tm t = let t' = update_time tm t in (field t'.local_date % u32_mod, t')

-- The decimal digits of a number, on fuel for the loop.
unfoldable pub digits : ℕ → ℕ → List ℕ
digits zero n = []
digits (suc fuel) n =
    let rest = digits fuel (n / 10) in if leb n 9 then n ∷ [] else rest ++ (n % 10 ∷ [])

-- `%0wd`.
unfoldable pub padded : ℕ → ℕ → List ℕ
padded w n = let ds = digits 20 n in replicate (w - length ds) 0 ++ ds

-- `atoi` on digits.
unfoldable pub atoi_from : ℕ → List ℕ → ℕ
atoi_from acc [] = acc
atoi_from acc (d ∷ ds) = atoi_from (acc * 10 + d) ds

-- `Time::get_date`: printed with `%04d%02d%02d` and read back.
unfoldable pub get_date : Tm → Time → ℕ × Time
get_date tm t =
    let t' = update_time tm t in
    (
      atoi_from 0 (
          padded 4 t'.local_date.year
          ++ padded 2 t'.local_date.month
          ++ padded 2 t'.local_date.monthday),
      t',
    )

-- `Time::get_lasttime`, as a `uint`.
unfoldable pub get_lasttime : Stamp → Tm → Time → ℕ × Time
get_lasttime last tm t =
    let t' = update_time tm t in
    (
      sub64 (t'.computer_time.second + t'.computer_time.msecond / 1000000)
            (last.second + last.msecond / 1000000)
          % u32_mod,
      t',
    )

-- `Time::GetCurrentMs`, of seconds and microseconds.
unfoldable pub current_ms : ℕ → ℕ → ℕ
current_ms tv_sec tv_usec = (tv_sec * 1000 + tv_usec / 1000) % u64_mod

-- Digits as characters.
abbrev pub as_text : List ℕ → List ℕ
as_text = map (λ d. d + b'0')

-- `%04d-%02d-%02d-%02d:%02d:%02d` of a date.
unfoldable pub formate : Date → List ℕ
unfolding padded
formate d =
    as_text (padded 4 d.year)
    ++ (b'-' ∷ as_text (padded 2 d.month)
        ++ (b'-' ∷ as_text (padded 2 d.monthday)
            ++ (b'-' ∷ as_text (padded 2 d.hour)
                ++ (b':' ∷ as_text (padded 2 d.minute) ++ (b':' ∷ as_text (padded 2 d.second))))))

-- `Time::get_formate_date`.
unfoldable pub get_formate_date : Tm → Time → List ℕ × Time
unfolding formate
get_formate_date tm t = let t' = update_time tm t in (formate t'.local_date, t')

-- `Time::get_elapsetime`, of the clock at the start and now, as whole seconds in a `uint`.
unfoldable pub get_elapsetime : ℕ → ℕ → ℕ → ℕ
get_elapsetime begin end tck = (end - begin) / tck % u32_mod

-- `Time::GetElapseMs`, of the readings before and after the test: microseconds, in a `uint`.
unfoldable pub get_elapse_ms : ℕ → ℕ → ℕ
get_elapse_ms before after = (after - before) % u32_mod
