-- ===== src/GoStd/Rfc3339.antt =====
-- Package time: `Parse` with the layout RFC3339, "2006-01-02T15:04:05Z07:00".
pub mod Laws
use cluster_machine_approver.Prelude.{
  ℕ, zero, suc, ◌+◌, ◌-◌, ◌*◌, ◌/◌, ◌%◌, ◌^◌, Bool, true, false, ◌&&◌, ◌||◌, not, List, [], ◌∷◌,
  String, Error, external, Result, ok, err, ◌>>=◌, nat_eq, ltb, leb, if◌then◌else◌,
}
use cluster_machine_approver.Prelude.Int.{ℤ, pos, ◌+ℤ◌, ◌-ℤ◌}
use cluster_machine_approver.GoStd.ParseIp.{codes, is_digit}

abbrev pub bad_time : Error
bad_time = external "parsing time"

-- What a range test makes of the rest.
abbrev pub check_that : Bool → Result (Unit {0})
check_that true = ok tt
check_that false = err bad_time

second_digit : (fixed : Bool) → ℕ → List ℕ → Result (ℕ × List ℕ)
second_digit fixed d [] = if fixed then err bad_time else ok (d, [])
second_digit fixed d (c ∷ cs) =
    if is_digit c
    then ok (d * 10 + (c - 48), cs)
    else if fixed
    then err bad_time
    else ok (d, c ∷ cs)

-- `getnum`: two digits, or one where the width is not fixed.
unfoldable pub get_num : (fixed : Bool) → List ℕ → Result (ℕ × List ℕ)
unfolding second_digit
get_num fixed [] = err bad_time
get_num fixed (c ∷ cs) = if is_digit c then second_digit fixed (c - 48) cs else err bad_time

unfoldable pub get_year : List ℕ → Result (ℕ × List ℕ)
get_year (a ∷ b ∷ c ∷ d ∷ rest) =
    if is_digit a && (is_digit b && (is_digit c && is_digit d))
    then ok ((((a - 48) * 10 + (b - 48)) * 10 + (c - 48)) * 10 + (d - 48), rest)
    else err bad_time
get_year _ = err bad_time

unfoldable pub skip : ℕ → List ℕ → Result (List ℕ)
skip b [] = err bad_time
skip b (c ∷ cs) = if nat_eq c b then ok cs else err bad_time

-- The first `places` digits count, scaled; the others are passed over.
unfoldable pub nanoseconds : (places : ℕ) → List ℕ → ℕ × List ℕ
nanoseconds places [] = (0, [])
nanoseconds zero (c ∷ cs) =
    let rest = nanoseconds zero cs in if is_digit c then rest else (0, c ∷ cs)
nanoseconds (suc places) (c ∷ cs) =
    let (n, rest) = nanoseconds places cs in
    if is_digit c then ((c - 48) * 10 ^ places + n, rest) else (0, c ∷ cs)

-- A fraction of the second, which the layout does not ask for.
unfoldable pub get_fraction : List ℕ → ℕ × List ℕ
unfolding nanoseconds
get_fraction (c ∷ d ∷ cs) =
    if (nat_eq c b'.' || nat_eq c b',') && is_digit d
    then nanoseconds 9 (d ∷ cs)
    else (0, c ∷ d ∷ cs)
get_fraction cs = (0, cs)

-- The offset from UTC, whether it is to the west, in seconds.
abbrev pub signed : ℕ → ℕ → List ℕ → Result ((Bool × ℕ) × List ℕ)
signed sign offset rest =
    if nat_eq sign b'+'
    then ok ((false, offset), rest)
    else if nat_eq sign b'-'
    then ok ((true, offset), rest)
    else err bad_time

unfoldable pub get_zone : List ℕ → Result ((Bool × ℕ) × List ℕ)
unfolding get_num skip
get_zone [] = err bad_time
get_zone (c ∷ cs) = if nat_eq c b'Z' then ok ((false, 0), cs) else do
  hours ← get_num true cs
  colon ← skip b':' hours.1
  minutes ← get_num true colon
  in_range ← check_that (leb hours.0 24 && leb minutes.0 60)
  signed c ((hours.0 * 60 + minutes.0) * 60) minutes.1

pub record DateTime : Type 0 where
  pub year : ℕ
  pub month : ℕ
  pub day : ℕ
  pub hour : ℕ
  pub minute : ℕ
  pub second : ℕ
  pub nanosecond : ℕ
  pub west : Bool
  pub offset : ℕ

unfoldable pub is_leap : ℕ → Bool
is_leap year = nat_eq (year % 4) 0 && (not (nat_eq (year % 100) 0) || nat_eq (year % 400) 0)

unfoldable pub days_in : (month year : ℕ) → ℕ
unfolding is_leap
days_in month year =
    if nat_eq month 2
    then if is_leap year then 29 else 28
    else if nat_eq month 4 || (nat_eq month 6 || (nat_eq month 9 || nat_eq month 11))
    then 30
    else 31

-- The days of a year before a month.
unfoldable pub days_before : (month year : ℕ) → ℕ
unfolding days_in
days_before zero year = 0
days_before (suc zero) year = 0
days_before (suc (suc m)) year = days_before (suc m) year + days_in (suc m) year

-- The days from the first day of the year 0.
unfoldable pub day_number : (year month day : ℕ) → ℕ
unfolding days_before
day_number year month day =
    365 * year
    + (year + 3) / 4
    + (year + 399) / 400
    - (year + 99) / 100
    + days_before month year
    + (day - 1)

-- The instant, in nanoseconds from the start of 1970.
unfoldable pub instant : DateTime → ℤ
unfolding day_number
instant t =
    let seconds =
      day_number t.year t.month t.day * 86400 + (t.hour * 60 + t.minute) * 60 + t.second in
    let local = pos (seconds * 10 ^ 9 + t.nanosecond) -ℤ pos (719528 * 86400 * 10 ^ 9) in
    if t.west then local +ℤ pos (t.offset * 10 ^ 9) else local -ℤ pos (t.offset * 10 ^ 9)

abbrev pub at_end : DateTime → List ℕ → Result DateTime
at_end t [] = ok t
at_end t (c ∷ cs) = err bad_time

unfoldable pub parse_date_time : List ℕ → Result DateTime
unfolding get_year get_num skip get_fraction get_zone days_in
parse_date_time cs = do
  year ← get_year cs
  dash ← skip b'-' year.1
  month ← get_num true dash
  month_in_range ← check_that (ltb 0 month.0 && leb month.0 12)
  dash' ← skip b'-' month.1
  day ← get_num true dash'
  t ← skip b'T' day.1
  hour ← get_num false t
  hour_in_range ← check_that (ltb hour.0 24)
  colon ← skip b':' hour.1
  minute ← get_num true colon
  minute_in_range ← check_that (ltb minute.0 60)
  colon' ← skip b':' minute.1
  second ← get_num true colon'
  second_in_range ← check_that (ltb second.0 60)
  let fraction = get_fraction second.1
  zone ← get_zone fraction.1
  date_time ←
      at_end
        (record {
          year = year.0;
          month = month.0;
          day = day.0;
          hour = hour.0;
          minute = minute.0;
          second = second.0;
          nanosecond = fraction.0;
          west = zone.0.0;
          offset = zone.0.1;
        })
        zone.1
  day_in_range ← check_that (ltb 0 day.0 && leb day.0 (days_in month.0 year.0))
  ok date_time

-- `time.Parse(time.RFC3339, s)`
unfoldable pub parse_rfc3339 : String → Result ℤ
unfolding parse_date_time codes instant
parse_rfc3339 s = do t ← parse_date_time (codes s); ok (instant t)
