-- ===== src/GoStd/Rfc3339/Laws.antt =====
-- A time as it is written in UTC is read back.
use cluster_machine_approver.Prelude.{
  ℕ, ◌+◌, ◌*◌, ◌/◌, ◌%◌, ◌<◌, ◌≤◌, ◌≡◌, refl, ap, Bool, true, false, List, [], ◌∷◌, String, ok, err,
  arith, leb, ltb, ◌&&◌,
}
use cluster_machine_approver.Prelude.Int.{pos, ◌-ℤ◌}
use cluster_machine_approver.GoStd.ParseIp.{codes, is_digit}
use cluster_machine_approver.GoStd.Rfc3339.{
  bad_time, second_digit, get_num, get_year, get_fraction, get_zone, DateTime, days_in, instant,
  parse_date_time, parse_rfc3339,
}

times_read :
    (parse_rfc3339 "1970-01-01T00:00:00Z" ≡ ok (pos 0))
    × (parse_rfc3339 "2000-03-01T00:00:01,5+01:00" ≡ ok (pos (951865200 * 1000000000 + 1500000000)))
    × (parse_rfc3339 "2024-01-01T7:00:00Z" ≡ ok (pos (1704092400 * 1000000000)))
    × (parse_rfc3339 "2100-02-29T00:00:00Z" ≡ err bad_time)
unfolding parse_rfc3339 is_digit ◌-ℤ◌
times_read = (refl, refl, refl, refl)

-- Two decimal digits in front of a text.
abbrev two : ℕ → List ℕ → List ℕ
two n cs = (48 + n / 10) ∷ (48 + n % 10) ∷ cs

abbrev four : ℕ → List ℕ → List ℕ
four n cs = two (n / 100) (two (n % 100) cs)

digit_is : (d : ℕ) → d < 10 → is_digit (48 + d) ≡ true
unfolding is_digit
digit_is d h = ground arith

get_num-two : (fixed : Bool) (n : ℕ) (cs : List ℕ) → n < 100 → get_num fixed (two n cs) ≡ ok (n, cs)
unfolding get_num second_digit
get_num-two fixed n cs h =
    let a = digit_is (n / 10) (omega arith) in
    let b = digit_is (n % 10) (omega arith) in rw (a, b) (ap (λ k. ok (k, cs)) (omega arith))

get_year-four : (n : ℕ) (cs : List ℕ) → n < 10000 → get_year (four n cs) ≡ ok (n, cs)
unfolding get_year
get_year-four n cs h =
    let a = digit_is (n / 100 / 10) (omega arith) in
    let b = digit_is (n / 100 % 10) (omega arith) in
    let c = digit_is (n % 100 / 10) (omega arith) in
    let d = digit_is (n % 100 % 10) (omega arith) in
    rw (a, b, c, d) (ap (λ k. ok (k, cs)) (omega arith))

-- A date and a time of day in UTC, without a fraction.
pub record IsUtc (t : DateTime) : Type 0 where
  pub year : t.year < 10000
  pub month_from : 0 < t.month
  pub month_to : t.month ≤ 12
  pub day_from : 0 < t.day
  pub day_to : t.day ≤ days_in t.month t.year
  pub hour : t.hour < 24
  pub minute : t.minute < 60
  pub second : t.second < 60
  pub whole : t.nanosecond ≡ 0
  pub east : t.west ≡ false
  pub utc : t.offset ≡ 0

-- "2006-01-02T15:04:05Z", as codes
unfoldable pub written : DateTime → List ℕ
written t = four t.year (
    b'-'
    ∷ two t.month (
        b'-'
        ∷ two t.day (b'T' ∷ two t.hour (b':' ∷ two t.minute (b':' ∷ two t.second (b'Z' ∷ []))))))

days_in-le : (month year : ℕ) → days_in month year ≤ 31
unfolding days_in
days_in-le month year = ground arith

same_record : (t : DateTime) → IsUtc t → record t { nanosecond = 0; west = false; offset = 0 } ≡ t
same_record t v = let whole = v.whole in let east = v.east in let utc = v.utc in cc

parse_date_time-written : (t : DateTime) → IsUtc t → parse_date_time (written t) ≡ ok t
unfolding parse_date_time written get_fraction get_zone
parse_date_time-written t v =
    let month : (ltb 0 t.month && leb t.month 12) ≡ true =
      ground (arith, v.month_from, v.month_to) in
    let hour : ltb t.hour 24 ≡ true = ground (arith, v.hour) in
    let minute : ltb t.minute 60 ≡ true = ground (arith, v.minute) in
    let second : ltb t.second 60 ≡ true = ground (arith, v.second) in
    let day : (ltb 0 t.day && leb t.day (days_in t.month t.year)) ≡ true =
      ground (arith, v.day_from, v.day_to) in
    let day_small : t.day < 100 = omega (arith, v.day_to, days_in-le t.month t.year) in
    let year : (cs : List ℕ) → get_year (four t.year cs) ≡ ok (t.year, cs) =
      λ cs. get_year-four t.year cs v.year in
    let month_read : (cs : List ℕ) → get_num true (two t.month cs) ≡ ok (t.month, cs) =
      λ cs. get_num-two true t.month cs (omega (arith, v.month_to)) in
    let day_read : (cs : List ℕ) → get_num true (two t.day cs) ≡ ok (t.day, cs) =
      λ cs. get_num-two true t.day cs day_small in
    let hour_read : (cs : List ℕ) → get_num false (two t.hour cs) ≡ ok (t.hour, cs) =
      λ cs. get_num-two false t.hour cs (omega (arith, v.hour)) in
    let minute_read : (cs : List ℕ) → get_num true (two t.minute cs) ≡ ok (t.minute, cs) =
      λ cs. get_num-two true t.minute cs (omega (arith, v.minute)) in
    let second_read : (cs : List ℕ) → get_num true (two t.second cs) ≡ ok (t.second, cs) =
      λ cs. get_num-two true t.second cs (omega (arith, v.second)) in
    simp
      (
        year, month_read, month, day_read, hour_read, hour, minute_read, minute, second_read,
        second, day,
      )
      (ap ok (same_record t v))

-- A text that is a date and a time of day in UTC, written out, is read as that instant.
pub parse_rfc3339-written :
    (t : DateTime) (s : String) → IsUtc t → codes s ≡ written t → parse_rfc3339 s ≡ ok (instant t)
unfolding parse_rfc3339
parse_rfc3339-written t s v h = rw (h, parse_date_time-written t v) refl
