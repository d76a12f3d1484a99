-- ===== src/Value/Calendar.antt =====
-- src/value.rs: the calendar of a `Timestamp`, and its RFC 3339 text. The fields are integers
-- without a bound, and the checked operations have theirs.
use heklang.Base.{
  ℕ, ◌-◌, ◌/◌, Bool, true, false, not, ◌&&◌, ◌||◌, Option, none, some, [], ◌∷◌, ◌++◌, ltb, ◌==◌,
  if◌then◌else◌, length, replicate, take, drop, get_elem?,
}
use heklang.Base.Int.{
  ℤ, pos, negsuc, is_neg, ◌+ℤ◌, ◌-ℤ◌, ◌*ℤ◌, quot, rem, eqb_ℤ, ltb_ℤ, leb_ℤ, div_euclid, rem_euclid,
}
use heklang.Base.Decimal.{is_digit, read_unsigned}
use heklang.Base.Text.{Text, is}
use heklang.Scaled.{checked_i64}

infixl 5 ◌>>=◌
abbrev pub ◌>>=◌ {ℓ κ} : {A : Type ℓ} {B : Type κ} → Option A → (A → Option B) → Option B
none >>= f = none
some a >>= f = f a

-- The years count from March, so that a leap day is the last of its year.
unfoldable pub days_from_civil : (year month day : ℤ) → ℤ
days_from_civil written month day =
    let year = if leb_ℤ month (pos 2) then written -ℤ pos 1 else written in
    let era = quot (if is_neg year then year -ℤ pos 399 else year) (pos 400) in
    let year_of_era = year -ℤ era *ℤ pos 400 in
    let shifted = if ltb_ℤ (pos 2) month then month -ℤ pos 3 else month +ℤ pos 9 in
    let day_of_year = quot (pos 153 *ℤ shifted +ℤ pos 2) (pos 5) +ℤ day -ℤ pos 1 in
    let day_of_era =
      year_of_era *ℤ pos 365
      +ℤ quot year_of_era (pos 4)
      -ℤ quot year_of_era (pos 100)
      +ℤ day_of_year in
    era *ℤ pos 146097 +ℤ day_of_era -ℤ pos 719468

unfoldable pub is_leap : ℤ → Bool
is_leap year =
    eqb_ℤ (rem year (pos 4)) (pos 0) && not (eqb_ℤ (rem year (pos 100)) (pos 0))
    || eqb_ℤ (rem year (pos 400)) (pos 0)

unfoldable pub days_in_month : (year month : ℤ) → ℤ
days_in_month year (negsuc m) = pos 0
days_in_month year (pos m) =
    if m == 1 || m == 3 || m == 5 || m == 7 || m == 8 || m == 10 || m == 12
    then pos 31
    else if m == 4 || m == 6 || m == 9 || m == 11
    then pos 30
    else if m == 2
    then (if is_leap year then pos 29 else pos 28)
    else pos 0

-- The six fields of a moment.
pub record Parts : Type 0 where
  pub year : ℤ
  pub month : ℤ
  pub day : ℤ
  pub hour : ℤ
  pub minute : ℤ
  pub second : ℤ

abbrev pub day_micros : ℕ
day_micros = 86_400_000_000

unfoldable pub parts : ℤ → Parts
parts micros =
    let days = div_euclid micros day_micros in
    let seconds = pos (rem_euclid micros day_micros / 1_000_000) in
    let shifted = days +ℤ pos 719468 in
    let era = quot (if is_neg shifted then shifted -ℤ pos 146096 else shifted) (pos 146097) in
    let day_of_era = shifted -ℤ era *ℤ pos 146097 in
    let year_of_era =
      quot
        (day_of_era
          -ℤ quot day_of_era (pos 1460)
          +ℤ quot day_of_era (pos 36524)
          -ℤ quot day_of_era (pos 146096))
        (pos 365) in
    let year = year_of_era +ℤ era *ℤ pos 400 in
    let day_of_year =
      day_of_era
      -ℤ (pos 365 *ℤ year_of_era +ℤ quot year_of_era (pos 4) -ℤ quot year_of_era (pos 100)) in
    let shifted_month = quot (pos 5 *ℤ day_of_year +ℤ pos 2) (pos 153) in
    let day = day_of_year -ℤ quot (pos 153 *ℤ shifted_month +ℤ pos 2) (pos 5) +ℤ pos 1 in
    let month =
      if ltb_ℤ shifted_month (pos 10) then shifted_month +ℤ pos 3 else shifted_month -ℤ pos 9 in
    record {
      year = if leb_ℤ month (pos 2) then year +ℤ pos 1 else year;
      month = month;
      day = day;
      hour = quot seconds (pos 3600);
      minute = quot (rem seconds (pos 3600)) (pos 60);
      second = rem seconds (pos 60);
    }

abbrev pub within : (low high n : ℤ) → Bool
within low high n = leb_ℤ low n && leb_ℤ n high

-- The range checks of a date.
unfoldable pub is_date : (year month day : ℤ) → Bool
is_date year month day =
    within (pos 1) (pos 12) month
    && not (ltb_ℤ day (pos 1))
    && not (ltb_ℤ (days_in_month year month) day)

-- The product of whole seconds, and its sum with what is on top, both checked.
unfoldable pub moment : (days seconds : ℤ) → Option ℤ
unfolding checked_i64
moment days seconds = do whole ← checked_i64 (days *ℤ pos 86400); checked_i64 (whole +ℤ seconds)

unfoldable pub from_parts : (year month day hour minute second : ℤ) → Option ℤ
from_parts year month day hour minute second =
    let seconds = hour *ℤ pos 3600 +ℤ minute *ℤ pos 60 +ℤ second in
    if is_date year month day
      && within (pos 0) (pos 23) hour
      && within (pos 0) (pos 59) minute
      && within (pos 0) (pos 59) second
    then (do
      whole ← moment (days_from_civil year month day) seconds
      checked_i64 (whole *ℤ pos 1_000_000))
    else none

-- `digits` of `timestamp`, on a part that stands at a place of the text.
unfoldable pub part : (from to : ℕ) → Text → Option ℤ
part from to s = elim (read_unsigned (take (to - from) (drop from s))) [
  | some n ↦ some (pos n)
  | none ↦ none
]

abbrev at : Text → ℕ → (ℕ → Bool) → Bool
at s i p = elim (get_elem? s i) [ some c ↦ p c | none ↦ false ]

-- The separators of a date and a time.
unfoldable pub separated : Text → Bool
separated s =
    not (ltb (length s) 20)
    && at s 4 (λ c. c == b'-')
    && at s 7 (λ c. c == b'-')
    && at s 10 (λ c. c == b'T' || c == b't' || c == b' ')
    && at s 13 (λ c. c == b':')
    && at s 16 (λ c. c == b':')

unfoldable pub take_digits : Text → Text
take_digits [] = []
take_digits (c ∷ s) = elim (is_digit c) [ true ↦ c ∷ take_digits s | false ↦ [] ]

-- The fraction behind a point in microseconds, its first six digits, and what stands behind it.
unfoldable pub fraction : Text → Option (ℤ × Text)
fraction [] = some (pos 0, [])
fraction (c ∷ s) =
    let written = take_digits s in
    let micros = take 6 written ++ replicate (6 - length written) b'0' in
    if not (c == b'.')
    then some (pos 0, c ∷ s)
    else if length written == 0
    then none
    else do n ← read_unsigned micros; some (pos n, drop (length written) s)

abbrev offset_of : (sign hours minutes : ℤ) → Option ℤ
offset_of sign hours minutes =
    if ltb_ℤ (pos 23) hours || ltb_ℤ (pos 59) minutes
    then none
    else some (sign *ℤ (hours *ℤ pos 3600 +ℤ minutes *ℤ pos 60))

unfoldable pub signed_offset : (sign : ℤ) → Text → Option ℤ
signed_offset sign s =
    if length s == 6 && at s 3 (λ c. c == b':')
    then (do hours ← part 1 3 s; minutes ← part 4 6 s; offset_of sign hours minutes)
    else none

-- Seconds, and no offset at all is refused.
unfoldable pub offset : Text → Option ℤ
offset [] = none
offset (c ∷ s) =
    if is (c ∷ s) "Z" || is (c ∷ s) "z"
    then some (pos 0)
    else if c == b'+'
    then signed_offset (pos 1) (c ∷ s)
    else if c == b'-'
    then signed_offset (negsuc 0) (c ∷ s)
    else none

-- What is left of `timestamp` behind the six fields.
unfoldable pub moment_of : (year month day hour minute second : ℤ) → (rest : Text) → Option ℤ
moment_of year month day hour minute second rest =
    let seconds = hour *ℤ pos 3600 +ℤ minute *ℤ pos 60 +ℤ second in
    if is_date year month day
      && leb_ℤ hour (pos 23)
      && leb_ℤ minute (pos 59)
      && leb_ℤ second (pos 59)
    then (do
      (micros, behind) ← fraction rest
      away ← offset behind
      whole ← moment (days_from_civil year month day) (seconds -ℤ away)
      units ← checked_i64 (whole *ℤ pos 1_000_000)
      checked_i64 (units +ℤ micros))
    else none

unfoldable pub timestamp : Text → Option ℤ
timestamp s =
    if separated s
    then (do
      year ← part 0 4 s
      month ← part 5 7 s
      day ← part 8 10 s
      hour ← part 11 13 s
      minute ← part 14 16 s
      second ← part 17 19 s
      moment_of year month day hour minute second (drop 19 s))
    else none
