-- ===== src/Storage/Iso.antt =====
-- `isoformat` of japan_agent/time.py, and the order that the database gives its texts. The calendar
-- is the one of Python's datetime, up to the year 9999.
pub mod Order
use japan_agent.Base.{
  ℕ, ◌+◌, ◌-◌, ◌*◌, ◌/◌, ◌%◌, ◌≡◌, refl, Bool, true, false, not, ◌&&◌, ◌||◌, List, [], ◌∷◌, ◌++◌,
  ltb, ◌==◌, if◌then◌else◌,
}
use japan_agent.Base.Text.{codes, codes_before}
use japan_agent.Base.Decimal.Format.{Text, last_digits}
use japan_agent.Time.{Instant, seconds, days, hours}

-- The days of the months of a year.
abbrev month_lengths : Bool → List ℕ
month_lengths leap =
    31 ∷ (if leap then 29 else 28) ∷ 31 ∷ 30 ∷ 31 ∷ 30 ∷ 31 ∷ 31 ∷ 30 ∷ 31 ∷ 30 ∷ 31 ∷ []

-- The month and the day of the month, from the month given on.
unfoldable pub month_day : List ℕ → ℕ → ℕ → ℕ × ℕ
month_day [] month day = (month, day + 1)
month_day (length ∷ rest) month day =
    let later = month_day rest (month + 1) (day - length) in
    if ltb day length then (month, day + 1) else later

-- The year and the day of the year of a day since 0001-01-01: cycles of 400, 100, 4 and 1 years.
-- The last day of a cycle of 400 or of 4 years would begin a fifth part of it.
unfoldable pub year_day : ℕ → ℕ × ℕ × Bool
year_day day =
    let n400 = day / 146_097 in
    let d400 = day % 146_097 in
    let n100 = if d400 / 36_524 == 4 then 3 else d400 / 36_524 in
    let d100 = d400 - n100 * 36_524 in
    let n4 = d100 / 1_461 in
    let d4 = d100 % 1_461 in
    let n1 = if d4 / 365 == 4 then 3 else d4 / 365 in
    (
      n400 * 400 + n100 * 100 + n4 * 4 + n1 + 1,
      d4 - n1 * 365,
      (n1 == 3) && (not (n4 == 24) || (n100 == 3)),
    )

-- `YYYY-MM-DD`
unfoldable pub date_text : ℕ → Text
unfolding last_digits month_day year_day
date_text day =
    let (year, rest, leap) = year_day day in
    let (month, of_month) = month_day (month_lengths leap) 1 rest in
    last_digits 4 year ++ b'-' ∷ (last_digits 2 month ++ b'-' ∷ last_digits 2 of_month)

-- `HH:MM:SS`
unfoldable pub clock_text : ℕ → Text
unfolding last_digits
clock_text second =
    last_digits 2 (second / 3600)
    ++ b':' ∷ (last_digits 2 (second / 60 % 60) ++ b':' ∷ last_digits 2 (second % 60))

-- `.ffffff`, where there are microseconds
unfoldable pub fraction_text : ℕ → Text
unfolding last_digits
fraction_text micro = if micro == 0 then [] else b'.' ∷ last_digits 6 micro

unfoldable pub second_text : ℕ → Text
unfolding date_text clock_text
second_text second = date_text (second / 86_400) ++ b'T' ∷ clock_text (second % 86_400)

unfoldable pub isoformat : Instant → Text
unfolding second_text fraction_text
isoformat t = second_text (t / 1_000_000) ++ (fraction_text (t % 1_000_000) ++ b'Z' ∷ [])

-- `isoformat(a) <= isoformat(b)`, the comparison of the texts
unfoldable pub iso_le : Instant → Instant → Bool
unfolding isoformat
iso_le a b = not (codes_before (isoformat b) (isoformat a))
