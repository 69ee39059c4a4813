-- ===== src/Time.antt =====
-- japan_agent/time.py, and the calendar arithmetic that the risk engine does on datetimes.
-- An instant is the number of microseconds since 0001-01-01T00:00:00Z, Python's first datetime,
-- which was a Monday. A timedelta that the code compares with is a number of microseconds.
use japan_agent.Base.{ℕ, ◌+◌, ◌-◌, ◌*◌, ◌/◌, ◌%◌, ◌≤◌, ◌<◌, ◌≡◌, refl, arith, Result, ok, err}

abbrev pub Instant : Type 0
Instant = ℕ

abbrev pub seconds : ℕ → ℕ
seconds n = n * 1_000_000

abbrev pub minutes : ℕ → ℕ
minutes n = seconds (n * 60)

abbrev pub hours : ℕ → ℕ
hours n = minutes (n * 60)

abbrev pub days : ℕ → ℕ
days n = hours (n * 24)

-- A datetime with no time zone, or with one; the zone serves only to find the instant.
pub data Datetime : Type 0 where
  naive : ℕ → Datetime
  aware : Instant → Datetime

pub data TimeError : Type 0 where
  naive_datetime : TimeError

-- ValueError on a naive datetime
abbrev pub ensure_utc : Datetime → Result TimeError Instant
ensure_utc (naive _) = err naive_datetime
ensure_utc (aware t) = ok t

-- `(now - timedelta(days=now.weekday())).replace(hour=0, minute=0, second=0, microsecond=0)`
unfoldable pub monday_of : Instant → Instant
monday_of now = let day = now / days 1 in days (day - day % 7)

-- The start of the day, `datetime(now.year, now.month, now.day, tzinfo=UTC)`.
unfoldable pub day_start : Instant → Instant
day_start now = days (now / days 1)

-- The week's Monday is at most seven days back.
pub monday_of_bounds : (now : Instant) → (monday_of now ≤ now) × (now < monday_of now + days 7)
unfolding monday_of
monday_of_bounds now = omega arith

pub day_start_bounds : (now : Instant) → (day_start now ≤ now) × (now < day_start now + days 1)
unfolding day_start
day_start_bounds now = omega arith

-- 0001-01-10 was a Wednesday, of the week that began on the 8th.
second_week : monday_of (days 9 + hours 5) ≡ days 7
unfolding monday_of
second_week = refl
