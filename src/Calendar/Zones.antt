-- ===== src/Calendar/Zones.antt =====
-- Dates, times of day, and time zones. A date is its proleptic ordinal (`date.toordinal`), a time
-- of day the microseconds since midnight, an instant the microseconds since an origin. The zone
-- database (zoneinfo and its data) is a parameter.
use nidaro.Base.{ℕ, ◌+◌, ◌%◌, ◌≤◌, String, ◌↔◌, Option, none, some, is_truthy, if◌then◌else◌}

-- `date.weekday()`: 0 is Monday, and ordinal 1 is a Monday.
unfoldable pub weekday : ℕ → ℕ
weekday day = (day + 6) % 7

-- A wall-clock reading in some zone.
pub record Local : Type 0 where
  pub day : ℕ
  pub clock : ℕ

-- An aware datetime
pub record Moment (Zone : Type 0) : Type 0 where
  pub zone : Zone
  pub instant : ℕ

pub record Zones : Type 1 where
  pub Zone : Type 0
  pub utc : Zone
  -- `ZoneInfo(name)`; `none` is an exception.
  pub zone_info : String → Option Zone
  -- `moment.astimezone(tz)`
  pub to_local : Zone → ℕ → Local
  -- `datetime.combine(day, clock, tzinfo=tz)` as an instant
  pub to_instant : Zone → Local → ℕ

module _ (zones : Zones) where
  open zones use {Zone, utc, zone_info, to_local, to_instant}

  -- The local date has reached `day` exactly from its midnight on. Zones that put their clocks back
  -- across midnight break this on such a day.
  abbrev pub StartsAtMidnight : Zone → ℕ → Type 0
  StartsAtMidnight z day =
      (i : ℕ) → (to_instant z (record { day = day; clock = 0 }) ≤ i) ↔ (day ≤ (to_local z i).day)

  found_or_utc : Option Zone → Zone
  found_or_utc none = utc
  found_or_utc (some z) = z

  -- An unset, empty or unknown name falls back to UTC.
  unfoldable pub resolve_timezone : Option String → Zone
  unfolding found_or_utc
  resolve_timezone none = utc
  resolve_timezone (some name) = if is_truthy name then found_or_utc (zone_info name) else utc
