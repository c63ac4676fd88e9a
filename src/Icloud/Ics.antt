-- ===== src/Icloud/Ics.antt =====
-- icloud_ics.py: from the components of an iCalendar resource to events and payloads. The package
-- icalendar takes the text to its VEVENT components, each by the properties that the code reads; the
-- texts of dates and times stand for what they name. Python's functions on texts are parameters.
use nidaro.Base.{
  ℕ, String, ◌⊎◌, inl, inr, Bool, true, false, Option, none, some, List, [], ◌∷◌, map, str_eq, ◌==◌,
  if◌then◌else◌, is_some, Result, ok, err,
}
use Prim.Native.Char.{Char, code}
use Prim.Native.String.{◌++◌ as concat}
use Prim.Native.String as S
use nidaro.Base.{is_truthy}
use nidaro.Calendar.Zones.{Local, Moment, Zones, resolve_timezone}

abbrev slash : Char
slash = "/"

-- A DATE, a DATE-TIME in UTC, or one on the wall clock of the zone that TZID names
pub data IcsTime : Type 0 where
  ics_date : ℕ → IcsTime
  ics_utc : Local → IcsTime
  ics_local : String → Local → IcsTime

pub record Component : Type 0 where
  pub uid : Option String
  pub dtstart : Option IcsTime
  pub dtend : Option IcsTime
  pub recurrence_id : Option IcsTime
  pub status : Option String
  pub summary : Option String
  pub description : Option String
  pub location : Option String
  pub rrule : Option (List (String × List String))

-- The functions of Python's texts, the order by code points, and `isoformat` in UTC
pub record Texts : Type 0 where
  pub strip : String → String
  pub upper : String → String
  pub lower : String → String
  pub order : String → String → Bool
  pub iso : ℕ → String

abbrev pub or_no_text : Option String → String
or_no_text none = ""
or_no_text (some t) = t

module _ (texts : Texts) (zones : Zones) where
  open texts use {strip, upper, lower, order, iso}
  open zones use {Zone, utc, zone_info, to_local, to_instant}

  pub record IcsEvent : Type 0 where
    pub uid : String
    pub title : String
    pub starts_at : Moment Zone
    pub ends_at : Option (Moment Zone)
    pub is_all_day : Bool
    pub description : Option String
    pub location : Option String
    pub status : String
    pub recurrence_id : Option (Moment Zone)
    pub rrule : Option (List (String × List String))

  -- The loop of `normalize_tzid`, at a candidate or in front of the next "/"
  abbrev tzid_from : Bool → String → Option String
  tzid_from at S.[] = none
  tzid_from true (S.◌∷◌ c s) =
      let rest = tzid_from (code c == code slash) s in
      if is_some (zone_info (S.◌∷◌ c s)) then some (S.◌∷◌ c s) else rest
  tzid_from false (S.◌∷◌ c s) = tzid_from (code c == code slash) s

  unfoldable pub normalize_tzid : String → Option String
  normalize_tzid value = tzid_from true (strip value)

  abbrev zone_or : Zone → Option Zone → Zone
  zone_or tz none = tz
  zone_or tz (some z) = z

  abbrev zone_of : Zone → Option String → Zone
  zone_of tz none = tz
  zone_of tz (some name) = zone_or tz (zone_info name)

  -- `_decode_when`: a date, or an aware datetime
  unfoldable pub decode_when : IcsTime → Zone → ℕ ⊎ Moment Zone
  unfolding normalize_tzid
  decode_when (ics_date day) tz = inl day
  decode_when (ics_utc wall) tz = inr (record { zone = utc; instant = to_instant utc wall })
  decode_when (ics_local tzid wall) tz =
      let z = zone_of tz (normalize_tzid tzid) in
      inr (record { zone = z; instant = to_instant z wall })

  -- A date at its midnight, and whether it is one
  abbrev placed : Zone → ℕ ⊎ Moment Zone → Moment Zone × Bool
  placed tz (inl day) =
      (record { zone = tz; instant = to_instant tz (record { day = day; clock = 0 }) }, true)
  placed tz (inr moment) = (moment, false)

  abbrev placed_option : Zone → Option IcsTime → Option (Moment Zone)
  placed_option tz none = none
  placed_option tz (some t) = some (placed tz (decode_when t tz)).0

  -- `_text`
  abbrev text_of : Option String → Option String
  text_of none = none
  text_of (some t) = if is_truthy (strip t) then some (strip t) else none

  abbrev title_of : Option String → String → String
  title_of none uid = uid
  title_of (some t) uid = if is_truthy t then t else uid

  abbrev lower_keys : Option (List (String × List String)) → Option (List (String × List String))
  lower_keys none = none
  lower_keys (some rule) = some (map (λ entry. (lower entry.0, entry.1)) rule)

  -- `_decode_event`
  abbrev decode_from : Component → String → Zone → Option IcsTime → Option IcsEvent
  decode_from component uid tz none = none
  decode_from component uid tz (some starts) =
      let start = placed tz (decode_when starts tz) in
      some (record {
        uid = uid;
        title = title_of component.summary uid;
        starts_at = start.0;
        ends_at = placed_option tz component.dtend;
        is_all_day = start.1;
        description = text_of component.description;
        location = text_of component.location;
        status =
            if str_eq (upper (strip (or_no_text component.status))) "CANCELLED"
            then "cancelled"
            else "scheduled";
        recurrence_id = placed_option tz component.recurrence_id;
        rrule = lower_keys component.rrule;
      })

  abbrev with_event : Option IcsEvent → List IcsEvent → List IcsEvent
  with_event none events = events
  with_event (some event) events = event ∷ events

  -- The loop of `parse_events`
  unfoldable pub decode_events : Zone → List Component → List IcsEvent
  decode_events tz [] = []
  decode_events tz (component ∷ components) =
      let uid = strip (or_no_text component.uid) in
      let events = decode_events tz components in
      if is_truthy uid
      then with_event (decode_from component uid tz component.dtstart) events
      else events

  -- `Calendar.from_ical` with its walk over the events is a parameter, which may raise.
  unfoldable pub parse_events :
      (String → Result (List Component)) → String → String → Result (List IcsEvent)
  unfolding decode_events
  parse_events from_ical ics_text default_timezone = elim (from_ical ics_text) [
    | err e ↦ err e
    | ok components ↦ ok (decode_events (resolve_timezone zones (some default_timezone)) components)
  ]
