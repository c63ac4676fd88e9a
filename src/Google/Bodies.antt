-- ===== src/Google/Bodies.antt =====
-- mapping.py: from a family's event, or from its changes, to the JSON of a write.
use nidaro.Base.{
  ℕ, ◌+◌, String, Bool, true, false, not, ◌||◌, Option, none, some, List, [], ◌∷◌, str_eq,
  if◌then◌else◌, keep, Result, ok, err,
}
use nidaro.Base.{value_error}
use nidaro.Calendar.Zones.{Zones}
use nidaro.Google.Models.{
  GoogleEvent, UpdateFields, Moment, Given, aware, naive, When, on_date, at_time, Recurrence,
  weekly,
}
use nidaro.Google.Mapping.{parse_when}

abbrev read_only_event_fields : List String
read_only_event_fields =
    "kind" ∷ "etag" ∷ "htmlLink" ∷ "created" ∷ "updated" ∷ "creator" ∷ "organizer" ∷ "eventType"
    ∷ []

abbrev text_in : String → List String → Bool
text_in t [] = false
text_in t (x ∷ xs) = str_eq x t || text_in t xs

abbrev pub changed {ℓ} : {A : Type ℓ} → Option A → Option A → Option A
changed none old = old
changed (some a) old = some a

module _ (zones : Zones) where
  open zones use {Zone, to_local, to_instant}

  abbrev pub to_aware : Given Zone → Zone → Moment Zone
  to_aware (aware moment) tz = moment
  to_aware (naive wall) tz = record { zone = tz; instant = to_instant tz wall }

  abbrev pub date_of : Moment Zone → ℕ
  date_of m = (to_local m.zone m.instant).day

  -- `moment + timedelta(days=1)`: the same wall clock on the next day
  abbrev next_day : Moment Zone → Moment Zone
  next_day m =
      let wall = to_local m.zone m.instant in
      record {
        zone = m.zone;
        instant = to_instant m.zone (record { day = wall.day + 1; clock = wall.clock });
      }

  unfoldable pub when_json : Moment Zone → Bool → When Zone
  when_json moment is_all_day = if is_all_day then on_date (date_of moment) else at_time moment

  abbrev end_json : Option (Given Zone) → Given Zone → Bool → Zone → Option (When Zone)
  unfolding when_json
  end_json (some ends_at) starts_at is_all_day tz =
      some (when_json (to_aware ends_at tz) is_all_day)
  end_json none starts_at is_all_day tz =
      if is_all_day then some (on_date (date_of (to_aware starts_at tz) + 1)) else none

  abbrev rules : Option (List ℕ) → List Recurrence
  rules none = []
  rules (some []) = []
  rules (some (day ∷ days)) = weekly (day ∷ days) ∷ []

  unfoldable pub build_event_body :
      String
      → String
      → Given Zone
      → Option (Given Zone)
      → Option String
      → Option String
      → Bool
      → Option (List ℕ)
      → List String
      → Zone
      → GoogleEvent Zone
  unfolding when_json
  build_event_body event_id title starts_at ends_at description location is_all_day weekdays
        attendees tz =
      record {
        id = some event_id;
        status = none;
        etag = none;
        summary = some title;
        description = description;
        location = location;
        start = some (when_json (to_aware starts_at tz) is_all_day);
        end_at = end_json ends_at starts_at is_all_day tz;
        recurrence = rules weekdays;
        attendees = attendees;
        extended_properties = some "{\"private\": {\"nidaro\": \"1\"}}";
        rest = [];
      }

  -- `"date" in (when or {})`
  abbrev pub on_whole_day : Option (When Zone) → Bool
  on_whole_day none = false
  on_whole_day (some (on_date day)) = true
  on_whole_day (some (at_time moment)) = false

  -- The fetched event without what Google manages, with the changed texts
  abbrev pub base_of : GoogleEvent Zone → UpdateFields Zone → GoogleEvent Zone
  base_of existing f = record existing {
    etag = none;
    summary = changed f.title existing.summary;
    description = changed f.description existing.description;
    location = changed f.location existing.location;
    rest = keep (λ entry. not (text_in entry.0 read_only_event_fields)) existing.rest;
  }

  -- `fields.starts_at or _existing_start(existing, tz)`, made aware
  abbrev pub new_start : Option (Given Zone) → Option (When Zone) → Zone → Option (Moment Zone)
  unfolding parse_when
  new_start (some given) existing tz = some (to_aware given tz)
  new_start none existing tz = (parse_when zones existing tz).0

  abbrev pub switched : GoogleEvent Zone → Bool → Option (Moment Zone) → Result (GoogleEvent Zone)
  unfolding when_json
  switched body is_all_day none = err value_error
  switched body is_all_day (some m) = ok (record body {
    start = some (when_json m is_all_day);
    end_at =
        if is_all_day then some (on_date (date_of m + 1)) else some (when_json (next_day m) false);
  })

  abbrev pub moved : Option (Given Zone) → Option (When Zone) → Zone → Option (When Zone)
  unfolding when_json
  moved none old tz = old
  moved (some given) old tz = some (when_json (to_aware given tz) (on_whole_day old))

  abbrev pub switches : Option Bool → Bool → Bool
  switches none currently = false
  switches (some true) currently = not currently
  switches (some false) currently = currently

  unfoldable pub merge_event_update :
      GoogleEvent Zone → UpdateFields Zone → Zone → Result (GoogleEvent Zone)
  unfolding parse_when when_json
  merge_event_update existing f tz =
      let body = base_of existing f in
      let currently = on_whole_day existing.start in
      if switches f.is_all_day currently
      then switched body (not currently) (new_start f.starts_at existing.start tz)
      else ok (record body {
        start = moved f.starts_at body.start tz;
        end_at = moved f.ends_at body.end_at tz;
      })
