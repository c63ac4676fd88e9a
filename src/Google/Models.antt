-- ===== src/Google/Models.antt =====
-- models.py, and the JSON that Google exchanges. A resource is modelled by the keys that the code
-- reads or writes; the other keys of an event are kept in `rest`, each with its JSON as a text. A
-- `dateTime` is the instant it names with the zone of its offset, a `date` its ordinal.
use nidaro.Base.{ℕ, String, Bool, Option, List}
use nidaro.Base.{ℕ, String, Bool, Option, List}
pub use nidaro.Calendar.Zones.{Moment}
use nidaro.Calendar.Zones.{Local}

pub record GoogleCalendarAccount : Type 0 where
  pub household_id : ℕ
  pub google_email : String
  pub calendar_id : String
  pub granted_scopes : List String

pub record GoogleAccountCredentials : Type 0 where
  pub email : String
  pub calendar_id : String
  pub scopes : List String
  pub refresh_token : String

-- A datetime that a caller passes, with a zone or as a wall-clock reading
pub data Given (Zone : Type 0) : Type 0 where
  aware : Moment Zone → Given Zone
  naive : Local → Given Zone

pub data When (Zone : Type 0) : Type 0 where
  on_date : ℕ → When Zone
  at_time : Moment Zone → When Zone

-- An entry of `recurrence`: the weekly rule of `build_event_body` by its weekdays, or another text
pub data Recurrence : Type 0 where
  weekly : List ℕ → Recurrence
  other_rule : String → Recurrence

pub record GoogleEvent (Zone : Type 0) : Type 0 where
  pub id : Option String
  pub status : Option String
  pub etag : Option String
  pub summary : Option String
  pub description : Option String
  pub location : Option String
  pub start : Option (When Zone)
  pub end_at : Option (When Zone)
  pub recurrence : List Recurrence
  pub attendees : List String
  pub extended_properties : Option String
  pub rest : List (String × String)

-- `UpdateGoogleEventFields`
pub record UpdateFields (Zone : Type 0) : Type 0 where
  pub title : Option String
  pub description : Option String
  pub location : Option String
  pub starts_at : Option (Given Zone)
  pub ends_at : Option (Given Zone)
  pub is_all_day : Option Bool
