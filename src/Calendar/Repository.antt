-- ===== src/Calendar/Repository.antt =====
-- repository.py: the queries and writes on the `events` table. Identifiers of new rows come from a
-- counter in place of random UUIDs.
use nidaro.Base.{
  ℕ, ◌+◌, String, Bool, ◌&&◌, ◌||◌, ◌==◌, List, [], ◌∷◌, ◌++◌, Option, none, some, ltb, leb, keep,
  ◌*◌, if◌then◌else◌, length, mem, Exec, is_some, ok, fits, fits_option, data_error,
  integrity_error, Result, lift, not, ◌>>=◌, err, modify,
}
use nidaro.Base.Table.{find, save, remove}
use nidaro.Base.Sort.{sort}
use nidaro.Calendar.Zones.{Zones}
use nidaro.Calendar.Models.{Event, EventPayload, Household, is_mirror, fits_mirror, fits_content}
use nidaro.Calendar.Recurrence.{weekdays_of, window_bounds}

pub record CalendarDb : Type 0 where
  pub households : List Household
  pub members : List ℕ
  pub events : List Event
  pub next_id : ℕ

abbrev starts_no_later : Event → Event → Bool
starts_no_later a b = leb a.starts_at b.starts_at

-- The WHERE clause of `range`: before the end, and from the start on or with weekdays.
unfoldable pub in_window : ℕ × ℕ → ℕ → Event → Bool
in_window (start, end_exclusive) household e =
    e.household_id == household
    && (ltb e.starts_at end_exclusive && (leb start e.starts_at || ltb 0 (length (weekdays_of e))))

module _ (zones : Zones) where
  open zones use {Zone}

  unfoldable pub range : ℕ → ℕ → ℕ → Zone → CalendarDb → List Event
  unfolding in_window
  range household from_date to_date tz db =
      sort starts_no_later
        (keep (in_window (window_bounds zones from_date to_date tz) household) db.events)

unfoldable pub count : ℕ → CalendarDb → ℕ
count household db = length (keep (λ e. e.household_id == household) db.events)

-- `CreateEventRequest`
pub record CreateEventRequest : Type 0 where
  pub household_id : ℕ
  pub title : String
  pub starts_at : ℕ
  pub ends_at : Option ℕ
  pub description : Option String
  pub location : Option String
  pub is_all_day : Bool
  pub recurrence_weekdays : Option (List ℕ)
  pub participants : List ℕ

-- The foreign key to households
abbrev pub knows : ℕ → CalendarDb → Bool
knows household db = is_some (find (λ h. h.id == household) db.households)

-- The INSERT of a row whose texts fit their columns, or not
abbrev pub insertable : Bool → ℕ → CalendarDb → Result (Unit {0})
insertable fitting household db =
    if not fitting
    then err data_error
    else if knows household db
    then ok tt
    else err integrity_error

-- A row that people made
abbrev pub fits_row : Event → Bool
fits_row e =
    fits 250 e.title
    && (fits_option 250 e.location
        && (fits 40 e.status
            && (fits_option 100 e.external_connector && fits_option 250 e.external_id)))

abbrev append_row : Event → Exec CalendarDb Event
append_row event db =
    (ok event, record db { events = db.events ++ event ∷ []; next_id = db.next_id + 1 })

abbrev pub insert_row : Event → Exec CalendarDb Event
insert_row event db =
    (lift (insertable (fits_row event) event.household_id db) >>= λ done. append_row event) db

-- `create`: the participants are those of the given ids that are members.
unfoldable pub create : CreateEventRequest → Exec CalendarDb Event
create request db =
    let event : Event = record {
      id = db.next_id;
      household_id = request.household_id;
      external_connector = none;
      external_id = none;
      title = request.title;
      description = request.description;
      starts_at = request.starts_at;
      ends_at = request.ends_at;
      is_all_day = request.is_all_day;
      recurrence_weekdays = request.recurrence_weekdays;
      location = request.location;
      status = "scheduled";
      participants = keep (λ m. mem m request.participants) db.members;
    } in
    insert_row event db

unfoldable pub get_by_external_identity : ℕ → String → String → CalendarDb → Option Event
get_by_external_identity household connector external db =
    find (is_mirror household connector external) db.events

-- The assignments of `fields` to an existing mirror
unfoldable pub set_fields : EventPayload → Event → Event
set_fields p e = record e {
  title = p.title;
  description = p.description;
  starts_at = p.starts_at;
  ends_at = p.ends_at;
  is_all_day = p.is_all_day;
  recurrence_weekdays = p.recurrence_weekdays;
  location = p.location;
}

unfoldable pub new_mirror : ℕ → ℕ → String → String → EventPayload → Event
new_mirror id household connector external p = record {
  id = id;
  household_id = household;
  external_connector = some connector;
  external_id = some external;
  title = p.title;
  description = p.description;
  starts_at = p.starts_at;
  ends_at = p.ends_at;
  is_all_day = p.is_all_day;
  recurrence_weekdays = p.recurrence_weekdays;
  location = p.location;
  status = "scheduled";
  participants = [];
}

-- The table after the flush
unfoldable pub with_mirror : ℕ → String → String → EventPayload → CalendarDb → CalendarDb
unfolding set_fields new_mirror
with_mirror household connector external p db = record db {
  events =
      save (is_mirror household connector external)
        (new_mirror db.next_id household connector external p) (set_fields p) db.events;
  next_id = db.next_id + 1;
}

-- Whether the database takes the row: an update sets the content only, an insert all columns.
unfoldable pub admits_mirror :
    ℕ → String → String → EventPayload → CalendarDb → Option Event → Result (Unit {0})
unfolding fits_mirror
admits_mirror household connector external p db none =
    insertable (fits_mirror connector external p) household db
admits_mirror household connector external p db (some e) =
    if fits_content p then ok tt else err data_error

-- The row that comes back is not used by the callers.
unfoldable pub upsert_mirror : ℕ → String → String → EventPayload → Exec CalendarDb (Unit {0})
upsert_mirror household connector external p db =
    (lift (
          admits_mirror household connector external p db
            (find (is_mirror household connector external) db.events))
        >>= λ done. modify (with_mirror household connector external p))
      db

-- False when there was no mirror.
unfoldable pub remove_mirror : ℕ → String → String → Exec CalendarDb Bool
remove_mirror household connector external db = (
  ok (is_some (find (is_mirror household connector external) db.events)),
  record db { events = remove (is_mirror household connector external) db.events },
)

-- `upcoming`: the events that start within this many days from now
unfoldable pub upcoming : ℕ → ℕ → ℕ → CalendarDb → List Event
upcoming now household days db = sort starts_no_later (
    keep
      (λ e.
        e.household_id == household
        && (leb now e.starts_at && leb e.starts_at (now + days * 86_400_000_000)))
      db.events)

-- `add`: an event object that was built elsewhere, with the members among the given ids
unfoldable pub add : Event → List ℕ → Exec CalendarDb Event
add event participant_ids db =
    let added : Event = record event {
      id = db.next_id;
      participants =
          if ltb 0 (length participant_ids)
          then keep (λ m. mem m participant_ids) db.members
          else event.participants;
    } in
    insert_row added db
