-- ===== src/Icloud/Connector.antt =====
-- icloud_calendar.py: IcloudCalendarConnector. The JSON text of the cursor and the package icalendar
-- are parameters.
use nidaro.Base.{
  ℕ, String, Bool, true, ◌&&◌, Option, none, some, List, [], ◌∷◌, ◌++◌, map, str_eq, if◌then◌else◌,
  Result, ok, err, Exec, pure, raise, lift, ◌>>=◌, and_then,
}
use nidaro.Base.{is_truthy, missing_credential, sync_unsupported}
use nidaro.Base.Assoc.{lookup, put, drop_key}
use nidaro.Calendar.Models.{ExternalRecord, foreign}
use nidaro.Calendar.Zones.{Zones}
use nidaro.Connectors.Store.{ConnectorContext, SyncResult}
use nidaro.Icloud.Ics.{or_no_text, Component, IcsEvent, Texts, parse_events}
use nidaro.Icloud.Events.{Projection, content_hash, external_id, record_payload}
use nidaro.Icloud.Session.{
  CalDav, FetchedIcs, SyncChanges, calendar_query, calendar_urls, fetch, sync_changes,
}

abbrev pub connector_name : String
connector_name = "icloud_calendar"

abbrev pub calendar_event : String
calendar_event = "calendar_event"

-- The `items` of a calendar: the events that are mirrored of each resource
abbrev pub Items : Type 0
Items = List (String × List String)

pub record CalendarEntry : Type 0 where
  pub token : Option String
  pub items : Items

abbrev pub CursorState : Type 0
CursorState = List (String × CalendarEntry)

-- `json.dumps` of a state and `json.loads` with the checks of its shape
pub record StateJson : Type 0 where
  pub dumps : CursorState → String
  pub loads : String → Option CursorState

abbrev or_fresh : Option CursorState → CursorState
or_fresh none = []
or_fresh (some state) = state

abbrev pub decode_cursor : StateJson → Option String → CursorState
decode_cursor json none = []
decode_cursor json (some raw) = if is_truthy raw then or_fresh (json.loads raw) else []

abbrev pub entry_or_new : Option CalendarEntry → CalendarEntry
entry_or_new none = record { token = none; items = [] }
entry_or_new (some entry) = entry

abbrev pub ids_in : Option (List String) → List String
ids_in none = []
ids_in (some ids) = ids

abbrev pub tombstone : ℕ → String → ExternalRecord
tombstone observed_at identity = record {
  connector = connector_name;
  external_type = calendar_event;
  external_id = identity;
  payload = foreign;
  content_hash = "";
  observed_at = observed_at;
  deleted = true;
}

abbrev pub Landed : Type 0
Landed = List ExternalRecord × Items

-- The loop over `changes.deleted`
unfoldable pub forget : ℕ → List String → Landed → Landed
forget now [] landed = landed
forget now (href ∷ hrefs) (records, items) =
    forget now hrefs
      (records ++ map (tombstone now) (ids_in (lookup href items)), drop_key href items)

abbrev pub is_cancelled : String → Bool
is_cancelled status = str_eq status "cancelled"

module _ (texts : Texts) (zones : Zones) (digest : Projection texts zones → String)
    (from_ical : String → Result (List Component)) (now : ℕ) where
  -- The two lists of `_records_for_resource`
  unfoldable pub records_of : List (IcsEvent texts zones) → List ExternalRecord
  records_of [] = []
  records_of (event ∷ events) =
      record {
        connector = connector_name;
        external_type = calendar_event;
        external_id = external_id texts zones event;
        payload = record_payload texts zones event;
        content_hash = content_hash texts zones digest event;
        observed_at = now;
        deleted = is_cancelled event.status;
      }
      ∷ records_of events

  unfoldable pub mirrored_ids : List (IcsEvent texts zones) → List String
  mirrored_ids [] = []
  mirrored_ids (event ∷ events) =
      let rest = mirrored_ids events in
      if is_cancelled event.status then rest else external_id texts zones event ∷ rest

  -- One round of the loops over fetched resources
  abbrev pub with_resource : String → Landed → List (IcsEvent texts zones) → Landed
  with_resource href (records, items) events =
      (records ++ records_of events, put href (mirrored_ids events) items)

  unfoldable pub take_resources : ConnectorContext → List FetchedIcs → Landed → Result Landed
  take_resources context [] landed = ok landed
  take_resources context (resource ∷ resources) landed =
      and_then (parse_events texts zones from_ical resource.ics context.timezone)
        (λ events. take_resources context resources (with_resource resource.href landed events))

  module _ {W : Type 0} (caldav : CalDav W) where
    abbrev pub finished : Option String → Landed → List ExternalRecord × CalendarEntry
    finished token (records, items) = (records, record { token = token; items = items })

    abbrev pub fetched : String → List (String × String) → Exec W (List FetchedIcs)
    fetched url [] = pure []
    fetched url (change ∷ changes) = fetch caldav url (map (λ c. c.0) (change ∷ changes))

    -- What follows the sync REPORT: its changes, or the full listing where it is unsupported
    abbrev pub after_report :
        ConnectorContext
        → String
        → Items
        → Result SyncChanges
        → Exec W (List ExternalRecord × CalendarEntry)
    after_report context url items (ok changes) = do
      resources ← fetched url changes.changed
      landed ← lift (take_resources context resources (forget now changes.deleted ([], items)))
      pure (finished changes.token landed)
    after_report context url items (err sync_unsupported) = do
      resources ← calendar_query caldav url
      landed ← lift (take_resources context resources ([], items))
      pure (finished none landed)
    after_report context url items (err e) = raise e

    unfoldable pub sync_calendar :
        ConnectorContext → String → CalendarEntry → Exec W (List ExternalRecord × CalendarEntry)
    sync_calendar context url entry w =
        let out = sync_changes caldav url entry.token w in
        after_report context url entry.items out.0 out.1

    -- The loop over the calendars
    unfoldable pub sync_calendars :
        ConnectorContext
        → List String
        → List ExternalRecord × CursorState
        → Exec W (List ExternalRecord × CursorState)
    sync_calendars context [] gathered = pure gathered
    sync_calendars context (url ∷ urls) (records, calendars) = do
      done ← sync_calendar context url (entry_or_new (lookup url calendars))
      sync_calendars context urls (records ++ done.0, put url done.1 calendars)

  abbrev pub credentials_of : ConnectorContext → Result (String × String)
  credentials_of context =
      let username = or_no_text (lookup "apple_id" context.credentials) in
      let password = or_no_text (lookup "app_specific_password" context.credentials) in
      if is_truthy username && is_truthy password
      then ok (username, password)
      else err missing_credential

  -- `open_session` is the session factory.
  unfoldable pub sync :
      {W : Type 0}
      → (String → String → CalDav W)
      → StateJson
      → ConnectorContext
      → Option String
      → Exec W SyncResult
  sync open_session json context cursor = do
    login ← lift (credentials_of context)
    urls ← calendar_urls (open_session login.0 login.1)
    gathered ←
        sync_calendars (open_session login.0 login.1) context urls ([], decode_cursor json cursor)
    pure (record { records = gathered.0; next_cursor = some (json.dumps gathered.1) })
