-- ===== src/Icloud/Accepting.antt =====
-- The records of a run all validate, so that landing them stops only at a text that its column does
-- not hold.
use nidaro.Base.{
  ℕ, ◌+◌, String, ◌≡◌, refl, subst, inl, inr, Option, none, List, [], ◌∷◌, ◌++◌, map, length, All,
  Result, ok, err, Exec, pure, lift, ◌>>=◌, Result-cases, All-append, true,
}
use nidaro.Base.{err≢ok, sync_unsupported}
use nidaro.Base.Assoc.{lookup, put, drop_key}
use nidaro.Calendar.Models.{ExternalRecord, MirrorApplyReport}
use nidaro.Calendar.Repository.{CalendarDb}
use nidaro.Calendar.Service.{apply_external_records}
use nidaro.Calendar.Repository.{knows}
use nidaro.Calendar.Mirror.Record.{IsUnique, mirrored, said_all}
use nidaro.Calendar.Mirror.Outcome.{Fits}
use nidaro.Calendar.Mirror.Batch.{Accepted, apply_complete}
use nidaro.Calendar.Zones.{Zones}
use nidaro.Connectors.Store.{ConnectorContext, SyncResult}
use nidaro.Icloud.Ics.{Component, IcsEvent, Texts, parse_events}
use nidaro.Icloud.Events.{Projection}
use nidaro.Icloud.Session.{CalDav, FetchedIcs, SyncChanges, calendar_query, calendar_urls}
use nidaro.Icloud.Connector.{
  finished, CalendarEntry, CursorState, Items, Landed, StateJson, after_report, credentials_of,
  decode_cursor, entry_or_new, fetched, forget, ids_in, records_of, sync, sync_calendar,
  sync_calendars, take_resources, tombstone,
}
use nidaro.Icloud.Weekdays.{record_payload-valid}

module _ (texts : Texts) (zones : Zones) where
  module _ (digest : Projection texts zones → String) (from_ical : String → Result (List Component))
      (now : ℕ) where
    records_of-Accepted :
        (events : List (IcsEvent texts zones))
        → All Accepted (records_of texts zones digest from_ical now events)
    unfolding records_of
    records_of-Accepted [] = tt
    records_of-Accepted (event ∷ events) =
        (inr (inr (record_payload-valid texts zones event)), records_of-Accepted events)

    tombstones-Accepted : (ids : List String) → All Accepted (map (tombstone now) ids)
    tombstones-Accepted [] = tt
    tombstones-Accepted (x ∷ ids) = (inl refl, tombstones-Accepted ids)

    forget-Accepted :
        (hrefs : List String) (records : List ExternalRecord) (items : Items)
        → All Accepted records
        → All Accepted (forget now hrefs (records, items)).0
    unfolding forget
    forget-Accepted [] records items h = h
    forget-Accepted (href ∷ hrefs) records items h =
        forget-Accepted hrefs (records ++ map (tombstone now) (ids_in (lookup href items)))
          (drop_key href items)
          (All-append Accepted records _ h (tombstones-Accepted (ids_in (lookup href items))))

    take_resources-Accepted :
        (context : ConnectorContext) (resources : List FetchedIcs) (records : List ExternalRecord)
        (items : Items) (out : Landed)
        → All Accepted records
        → take_resources texts zones digest from_ical now context resources (records, items)
          ≡ ok out
        → All Accepted out.0
    unfolding take_resources
    take_resources-Accepted context [] records items out h e =
        subst (λ o. All Accepted o.0) (same e) h
      where
        same : {x y : Landed} → ok x ≡ ok y → x ≡ y
        same e = cc
    take_resources-Accepted context (r ∷ rs) records items out h e =
        elim (Result-cases (parse_events texts zones from_ical r.ics context.timezone)) [
          | inr (x, failed) ↦ absurd (err≢ok (rw failed at e))
          | inl (events, parsed) ↦
              take_resources-Accepted context rs
                (records ++ records_of texts zones digest from_ical now events) _ out
                (All-append Accepted records _ h (records_of-Accepted events)) (rw parsed at e)
        ]

    module _ {W : Type 0} (caldav : CalDav W) where
      lands-Accepted :
          (context : ConnectorContext) (m : Exec W (List FetchedIcs))
          (records : List ExternalRecord) (items : Items) (token : Option String) (w : W)
          (out : List ExternalRecord × CalendarEntry)
          → All Accepted records
          → ((m >>= λ resources.
                lift (
                  take_resources texts zones digest from_ical now context resources
                    (records, items))
                >>= λ landed. pure (finished texts zones digest from_ical now caldav token landed))
              w).0
            ≡ ok out
          → All Accepted out.0
      lands-Accepted context m records items token w out h e = elim (Result-cases (m w).0) [
        | inr (x, failed) ↦ absurd (err≢ok (rw failed at e))
        | inl (resources, got) ↦
            elim (Result-cases (
              take_resources texts zones digest from_ical now context resources (records, items))) [
                | inr (x, failed) ↦ absurd (err≢ok (rw (got, failed) at e))
                | inl (landed, took) ↦
                    subst (λ o. All Accepted o.0) (same (rw (got, took) at e))
                      (take_resources-Accepted context resources records items landed h took)
              ]
      ]
        where
          same : {x y : List ExternalRecord × CalendarEntry} → ok x ≡ ok y → x ≡ y
          same e = cc

      after_report-Accepted :
          (context : ConnectorContext) (url : String) (items : Items) (r : Result SyncChanges)
          (w : W) (out : List ExternalRecord × CalendarEntry)
          → (after_report texts zones digest from_ical now caldav context url items r w).0 ≡ ok out
          → All Accepted out.0
      after_report-Accepted context url items (ok changes) w out e =
          lands-Accepted context
            (fetched texts zones digest from_ical now caldav url changes.changed)
            (forget now changes.deleted ([], items)).0 (forget now changes.deleted ([], items)).1
            changes.token w out (forget-Accepted changes.deleted [] items tt) e
      after_report-Accepted context url items (err sync_unsupported) w out e =
          lands-Accepted context (calendar_query caldav url) [] items none w out tt e
      after_report-Accepted context url items (err _) w out e = absurd (err≢ok e)

      sync_calendars-Accepted :
          (context : ConnectorContext) (urls : List String) (records : List ExternalRecord)
          (calendars : CursorState) (w : W) (out : List ExternalRecord × CursorState)
          → All Accepted records
          → (sync_calendars texts zones digest from_ical now caldav context urls
              (records, calendars)
              w).0
            ≡ ok out
          → All Accepted out.0
      unfolding sync_calendars sync_calendar
      sync_calendars-Accepted context [] records calendars w out h e =
          subst (λ o. All Accepted o.0) (same e) h
        where
          same : {x y : List ExternalRecord × CursorState} → ok x ≡ ok y → x ≡ y
          same e = cc
      sync_calendars-Accepted context (url ∷ urls) records calendars w out h e =
          elim (Result-cases
            (sync_calendar texts zones digest from_ical now caldav context url
              (entry_or_new (lookup url calendars)) w).0) [
                | inr (x, failed) ↦ absurd (err≢ok (rw failed at e))
                | inl (done, synced) ↦
                    sync_calendars-Accepted context urls (records ++ done.0)
                      (put url done.1 calendars) _ out
                      (All-append Accepted records done.0 h (
                        after_report-Accepted context url
                          (entry_or_new (lookup url calendars)).items _ _ done synced))
                      (rw synced at e)
              ]

    -- What a run returns validates: where its texts fit in the columns of the calendar, landing its
    -- records for a known household completes and counts each once, and what is shown of each item is
    -- what the records say of it, the last word counting. Identities in the calendar are unique.
    pub sync_lands :
        {W : Type 0} (open_session : String → String → CalDav W) (json : StateJson)
        (context : ConnectorContext) (cursor : Option String) (w : W) (result : SyncResult) (h : ℕ)
        (db : CalendarDb)
        → (sync texts zones digest from_ical now open_session json context cursor w).0 ≡ ok result
        → IsUnique db
        → All Fits result.records
        → knows h db ≡ true
        → (report : MirrorApplyReport) × ((apply_external_records h result.records db).0
            ≡ ok report)
          × (report.applied + report.removed + report.skipped ≡ length result.records)
          × ((c x : String)
              → mirrored h c x (apply_external_records h result.records db).1
                ≡ said_all c x (mirrored h c x db) result.records)
    unfolding sync
    sync_lands open_session json context cursor w result h db e unique fit known =
        elim (Result-cases (credentials_of texts zones digest from_ical now context)) [
          | inr (x, failed) ↦ absurd (err≢ok (rw failed at e))
          | inl (login, known) ↦
              let caldav = open_session login.0 login.1 in
              elim (Result-cases (calendar_urls caldav w).0) [
                | inr (x, failed) ↦ absurd (err≢ok (rw (known, failed) at e))
                | inl (urls, listed) ↦
                    elim (Result-cases
                      (sync_calendars texts zones digest from_ical now caldav context urls
                        ([], decode_cursor json cursor) (calendar_urls caldav w).1).0) [
                          | inr (x, failed) ↦ absurd (err≢ok (rw (known, listed, failed) at e))
                          | inl (gathered, done) ↦ landing result.records fit (
                              subst (λ r. All Accepted r.records)
                                (same (rw (known, listed, done) at e))
                                (sync_calendars-Accepted caldav context urls []
                                  (decode_cursor json cursor) _ gathered tt done))
                        ]
              ]
        ]
      where
        same : {x y : SyncResult} → ok x ≡ ok y → x ≡ y
        same e = cc

        landing :
            (records : List ExternalRecord)
            → All Fits records
            → All Accepted records
            → (report : MirrorApplyReport) × ((apply_external_records h records db).0 ≡ ok report)
              × (report.applied + report.removed + report.skipped ≡ length records)
              × ((c x : String)
                  → mirrored h c x (apply_external_records h records db).1
                    ≡ said_all c x (mirrored h c x db) records)
        landing records fits accepted =
            let (report, completes, total, shows, still) =
              apply_complete h records db unique accepted fits known in
            (report, completes, total, shows)
