-- ===== src/Google/Landing.antt =====
-- Landing the records of an account's sync shows of each of its events what Google said last.
use nidaro.Base.{
  ℕ, ◌+◌, ◌≤◌, String, ◌≡◌, refl, sym, ap, ◌∙◌, subst, inl, inr, Bool, false, Option, none, some,
  List, [], ◌∷◌, arith, str_eq, if◌then◌else◌, Bool-cases, length, All, ok, true,
}
use nidaro.Base.{err≢ok}
use nidaro.Calendar.Zones.{Zones, resolve_timezone}
use nidaro.Calendar.Models.{
  EventPayload, ExternalRecord, MirrorApplyReport, model_validate, check_weekdays,
}
use nidaro.Calendar.Repository.{CalendarDb}
use nidaro.Calendar.Service.{apply_external_records}
use nidaro.Calendar.Repository.{knows}
use nidaro.Calendar.Mirror.Record.{IsUnique, mirrored, said, said_all}
use nidaro.Calendar.Mirror.Outcome.{Fits}
use nidaro.Calendar.Mirror.Batch.{Accepted, apply_complete}
use nidaro.Connectors.Store.{ConnectorContext}
use nidaro.Google.Models.{GoogleAccountCredentials, GoogleEvent, Moment}
use nidaro.Google.Http.{Session, Transport}
use nidaro.Google.Identity.{external_id, same-external_id}
use nidaro.Google.Mapping.{
  connector_name, or_empty, to_external_record, is_cancelled, parse_when, instant_of, live,
}
use nidaro.Google.Connector.{to_records, sync_account, time_min}
use nidaro.Google.Pages.{Serves, sync_pages-Serves, added-ok}

module _ (zones : Zones) (hash : GoogleEvent zones.Zone → String) where
  open zones use {Zone}

  -- What an event is shown as, by its start
  abbrev pub starting : Zone → GoogleEvent Zone → Option (Moment Zone) × Bool → Option EventPayload
  unfolding parse_when
  starting tz event (none, whole) = none
  starting tz event (some m, whole) = some (record {
    title = or_empty event.summary;
    starts_at = m.instant;
    ends_at = instant_of zones (parse_when zones event.end_at tz).0;
    description = event.description;
    location = event.location;
    is_all_day = whole;
    recurrence_weekdays = none;
  })

  -- What Google's word on an event shows of it: nothing once it is cancelled
  abbrev pub shown : Zone → GoogleEvent Zone → Option EventPayload
  unfolding parse_when
  shown tz event =
      if is_cancelled zones hash event
      then none
      else starting tz event (parse_when zones event.start tz)

  -- What is shown of one event of the calendar after these words, in their order
  unfoldable pub latest :
      Zone → String → Option EventPayload → List (GoogleEvent Zone) → Option EventPayload
  unfolding parse_when
  latest tz id before [] = before
  latest tz id before (event ∷ events) =
      latest tz id (if str_eq (or_empty event.id) id then shown tz event else before) events

  -- What the record of an event is
  unfoldable pub IsRecordOf :
      GoogleAccountCredentials → Zone → GoogleEvent Zone → ExternalRecord → Type 0
  IsRecordOf account tz event r =
      (r.external_id ≡ external_id account.email account.calendar_id (or_empty event.id))
      × Accepted r
      × ((before : Option EventPayload) (id : String)
          → said connector_name (external_id account.email account.calendar_id id) before r
            ≡ (if str_eq (or_empty event.id) id then shown tz event else before))

  live-IsRecordOf :
      (account : GoogleAccountCredentials) (tz : Zone) (event : GoogleEvent Zone) (at : ℕ)
      (r : ExternalRecord) (start : Option (Moment Zone) × Bool)
      → is_cancelled zones hash event ≡ false
      → parse_when zones event.start tz ≡ start
      → live zones hash
          (external_id account.email account.calendar_id (or_empty event.id))
          event
          at
          start
          (parse_when zones event.end_at tz).0
        ≡ ok r
      → IsRecordOf account tz event r
  unfolding IsRecordOf said model_validate check_weekdays parse_when
  live-IsRecordOf account tz event at r (none, whole) c p e = absurd (err≢ok e)
  live-IsRecordOf account tz event at r (some m, whole) c p e =
      subst (IsRecordOf account tz event) (same e) (
        refl,
        inr (inr (_, refl)),
        (λ before id.
            rw (same-external_id account.email account.calendar_id (or_empty event.id) id, c, p)
              refl),
      )
    where
      same : {x r : ExternalRecord} → ok x ≡ ok r → x ≡ r
      same e = cc

  pub to_external_record-IsRecordOf :
      (account : GoogleAccountCredentials) (timezone : String) (event : GoogleEvent Zone) (at : ℕ)
      (r : ExternalRecord)
      → to_external_record zones hash account event at timezone ≡ ok r
      → IsRecordOf account (resolve_timezone zones (some timezone)) event r
  unfolding IsRecordOf to_external_record said parse_when
  to_external_record-IsRecordOf account timezone event at r e =
      elim (Bool-cases (is_cancelled zones hash event)) [
        | inr n ↦
            live-IsRecordOf account (resolve_timezone zones (some timezone)) event at r
              (parse_when zones event.start (resolve_timezone zones (some timezone))) n refl
              (rw n at e)
        | inl y ↦
            subst (IsRecordOf account (resolve_timezone zones (some timezone)) event)
              (same (rw y at e))
              (
                refl,
                inl refl,
                (λ before id.
                    rw
                      (same-external_id account.email account.calendar_id (or_empty event.id) id, y)
                      refl),
              )
      ]
    where
      same : {x r : ExternalRecord} → ok x ≡ ok r → x ≡ r
      same e = cc

  -- Acceptable records, as many as the events, that say what these say
  abbrev Says :
      GoogleAccountCredentials → String → List (GoogleEvent Zone) → List ExternalRecord → Type 0
  Says account timezone events rs =
      All Accepted rs
      × (length rs ≡ length events)
      × ((before : Option EventPayload) (id : String)
          → said_all connector_name (external_id account.email account.calendar_id id) before rs
            ≡ latest (resolve_timezone zones (some timezone)) id before events)

  to_records-latest :
      (account : GoogleAccountCredentials) (timezone : String) (at : ℕ)
      (events : List (GoogleEvent Zone)) (rs : List ExternalRecord)
      → to_records zones hash account at timezone events ≡ ok rs
      → Says account timezone events rs
  unfolding to_records said_all latest IsRecordOf
  to_records-latest account timezone at [] [] e = (tt, refl, (λ before id. refl))
  to_records-latest account timezone at [] (r ∷ rs) e = cc
  to_records-latest account timezone at (event ∷ events) rs e =
      let (r, more, one, others, whole) =
        added-ok (to_external_record zones hash account event at timezone)
          (to_records zones hash account at timezone events) rs e in
      let (identity, accepted, says) =
        to_external_record-IsRecordOf account timezone event at r one in
      let (all_accepted, counts, all_say) =
        to_records-latest account timezone at events more others in
      subst (Says account timezone (event ∷ events)) (sym whole) (
        (accepted, all_accepted),
        omega (arith, counts),
        (λ before id.
            ap
              (λ b.
                said_all connector_name (external_id account.email account.calendar_id id) b more)
              (says before id)
            ∙ all_say _ id),
      )

  module _ {N : Type 0} (google : Transport Zone N) where
    -- Where Google serves an account's listing in at most as many pages as the loop may turn, and each
    -- of its events has a start or is cancelled, the sync of the account returns a record of each event
    -- and the last page's sync token. Landing the records in a calendar with unique identities
    -- of a known household, where the texts of the records fit in its columns, completes and counts
    -- each once; then each event of that Google calendar is shown as Google's
    -- last word on it says, gone if it was cancelled, and as before if the listing does not name it.
    pub sync_account-mirrors :
        (limit n : ℕ) (context : ConnectorContext) (account : GoogleAccountCredentials)
        (sync_token : Option String) (at : ℕ) (s after : Session N)
        (events : List (GoogleEvent Zone)) (token : String) (rs : List ExternalRecord) (h : ℕ)
        (db : CalendarDb)
        → let tz = resolve_timezone zones (some context.timezone) in
          Serves zones hash google account sync_token
            (time_min zones sync_token tz (google.clock s.net))
            n
            none
            s
            events
            token
            after
          → n ≤ limit
          → to_records zones hash account at context.timezone events ≡ ok rs
          → IsUnique db
          → All Fits rs
          → knows h db ≡ true
          → (sync_account zones hash google limit context account sync_token at s
              ≡ (ok (rs, token), after))
            × ((report : MirrorApplyReport) × ((apply_external_records h rs db).0 ≡ ok report)
                × (report.applied + report.removed + report.skipped ≡ length events))
            × ((id : String)
                → let x = external_id account.email account.calendar_id id in
                  mirrored h connector_name x (apply_external_records h rs db).1
                  ≡ latest tz id (mirrored h connector_name x db) events)
    unfolding sync_account
    sync_account-mirrors limit n context account sync_token at s after events token rs h db served
          enough made unique fit known =
        let (accepted, counts, says) =
          to_records-latest account context.timezone at events rs made in
        let (report, completes, total, shows, still) =
          apply_complete h rs db unique accepted fit known in
        (
          sync_pages-Serves zones hash google account sync_token _ at context.timezone n limit none
              s after events token [] rs served enough made,
          (report, completes, total ∙ counts),
          (λ id.
              shows connector_name (external_id account.email account.calendar_id id) ∙ says _ id),
        )
