-- ===== src/Google/Atomic.antt =====
-- A write to Google leaves the calendar as it was, or lands in it what Google answered.
use nidaro.Base.{
  ℕ, String, ◌≡◌, refl, sym, ap, ◌∙◌, subst, ◌⊎◌, inl, inr, none, some, [], ◌∷◌, str_eq, eq_iff,
  if◌then◌else◌, Option-cases, Exn, Result, ok, err, Exec, ◌>>=◌, Result-cases,
}
use mathlib.Core.Option
use nidaro.Base.{google_write_error}
use nidaro.Calendar.Zones.{Zones, resolve_timezone}
use nidaro.Calendar.Models.{Event, ExternalRecord}
use nidaro.Calendar.Repository.{CalendarDb}
use nidaro.Calendar.Service.{apply_external_records, get_mirror}
use nidaro.Calendar.Mirror.Record.{IsUnique, content, mirrored, said_all}
use nidaro.Calendar.Mirror.Effects.{apply_says, apply_one-refused}
use nidaro.Connectors.Store.{State}
use nidaro.Google.Models.{GoogleAccountCredentials, GoogleEvent}
use nidaro.Google.Http.{Transport}
use nidaro.Google.Accounts.{Google}
use nidaro.Google.Identity.{external_id}
use nidaro.Google.Mapping.{connector_name, or_empty, to_external_record}
use nidaro.Google.Landing.{IsRecordOf, to_external_record-IsRecordOf, shown}
use nidaro.Google.Writes.{land, land_record, or_utc, household_timezone}

module _ (zones : Zones) (hash : GoogleEvent zones.Zone → String) where
  open zones use {Zone}

  abbrev zone_at : ℕ → CalendarDb → Zone
  zone_at h db = resolve_timezone zones (some (or_utc (household_timezone h db)))

  -- Of the account's calendar this event alone changes, to what is shown of it.
  abbrev ShowsOnly :
      ℕ → GoogleAccountCredentials → GoogleEvent Zone → CalendarDb → CalendarDb → Type 0
  ShowsOnly h account event db after =
      (id : String)
      → let x = external_id account.email account.calendar_id id in
        mirrored h connector_name x after ≡ (
          if str_eq (or_empty event.id) id
          then shown zones hash (zone_at h db) event
          else mirrored h connector_name x db)

  -- The outcome of landing an event: refused, or shown and returned, or, where nothing is to be shown
  -- of the event, an error
  abbrev pub Landing :
      ℕ
      → GoogleAccountCredentials
      → GoogleEvent Zone
      → CalendarDb
      → Result Event × CalendarDb
      → Type 0
  Landing h account event db out =
      ((e : Exn) × (out ≡ (err e, db)))
      ⊎ ((mirror : Event) × (out.0 ≡ ok mirror)
          × (shown zones hash (zone_at h db) event ≡ some (content mirror))
          × ShowsOnly h account event db out.1)
      ⊎ ((shown zones hash (zone_at h db) event ≡ none)
          × (out.0 ≡ err google_write_error)
          × ShowsOnly h account event db out.1)

  land_record-Landing :
      (h : ℕ) (account : GoogleAccountCredentials) (event : GoogleEvent Zone) (r : ExternalRecord)
      (db : CalendarDb)
      → IsUnique db
      → IsRecordOf zones hash account (zone_at h db) event r
      → Landing h account event db (land_record h r db)
  unfolding mirrored said_all IsRecordOf land_record
  land_record-Landing h account event r db unique (identity, accepted, says) =
      elim (Result-cases (apply_external_records h (r ∷ []) db).0) [
        | inr (e, failed) ↦ rw (apply_one-refused h r db e failed) (inl (e, refl))
        | inl (report, completes) ↦
            let after : CalendarDb = (apply_external_records h (r ∷ []) db).1 in
            let tz = zone_at h db in
            let alone : ShowsOnly h account event db after = λ id.
              apply_says h (r ∷ []) db connector_name
                (external_id account.email account.calendar_id id) unique completes
              ∙ says _ id in
            let word : mirrored h connector_name r.external_id after ≡ shown zones hash tz event =
              ap (λ x. mirrored h connector_name x after) identity
              ∙ alone (or_empty event.id)
              ∙ rw ((eq_iff (or_empty event.id) (or_empty event.id)).1 refl) refl in
            elim (Option-cases (get_mirror h connector_name r.external_id after)) [
              | inl missing ↦
                  rw (completes, missing)
                    (inr (inr (sym word ∙ ap (Option.map content) missing, refl, alone)))
              | inr (mirror, found) ↦
                  rw (completes, found)
                    (inr (inl (mirror, refl, sym word ∙ ap (Option.map content) found, alone)))
            ]
      ]

  module _ {N : Type 0} (google : Transport Zone N) where
    pub land-Landing :
        (h : ℕ) (account : GoogleAccountCredentials) (event : GoogleEvent Zone) (g : Google N)
        → IsUnique g.calendar
        → let out = land zones hash google h account event g in
          Landing h account event g.calendar (out.0, out.1.calendar)
    unfolding land
    land-Landing h account event g unique =
        elim (Result-cases (
          to_external_record zones hash account event (google.clock g.session.net)
            (or_utc (household_timezone h g.calendar)))) [
              | inr (e, refused) ↦ rw refused (inl (e, refl))
              | inl (r, made) ↦ rw made (
                  land_record-Landing h account event r g.calendar unique
                    (to_external_record-IsRecordOf zones hash account _ event _ r made))
            ]

    -- A landed event for which P holds
    abbrev pub Lands :
        (GoogleAccountCredentials → GoogleEvent Zone → Type 0)
        → ℕ
        → CalendarDb
        → Result Event × CalendarDb
        → Type 0
    Lands P h db out =
        (account : GoogleAccountCredentials) × (event : GoogleEvent Zone) × P account event
        × Landing h account event db out

-- What a write does to the calendar: nothing, with an error, or what Q says
abbrev pub Written :
    {A N : Type 0}
    → (CalendarDb → Result A × CalendarDb → Type 0)
    → CalendarDb
    → Result A × State (Google N)
    → Type 0
Written Q db out =
    ((e : Exn) × (out.0 ≡ err e) × (out.1.world.calendar ≡ db)) ⊎ Q db (out.0, out.1.world.calendar)

module _ {N : Type 0} where
  -- A step that leaves the calendar
  abbrev pub Calm : {A : Type 0} → Exec (State (Google N)) A → Type 0
  Calm m = (s : State (Google N)) → (m s).1.world.calendar ≡ s.world.calendar

  pub Calm-bind :
      {A B : Type 0} (m : Exec (State (Google N)) A) (f : A → Exec (State (Google N)) B)
      → Calm m
      → ((a : A) → Calm (f a))
      → Calm (m >>= f)
  Calm-bind m f c k s = elim (Result-cases (m s).0) [
    | inl (a, e) ↦ rw e (k a (m s).1 ∙ c s)
    | inr (x, e) ↦ rw e (c s)
  ]

  unfoldable pub Atomic :
      {A : Type 0}
      → (CalendarDb → Result A × CalendarDb → Type 0)
      → Exec (State (Google N)) A
      → Type 0
  Atomic Q m = (s : State (Google N)) → IsUnique s.world.calendar → Written Q s.world.calendar (m s)

  module _ {B : Type 0} (Q : CalendarDb → Result B × CalendarDb → Type 0) where
    pub Atomic-bind :
        {A : Type 0} (m : Exec (State (Google N)) A) (f : A → Exec (State (Google N)) B)
        → Calm m
        → ((a : A) → (t : State (Google N)) × ((m t).0 ≡ ok a) → Atomic Q (f a))
        → Atomic Q (m >>= f)
    unfolding Atomic
    Atomic-bind m f calm next s unique = elim (Result-cases (m s).0) [
      | inr (e, failed) ↦ rw failed (inl (e, refl, calm s))
      | inl (a, done) ↦ rw done (
          subst (λ db. Written Q db (f a (m s).1)) (calm s)
            (next a (s, done) (m s).1 (subst IsUnique (sym (calm s)) unique)))
    ]
