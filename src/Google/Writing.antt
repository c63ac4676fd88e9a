-- ===== src/Google/Writing.antt =====
-- The writes to Google are all or nothing for the calendar.
use nidaro.Base.{
  ℕ, String, ◌≡◌, Bool, ◌&&◌, Option, none, List, str_eq, if◌then◌else◌, is_some, Result, ok,
}
use nidaro.Calendar.Zones.{Zones}
use nidaro.Calendar.Repository.{CalendarDb}
use nidaro.Calendar.Mirror.Record.{mirrored}
use nidaro.Connectors.Credentials.{Fernet, SecretBox}
use nidaro.Google.Models.{GoogleAccountCredentials, GoogleEvent, UpdateFields}
use nidaro.Google.Http.{Session, Transport}
use nidaro.Google.Client.{
  delete_event as delete_on_google, get_event, insert_event, update_event as update_on_google,
}
use nidaro.Google.Accounts.{Google}
use nidaro.Google.Mapping.{connector_name}
use nidaro.Google.Bodies.{merge_event_update}
use nidaro.Google.Writes.{requested, CreateRequest, delete_event, for_guests, update_event}
use nidaro.Calendar.Service.{get_mirror}
use nidaro.Google.Atomic.{Atomic}

module _ (zones : Zones) (hash : GoogleEvent zones.Zone → String) {Nonce N : Type 0}
    (google : Transport zones.Zone N) (F : Fernet Nonce) (box : Option SecretBox)
    (order : String → String → Bool) where
  open zones use {Zone}

  -- Google answered with this event an update of one that it had: the changes merged into what it
  -- held, under the etag of that.
  abbrev pub Updated : UpdateFields Zone → GoogleAccountCredentials → GoogleEvent Zone → Type 0
  Updated changes account event =
      (id : String) × (existing body : GoogleEvent Zone) × (tz : Zone) × (t u : Session N)
      × ((get_event google account id t).0 ≡ ok existing)
      × (merge_event_update zones existing changes tz ≡ ok body)
      × ((update_on_google google account id body existing.etag u).0 ≡ ok event)

  -- Google answered with this event the creation of the event that was requested.
  abbrev pub Created :
      String
      → CreateRequest Zone
      → List String
      → GoogleAccountCredentials
      → GoogleEvent Zone
      → Type 0
  Created hex request attendees account event =
      (tz : Zone) × (t : Session N) × ((insert_event google account
          (requested zones hex request attendees tz) (for_guests attendees) t).0
        ≡ ok event)

  -- The mirror is gone, every other one stays, and the answer tells whether there was one.
  abbrev pub Deleted : ℕ → String → CalendarDb → Result Bool × CalendarDb → Type 0
  Deleted h x db out =
      (out.0 ≡ ok (is_some (get_mirror h connector_name x db)))
      × ((c y : String)
          → mirrored h c y out.1
            ≡ (if str_eq connector_name c && str_eq x y then none else mirrored h c y db))
