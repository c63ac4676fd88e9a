-- ===== src/Calendar/Models.antt =====
-- models.py and schemas.py: events, and what a connector delivers for them.
use nidaro.Base.{
  ℕ, String, Bool, true, ◌&&◌, List, Option, none, some, Result, ok, err, validation_error, all,
  ltb, holds_text, ◌==◌, if◌then◌else◌, fits, fits_option,
}

-- The columns of `events` that the code reads or writes; `metadata` is never touched. Instants are
-- the time stamps as the database keeps them, members are their ids.
pub record Event : Type 0 where
  pub id : ℕ
  pub household_id : ℕ
  pub external_connector : Option String
  pub external_id : Option String
  pub title : String
  pub description : Option String
  pub starts_at : ℕ
  pub ends_at : Option ℕ
  pub is_all_day : Bool
  pub recurrence_weekdays : Option (List ℕ)
  pub location : Option String
  pub status : String
  pub participants : List ℕ

pub record Household : Type 0 where
  pub id : ℕ
  pub timezone : String

-- `ExternalEventPayload`: the fields of a live calendar record.
pub record EventPayload : Type 0 where
  pub title : String
  pub starts_at : ℕ
  pub ends_at : Option ℕ
  pub description : Option String
  pub location : Option String
  pub is_all_day : Bool
  pub recurrence_weekdays : Option (List ℕ)

-- The payload of a record, by what pydantic's coercion of its fields finds in it.
pub data Payload : Type 0 where
  fields : EventPayload → Payload
  foreign : Payload

-- `connectors/models.py`: one item landed from an external source.
pub record ExternalRecord : Type 0 where
  pub connector : String
  pub external_type : String
  pub external_id : String
  pub payload : Payload
  pub content_hash : String
  pub observed_at : ℕ
  pub deleted : Bool

-- The `VARCHAR`s of the table: title and location (0001_initial.py) hold 250 characters
abbrev pub fits_content : EventPayload → Bool
fits_content p = fits 250 p.title && fits_option 250 p.location

-- The columns of a new mirror, with its connector and external id
unfoldable pub fits_mirror : String → String → EventPayload → Bool
fits_mirror connector external p = fits_content p && (fits 100 connector && fits 250 external)

-- The field validator: every given weekday is in `range(7)`.
unfoldable pub check_weekdays : Option (List ℕ) → Bool
check_weekdays none = true
check_weekdays (some days) = all (λ day. ltb day 7) days

-- `ExternalEventPayload.model_validate`
unfoldable pub model_validate : Payload → Result EventPayload
unfolding check_weekdays
model_validate foreign = err validation_error
model_validate (fields p) =
    if check_weekdays p.recurrence_weekdays then ok p else err validation_error

pub record MirrorApplyReport : Type 0 where
  pub applied : ℕ
  pub removed : ℕ
  pub skipped : ℕ

-- The WHERE clause of `_mirror_row`.
unfoldable pub is_mirror : ℕ → String → String → Event → Bool
is_mirror household connector external e =
    e.household_id == household
    && (holds_text e.external_connector connector && holds_text e.external_id external)
