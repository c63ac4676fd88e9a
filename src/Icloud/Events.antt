-- ===== src/Icloud/Events.antt =====
-- icloud_ics.py: the identity, the weekdays, the payload and the hash of a decoded event.
use nidaro.Base.{
  ℕ, String, Bool, false, ◌||◌, Option, none, some, List, [], ◌∷◌, map, str_eq, leb, if◌then◌else◌,
}
use Prim.Native.Char.{Char}
use Prim.Native.String.{◌++◌ as concat}
use Prim.Native.String as S
use nidaro.Base.Assoc.{lookup}
use nidaro.Base.Sort.{sort}
use nidaro.Calendar.Zones.{Moment, Zones, weekday}
use nidaro.Calendar.Models.{EventPayload, Payload, fields}
use nidaro.Icloud.Ics.{IcsEvent, Texts}

abbrev slash : Char
slash = "/"

abbrev pub weekday_code : String → Option ℕ
weekday_code t =
    if str_eq t "MO"
    then some 0
    else if str_eq t "TU"
    then some 1
    else if str_eq t "WE"
    then some 2
    else if str_eq t "TH"
    then some 3
    else if str_eq t "FR"
    then some 4
    else if str_eq t "SA"
    then some 5
    else if str_eq t "SU"
    then some 6
    else none

abbrev pub or_empty_list : Option (List String) → List String
or_empty_list none = []
or_empty_list (some l) = l

abbrev pub text_in : String → List String → Bool
text_in t [] = false
text_in t (x ∷ xs) = str_eq x t || text_in t xs

abbrev pub with_code : Option ℕ → List ℕ → List ℕ
with_code none days = days
with_code (some day) days = day ∷ days

abbrev pub or_anchor : ℕ → List ℕ → List ℕ
or_anchor anchor [] = anchor ∷ []
or_anchor anchor (day ∷ days) = day ∷ days

module _ (texts : Texts) (zones : Zones) where
  open texts use {upper, order, iso}
  open zones use {Zone, to_local}

  abbrev identity_of : String → Option (Moment Zone) → String
  identity_of uid none = uid
  identity_of uid (some moment) = concat uid (S.◌∷◌ slash (iso moment.instant))

  unfoldable pub external_id : IcsEvent texts zones → String
  external_id event = identity_of event.uid event.recurrence_id

  abbrev pub codes_in : List String → List ℕ
  codes_in [] = []
  codes_in (t ∷ ts) = with_code (weekday_code (upper t)) (codes_in ts)

  abbrev pub days_of_rule : Moment Zone → Option (List (String × List String)) → Option (List ℕ)
  days_of_rule start none = none
  days_of_rule start (some rule) =
      let freq = map upper (or_empty_list (lookup "freq" rule)) in
      if text_in "DAILY" freq
      then some (0 ∷ 1 ∷ 2 ∷ 3 ∷ 4 ∷ 5 ∷ 6 ∷ [])
      else if text_in "WEEKLY" freq
      then some (
          or_anchor (weekday (to_local start.zone start.instant).day)
            (sort leb (codes_in (or_empty_list (lookup "byday" rule)))))
      else none

  unfoldable pub series_weekdays : IcsEvent texts zones → Option (List ℕ)
  series_weekdays event = days_of_rule event.starts_at event.rrule

  abbrev instant_of : Option (Moment Zone) → Option ℕ
  instant_of none = none
  instant_of (some m) = some m.instant

  -- The keys of `record_payload` that the calendar reads; the others are provenance.
  abbrev pub event_fields : IcsEvent texts zones → EventPayload
  unfolding series_weekdays
  event_fields event = record {
    title = event.title;
    starts_at = event.starts_at.instant;
    ends_at = instant_of event.ends_at;
    description = event.description;
    location = event.location;
    is_all_day = event.is_all_day;
    recurrence_weekdays = series_weekdays event;
  }

  unfoldable pub record_payload : IcsEvent texts zones → Payload
  unfolding series_weekdays
  record_payload event = fields (event_fields event)

  -- What `content_hash` projects an event to
  pub record Projection : Type 0 where
    pub title : String
    pub starts_at : ℕ
    pub ends_at : Option ℕ
    pub is_all_day : Bool
    pub description : Option String
    pub location : Option String
    pub status : String
    pub recurrence_id : Option ℕ
    pub rrule : Option (List (String × List String))

  -- `_canonical_rrule`, before its entries are joined to texts
  abbrev canonical_rrule :
      Option (List (String × List String)) → Option (List (String × List String))
  canonical_rrule none = none
  canonical_rrule (some rule) = some (sort (λ a b. order a.0 b.0) rule)

  -- `digest` is the hash of the canonical JSON.
  unfoldable pub content_hash : (Projection → String) → IcsEvent texts zones → String
  content_hash digest event = digest (record {
    title = event.title;
    starts_at = event.starts_at.instant;
    ends_at = instant_of event.ends_at;
    is_all_day = event.is_all_day;
    description = event.description;
    location = event.location;
    status = event.status;
    recurrence_id = instant_of event.recurrence_id;
    rrule = canonical_rrule event.rrule;
  })
