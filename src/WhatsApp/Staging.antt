-- ===== src/WhatsApp/Staging.antt =====
-- connectors/whatsapp/models.py and connectors/whatsapp/repository.py. The raw payload is JSON, which
-- no code here looks into. The insert draws an identifier from the sequence before the database sees
-- that the message is already staged, or that its household is none, so the sequence moves on in
-- these cases too.
use nidaro.Base.{
  ℕ, suc, String, Bool, true, false, ◌&&◌, Option, none, some, List, [], ◌∷◌, ◌++◌, str_eq, ltb,
  leb, ◌==◌, if◌then◌else◌, keep, any, take, fits, not, mem, err, ok, data_error, integrity_error,
  Exec,
}
use nidaro.Base.Sort.{sort}

-- What a producer hands over: a column without a value is none.
pub record Incoming (Json : Type 0) : Type 0 where
  pub household_id : ℕ
  pub wamid : String
  pub source : String
  pub type : String
  pub body : Option String
  pub from_user_id : Option String
  pub wa_id : Option String
  pub group_id : Option String
  pub context_id : Option String
  pub forwarded : Option Bool
  pub payload : Option Json
  pub observed_at : ℕ

pub record WhatsAppEvent (Json : Type 0) : Type 0 where
  pub id : ℕ
  pub household_id : ℕ
  pub wamid : String
  pub source : String
  pub type : String
  pub body : Option String
  pub from_user_id : Option String
  pub wa_id : Option String
  pub group_id : Option String
  pub context_id : Option String
  pub forwarded : Bool
  pub payload : Json
  pub observed_at : ℕ

-- `households` are the rows that the foreign key refers to.
pub record State (Json : Type 0) : Type 0 where
  pub households : List ℕ
  pub events : List (WhatsAppEvent Json)
  pub next_id : ℕ

abbrev pub default_batch : ℕ
default_batch = 500

abbrev or_else {ℓ} : {A : Type ℓ} → A → Option A → A
or_else a none = a
or_else a (some b) = b

abbrev pub beyond : Option ℕ → ℕ → Bool
beyond none i = true
beyond (some after) i = ltb after i

module _ {Json : Type 0} where
  abbrev pub has_wamid : String → WhatsAppEvent Json → Bool
  has_wamid wamid r = str_eq r.wamid wamid

  -- The values of the INSERT; `empty` is the JSON object without members.
  unfoldable pub new_row : Json → ℕ → Incoming Json → WhatsAppEvent Json
  new_row empty next event = record {
    id = next;
    household_id = event.household_id;
    wamid = event.wamid;
    source = event.source;
    type = event.type;
    body = event.body;
    from_user_id = event.from_user_id;
    wa_id = event.wa_id;
    group_id = event.group_id;
    context_id = event.context_id;
    forwarded = or_else false event.forwarded;
    payload = or_else empty event.payload;
    observed_at = event.observed_at;
  }

  -- The `VARCHAR`s of the table
  abbrev pub fits_columns : Incoming Json → Bool
  fits_columns event = fits 250 event.wamid && (fits 40 event.source && fits 40 event.type)

  -- `ON CONFLICT (wamid) DO NOTHING`; a text too long for its column is refused before anything else.
  unfoldable pub stage : Json → Incoming Json → Exec (State Json) (Option (WhatsAppEvent Json))
  stage empty event s =
      if not (fits_columns event)
      then (err data_error, s)
      else if any (has_wamid event.wamid) s.events
      then (ok none, record s { next_id = suc s.next_id })
      else if mem event.household_id s.households
      then (
        ok (some (new_row empty s.next_id event)),
        record s {
          events = s.events ++ new_row empty s.next_id event ∷ [];
          next_id = suc s.next_id;
        },
      )
      else (err integrity_error, record s { next_id = suc s.next_id })

  unfoldable pub unprocessed : ℕ → Option ℕ → ℕ → State Json → List (WhatsAppEvent Json)
  unprocessed household after limit s = take limit (
      sort (λ a b. leb a.id b.id)
        (keep (λ r. r.household_id == household && beyond after r.id) s.events))
