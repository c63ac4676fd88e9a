-- ===== src/Google/Http.antt =====
-- What client.py and oauth.py exchange: requests, responses and tokens, and how they are read. The
-- transport is a parameter: an exchange takes a request to the status and the body of the response,
-- or raises. Request texts are modelled by what goes into them.
use nidaro.Base.{
  ℕ, ◌+◌, String, Bool, Option, none, some, List, [], ◌∷◌, str_eq, ltb, ◌==◌, if◌then◌else◌, mem,
  Result, ok, err, Exec,
}
use nidaro.Base.{
  is_truthy, stale_cursor, precondition_failed, google_api_error, invalid_grant, other_error,
}
use nidaro.Google.Models.{GoogleEvent}

-- The paths of the requests, by their parts
pub data Endpoint : Type 0 where
  event_list : String → Endpoint
  event_item : String → String → Endpoint
  primary_calendar : Endpoint

pub data Param : Type 0 where
  text_param : String → Param
  number_param time_param : ℕ → Param

pub record Request (Zone : Type 0) : Type 0 where
  pub method : String
  pub endpoint : Endpoint
  pub bearer : String
  pub params : List (String × Param)
  pub if_match : Option String
  pub json : Option (GoogleEvent Zone)

-- A JSON object by the keys that the code reads of it, as a page of events and as an event
pub record Body (Zone : Type 0) : Type 0 where
  pub items : List (GoogleEvent Zone)
  pub next_page_token : Option String
  pub next_sync_token : Option String
  pub resource : GoogleEvent Zone

pub record Response (Zone : Type 0) : Type 0 where
  pub status_code : ℕ
  pub content : Option (Body Zone)

-- The two forms that the token endpoint is sent, and its answer
pub data Grant : Type 0 where
  authorization_code refresh_grant : String → Grant

pub record TokenReply : Type 0 where
  pub token_status : ℕ
  pub error_detail : String
  pub access_token : String
  pub expires_in : ℕ
  pub new_refresh_token : Option String
  pub scope : List String

pub record Transport (Zone N : Type 0) : Type 0 where
  pub configured : Bool
  pub http_request : Request Zone → Exec N (Response Zone)
  pub token_post : Grant → Exec N TokenReply
  pub clock : N → ℕ

pub record CachedToken : Type 0 where
  pub token : String
  pub expires_at : ℕ

-- `_tokens` of the client, and the rest of the world
pub record Session (N : Type 0) : Type 0 where
  pub tokens : List (String × CachedToken)
  pub net : N

-- `EventsPage`
pub record EventsPage (Zone : Type 0) : Type 0 where
  pub events : List (GoogleEvent Zone)
  pub next_page_token : Option String
  pub next_sync_token : Option String

abbrev pub access_token_margin : ℕ
access_token_margin = 60_000_000

-- `now < expires_at - ACCESS_TOKEN_MARGIN`
unfoldable pub is_valid : ℕ → CachedToken → Bool
is_valid now cached = ltb (now + access_token_margin) cached.expires_at

abbrev pub empty_event : {Zone : Type 0} → GoogleEvent Zone
empty_event = record {
  id = none;
  status = none;
  etag = none;
  summary = none;
  description = none;
  location = none;
  start = none;
  end_at = none;
  recurrence = [];
  attendees = [];
  extended_properties = none;
  rest = [];
}

abbrev pub body_of : {Zone : Type 0} → Option (Body Zone) → Body Zone
body_of none = record {
  items = [];
  next_page_token = none;
  next_sync_token = none;
  resource = empty_event;
}
body_of (some body) = body

-- What `_request` makes of the response
unfoldable pub read_response : {Zone : Type 0} → List ℕ → Response Zone → Result (Body Zone)
read_response expected r =
    if mem r.status_code expected
    then ok (body_of (if r.status_code == 204 then none else r.content))
    else if r.status_code == 410
    then err stale_cursor
    else if r.status_code == 412
    then err precondition_failed
    else err google_api_error

unfoldable pub read_tokens : TokenReply → Result TokenReply
read_tokens reply =
    if reply.token_status == 200
    then ok reply
    else if str_eq reply.error_detail "invalid_grant"
    then err invalid_grant
    else err other_error

abbrev pub optional : {A B : Type 0} → (A → B) → Option A → List B
optional f none = []
optional f (some a) = f a ∷ []

-- A header or parameter that is set only where the text is not empty
abbrev pub given_text : Option String → Option String
given_text none = none
given_text (some t) = if is_truthy t then some t else none

abbrev pub sync_params : Option String → Option ℕ → List (String × Param)
sync_params none time_min = optional (λ t. ("timeMin", time_param t)) time_min
sync_params (some token) time_min = ("syncToken", text_param token) ∷ []
