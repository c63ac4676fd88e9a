-- ===== src/Bakalari/Client.antt =====
-- bakalari_client.py: BakalariClient. The package httpx is a parameter: a GET or a token request goes
-- to the status and the body of the response, or raises. JSON is any type.
use nidaro.Base.{
  ℕ, String, Option, none, some, List, [], ◌∷◌, ◌==◌, if◌then◌else◌, Exn, Result, ok, err, Exec,
  pure, raise, lift, try_except, ◌>>=◌,
}
use nidaro.Base.{bakalari_auth, bakalari_request, is_truthy}

pub record BakalariTokens : Type 0 where
  pub access_token : String
  pub refresh_token : Option String

-- The two forms of a token request
pub data Form : Type 0 where
  password_grant : String → String → Form
  refresh_grant : String → Form

pub record TokenReply : Type 0 where
  pub token_status : ℕ
  pub access : Option String
  pub renewed : Option String

pub record Response (Json : Type 0) : Type 0 where
  pub status_code : ℕ
  pub json : Json

-- A GET has a path, its query parameters and the bearer token.
pub record School (Json W : Type 0) : Type 0 where
  pub get : String → List (String × String) → String → Exec W (Response Json)
  pub post : Form → Exec W TokenReply

pub record Session (W : Type 0) : Type 0 where
  pub username : String
  pub password : String
  pub tokens : Option BakalariTokens
  pub net : W

abbrev access_of : TokenReply → Option String → Result BakalariTokens
access_of reply none = err bakalari_auth
access_of reply (some access) =
    if is_truthy access
    then ok (record { access_token = access; refresh_token = reply.renewed })
    else err bakalari_auth

unfoldable pub read_reply : TokenReply → Result BakalariTokens
read_reply reply =
    if reply.token_status == 200 then access_of reply reply.access else err bakalari_auth

-- The refresh token that is held, unless it is missing or empty
abbrev pub held : Option BakalariTokens → Option String
held none = none
held (some tokens) = elim tokens.refresh_token [
  | none ↦ none
  | some t ↦ if is_truthy t then some t else none
]

-- `_bearer`
abbrev pub bearer : Option BakalariTokens → Result String
bearer none = err bakalari_auth
bearer (some tokens) = ok tokens.access_token

-- The end of `get_json`
unfoldable pub read_response : {Json : Type 0} → Response Json → Result Json
read_response response =
    if response.status_code == 401
    then err bakalari_auth
    else if response.status_code == 200
    then ok response.json
    else err bakalari_request

module _ {Json W : Type 0} (school : School Json W) where
  abbrev pub on_net : {A : Type 0} → Exec W A → Exec (Session W) A
  on_net m s = ((m s.net).0, record s { net = (m s.net).1 })

  -- `_token_request`, whose tokens the callers store
  unfoldable pub token_request : Form → Exec (Session W) BakalariTokens
  unfolding read_reply
  token_request form = on_net (school.post form) >>= λ reply. lift (read_reply reply)

  abbrev pub store : BakalariTokens → Exec (Session W) BakalariTokens
  store tokens s = (ok tokens, record s { tokens = some tokens })

  unfoldable pub login : Exec (Session W) BakalariTokens
  login s = (token_request (password_grant s.username s.password) >>= store) s

  abbrev pub refresh_with : Option String → Exec (Session W) (Option BakalariTokens)
  refresh_with none = pure none
  refresh_with (some t) =
      (token_request (refresh_grant t) >>= store) >>= λ tokens. pure (some tokens)

  unfoldable pub refresh : Exec (Session W) (Option BakalariTokens)
  refresh s = refresh_with (held s.tokens) s

  abbrev pub rejected : Exn → Exec (Session W) (Option BakalariTokens)
  rejected bakalari_auth = pure none
  rejected e = raise e

  abbrev pub login_unless : Option BakalariTokens → Exec (Session W) (Unit {0})
  login_unless none = login >>= λ tokens. pure tt
  login_unless (some tokens) = pure tt

  -- `_recover`
  unfoldable pub recover : Exec (Session W) (Unit {0})
  recover = try_except refresh rejected >>= login_unless

  abbrev pub login_first : Option BakalariTokens → Exec (Session W) (Unit {0})
  login_first none = login >>= λ tokens. pure tt
  login_first (some tokens) = pure tt

  unfoldable pub send : String → List (String × String) → Exec (Session W) (Response Json)
  send path params s = (lift (bearer s.tokens) >>= λ token. on_net (school.get path params token)) s

  abbrev pub retried :
      String → List (String × String) → Response Json → Exec (Session W) (Response Json)
  retried path params response =
      if response.status_code == 401 then recover >>= (λ done. send path params) else pure response

  unfoldable pub get_json : String → List (String × String) → Exec (Session W) Json
  get_json path params s =
      (do
        ready ← login_first s.tokens
        response ← send path params
        final ← retried path params response
        lift (read_response final))
        s

  -- The endpoints; `day` is the text of a date.
  abbrev pub user : Exec (Session W) Json
  user = get_json "/api/3/user" []

  abbrev pub timetable_actual : String → Exec (Session W) Json
  timetable_actual day = get_json "/api/3/timetable/actual" (("date", day) ∷ [])

  abbrev pub substitutions : String → Exec (Session W) Json
  substitutions day = get_json "/api/3/substitutions" (("from", day) ∷ [])

  abbrev pub marks : Exec (Session W) Json
  marks = get_json "/api/3/marks" []

  abbrev pub homeworks : String → String → Exec (Session W) Json
  homeworks start end = get_json "/api/3/homeworks" (("from", start) ∷ ("to", end) ∷ [])
