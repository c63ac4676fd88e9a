-- ===== src/Google/Client.antt =====
-- client.py and oauth.py: GoogleCalendarClient, with its cache of access tokens.
use nidaro.Base.{
  ℕ, ◌+◌, ◌*◌, String, Option, none, some, List, [], ◌∷◌, ◌++◌, if◌then◌else◌, ok, Exec, pure,
  raise, lift, modify, ◌>>=◌, ◌>>◌,
}
use nidaro.Base.{not_configured}
use nidaro.Base.Assoc.{lookup, put}
use nidaro.Google.Models.{GoogleAccountCredentials, GoogleEvent}
use nidaro.Google.Http.{
  Endpoint, Param, Body, Grant, TokenReply, Transport, CachedToken, Session, EventsPage, is_valid,
  read_response, read_tokens, optional, given_text, sync_params, event_list, event_item,
  primary_calendar, text_param, number_param, refresh_grant,
}

module _ {Zone N : Type 0} (google : Transport Zone N) where
  abbrev pub on_net : {A : Type 0} → Exec N A → Exec (Session N) A
  on_net m s = ((m s.net).0, record s { net = (m s.net).1 })

  unfoldable pub remember : String → TokenReply → Session N → Session N
  remember refresh_token reply s = record s {
    tokens =
        put refresh_token
          (record {
            token = reply.access_token;
            expires_at = google.clock s.net + reply.expires_in * 1_000_000;
          })
          s.tokens;
  }

  -- `_token_request`
  unfoldable pub token_request : Grant → Exec N TokenReply
  unfolding read_tokens
  token_request grant = google.token_post grant >>= λ reply. lift (read_tokens reply)

  unfoldable pub refresh : String → Exec (Session N) String
  unfolding remember token_request
  refresh refresh_token =
      if google.configured
      then (do
        reply ← on_net (token_request (refresh_grant refresh_token))
        modify (remember refresh_token reply)
        pure reply.access_token)
      else raise not_configured

  abbrev pub token_from : Option CachedToken → String → Exec (Session N) String
  token_from none refresh_token s = refresh refresh_token s
  token_from (some cached) refresh_token s =
      if is_valid (google.clock s.net) cached then (ok cached.token, s) else refresh refresh_token s

  -- `_access_token`
  unfoldable pub get_access_token : String → Exec (Session N) String
  get_access_token refresh_token s = token_from (lookup refresh_token s.tokens) refresh_token s

  -- `_request`
  unfoldable pub request :
      String
      → Endpoint
      → GoogleAccountCredentials
      → List (String × Param)
      → Option String
      → Option (GoogleEvent Zone)
      → List ℕ
      → Exec (Session N) (Body Zone)
  unfolding get_access_token read_response
  request method endpoint account params if_match json expected = do
    token ← get_access_token account.refresh_token
    response ← on_net (
        google.http_request (record {
          method = method;
          endpoint = endpoint;
          bearer = token;
          params = params;
          if_match = if_match;
          json = json;
        }))
    lift (read_response expected response)

  unfoldable pub list_events :
      GoogleAccountCredentials
      → Option String
      → Option String
      → Option ℕ
      → Exec (Session N) (EventsPage Zone)
  unfolding request
  list_events account sync_token page_token time_min = do
    answer ←
        request "GET" (event_list account.calendar_id) account
          (("maxResults", number_param 2500)
            ∷ ("singleEvents", text_param "true")
            ∷ (sync_params sync_token time_min
                ++ optional (λ t. ("pageToken", text_param t)) page_token))
          none none (200 ∷ 204 ∷ [])
    pure (record {
      events = answer.items;
      next_page_token = answer.next_page_token;
      next_sync_token = answer.next_sync_token;
    })

  unfoldable pub primary_calendar_for_token : String → Exec (Session N) (GoogleEvent Zone)
  unfolding request
  primary_calendar_for_token refresh_token = do
    answer ←
        request "GET" primary_calendar
          (record {
            email = "";
            calendar_id = "primary";
            scopes = [];
            refresh_token = refresh_token;
          })
          [] none none (200 ∷ 204 ∷ [])
    pure answer.resource

  unfoldable pub insert_event :
      GoogleAccountCredentials
      → GoogleEvent Zone
      → Option String
      → Exec (Session N) (GoogleEvent Zone)
  unfolding request
  insert_event account body send_updates = do
    answer ←
        request "POST" (event_list account.calendar_id) account
          (optional (λ t. ("sendUpdates", text_param t)) (given_text send_updates)) none (some body)
          (200 ∷ 204 ∷ [])
    pure answer.resource

  unfoldable pub get_event : GoogleAccountCredentials → String → Exec (Session N) (GoogleEvent Zone)
  unfolding request
  get_event account event_id = do
    answer ←
        request "GET" (event_item account.calendar_id event_id) account [] none none
          (200 ∷ 204 ∷ [])
    pure answer.resource

  unfoldable pub update_event :
      GoogleAccountCredentials
      → String
      → GoogleEvent Zone
      → Option String
      → Exec (Session N) (GoogleEvent Zone)
  unfolding request
  update_event account event_id body if_match = do
    answer ←
        request "PUT" (event_item account.calendar_id event_id) account [] (given_text if_match)
          (some body) (200 ∷ 204 ∷ [])
    pure answer.resource

  unfoldable pub delete_event : GoogleAccountCredentials → String → Exec (Session N) (Unit {0})
  unfolding request
  delete_event account event_id = do
    answer ←
        request "DELETE" (event_item account.calendar_id event_id) account [] none none
          (200 ∷ 204 ∷ 410 ∷ [])
    pure tt
