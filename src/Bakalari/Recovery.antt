-- ===== src/Bakalari/Recovery.antt =====
-- A read whose access token has expired.
use nidaro.Base.{String, ◌≡◌, refl, ◌⊎◌, inl, inr, true, some, List, ◌==◌, ok, err}
use nidaro.Base.{String, ◌≡◌, refl, true, some, List, ◌==◌, ok, err}
use nidaro.Base.{bakalari_auth}
use nidaro.Bakalari.Client.{
  BakalariTokens, Response, School, Session, TokenReply, get_json, held, login, password_grant,
  read_reply, read_response, recover, refresh, refresh_grant, send, token_request,
}

module _ {Json W : Type 0} (school : School Json W) where
  -- Where the token that is held is refused with 401, a refresh token is held with it, the server
  -- answers its redemption, and this grants new tokens or, where it is rejected, a log-in by password
  -- does, the read goes on with these: if the second GET answers 200, its JSON is returned, and the
  -- new tokens are stored.
  pub get_json-recovers :
      (path : String) (params : List (String × String)) (s : Session W) (old new : BakalariTokens)
      (t : String) (refused accepted : Response Json) (reply : TokenReply) (w₁ w₂ w₃ w₄ : W)
      → held (some old) ≡ some t
      → school.get path params old.access_token s.net ≡ (ok refused, w₁)
      → (refused.status_code == 401) ≡ true
      → school.post (refresh_grant t) w₁ ≡ (ok reply, w₂)
      → ((read_reply reply ≡ ok new) × (w₂ ≡ w₃))
        ⊎ ((read_reply reply ≡ err bakalari_auth)
            × ((granted : TokenReply) × (school.post (password_grant s.username s.password) w₂
                  ≡ (ok granted, w₃))
                × (read_reply granted ≡ ok new)))
      → school.get path params new.access_token w₃ ≡ (ok accepted, w₄)
      → accepted.status_code ≡ 200
      → get_json school path params (record s { tokens = some old })
        ≡ (ok accepted.json, record s { tokens = some new; net = w₄ })
  unfolding get_json send recover refresh token_request login read_response
  get_json-recovers path params s old new t refused accepted reply w₁ w₂ w₃ w₄ has denied expired
        asked (inl (renewed, same)) got fine =
      rw (denied, expired, has, asked, renewed, same, got, fine) refl
  get_json-recovers path params s old new t refused accepted reply w₁ w₂ w₃ w₄ has denied expired
        asked (inr (rejected, (granted, answered, renewed))) got fine =
      rw (denied, expired, has, asked, rejected, answered, renewed, got, fine) refl
