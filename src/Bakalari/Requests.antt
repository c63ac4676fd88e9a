-- ===== src/Bakalari/Requests.antt =====
-- How many requests of each kind one read of the school's server may make.
use nidaro.Base.{
  String, ◌≡◌, refl, subst, inl, inr, Option, none, some, List, arith, ◌==◌, Bool-cases, Exn, lift,
  try_except, ◌>>=◌,
}
use nidaro.Base.{bakalari_auth}
use nidaro.Bakalari.Client.{
  rejected, BakalariTokens, Form, Response, School, Session, bearer, get_json, held, login,
  login_first, login_unless, on_net, password_grant, read_response, recover, refresh, refresh_grant,
  refresh_with, retried, send, store, token_request,
}
use nidaro.Bakalari.Budget.{
  AtMost, AtMost-plus_same, Costs, Costs-bind, Costs-try, Counts, budget, counted, one_more, plus,
}

module _ {Json W : Type 0} (school : School Json W) where
  post-Costs :
      (form : Form) (s : Session (W × Counts))
      → AtMost
          (on_net (counted school) ((counted school).post form) s).1.net.1
          (plus s.net.1 (one_more form (budget 0 0 0)))
  post-Costs (password_grant u v) s = (omega arith, omega arith, omega arith)
  post-Costs (refresh_grant t) s = (omega arith, omega arith, omega arith)

  token_request-Costs :
      (form : Form)
      → Costs {W = W}
          (plus (one_more form (budget 0 0 0)) (budget 0 0 0))
          (token_request (counted school) form)
  unfolding token_request
  token_request-Costs form =
      Costs-bind (one_more form (budget 0 0 0)) (budget 0 0 0)
        (on_net (counted school) ((counted school).post form)) _ (post-Costs form)
        (λ reply s. AtMost-plus_same s.net.1 (budget 0 0 0))

  stored-Costs :
      (form : Form) (b : Counts)
      → plus (one_more form (budget 0 0 0)) (budget 0 0 0) ≡ b
      → Costs {W = W}
          (plus b (budget 0 0 0))
          (token_request (counted school) form >>= store (counted school))
  stored-Costs form b e =
      Costs-bind b (budget 0 0 0) (token_request (counted school) form) (store (counted school))
        (subst (λ c. Costs {W = W} c (token_request (counted school) form)) e
          (token_request-Costs form))
        (λ tokens s. AtMost-plus_same s.net.1 (budget 0 0 0))

  login-Costs : Costs {W = W} (budget 0 1 0) (login (counted school))
  unfolding login
  login-Costs s = stored-Costs (password_grant s.username s.password) (budget 0 1 0) refl s

  refresh-Costs : Costs {W = W} (budget 0 0 1) (refresh (counted school))
  unfolding refresh
  refresh-Costs s = by_token (held s.tokens) s
    where
      by_token :
          (o : Option String) → Costs {W = W} (budget 0 0 1) (refresh_with (counted school) o)
      by_token none = λ t. AtMost-plus_same t.net.1 (budget 0 0 1)
      by_token (some token) =
          Costs-bind (budget 0 0 1) (budget 0 0 0)
            (token_request (counted school) (refresh_grant token) >>= store (counted school)) _
            (stored-Costs (refresh_grant token) (budget 0 0 1) refl)
            (λ tokens t. AtMost-plus_same t.net.1 (budget 0 0 0))

  login_unless-Costs :
      (o : Option BakalariTokens) → Costs {W = W} (budget 0 1 0) (login_unless (counted school) o)
  login_unless-Costs none =
      Costs-bind (budget 0 1 0) (budget 0 0 0) (login (counted school)) _ login-Costs
        (λ tokens t. AtMost-plus_same t.net.1 (budget 0 0 0))
  login_unless-Costs (some tokens) = λ t. AtMost-plus_same t.net.1 (budget 0 1 0)

  rejected_state : (e : Exn) (s : Session (W × Counts)) → (rejected (counted school) e s).1 ≡ s
  rejected_state bakalari_auth s = refl
  rejected_state _ s = refl

  recover-Costs : Costs {W = W} (budget 0 1 1) (recover (counted school))
  unfolding recover
  recover-Costs =
      Costs-bind (budget 0 0 1) (budget 0 1 0)
        (try_except (refresh (counted school)) (rejected (counted school))) _
        (Costs-try (budget 0 0 1) (refresh (counted school)) (rejected (counted school))
          refresh-Costs rejected_state)
        login_unless-Costs

  send-Costs :
      (path : String) (params : List (String × String))
      → Costs {W = W} (budget 1 0 0) (send (counted school) path params)
  unfolding send
  send-Costs path params s =
      Costs-bind (budget 0 0 0) (budget 1 0 0) (lift (bearer s.tokens)) _
        (λ t. AtMost-plus_same t.net.1 (budget 0 0 0))
        (λ token t. (omega arith, omega arith, omega arith)) s

  retried-Costs :
      (path : String) (params : List (String × String)) (response : Response Json)
      → Costs {W = W} (budget 1 1 1) (retried (counted school) path params response)
  retried-Costs path params response = elim (Bool-cases (response.status_code == 401)) [
    | inl y ↦ rw y (
        Costs-bind (budget 0 1 1) (budget 1 0 0) (recover (counted school)) _ recover-Costs
          (λ done. send-Costs path params))
    | inr n ↦ rw n (λ s. AtMost-plus_same s.net.1 (budget 1 1 1))
  ]

  -- What follows the first log-in
  reading-Costs :
      (path : String) (params : List (String × String))
      → Costs {W = W} (budget 2 1 1) (
          send (counted school) path params >>= λ response.
          retried (counted school) path params response >>= λ final. lift (read_response final))
  reading-Costs path params =
      Costs-bind (budget 1 0 0) (budget 1 1 1) (send (counted school) path params) _
        (send-Costs path params)
        (λ response.
          Costs-bind (budget 1 1 1) (budget 0 0 0) (retried (counted school) path params response) _
            (retried-Costs path params response)
            (λ final t. AtMost-plus_same t.net.1 (budget 0 0 0)))

  login_first-Costs :
      (o : Option BakalariTokens) → Costs {W = W} (budget 0 1 0) (login_first (counted school) o)
  login_first-Costs none =
      Costs-bind (budget 0 1 0) (budget 0 0 0) (login (counted school)) _ login-Costs
        (λ tokens t. AtMost-plus_same t.net.1 (budget 0 0 0))
  login_first-Costs (some tokens) = λ t. AtMost-plus_same t.net.1 (budget 0 1 0)

  -- What one read may ask, by the tokens that are held
  abbrev pub allowance : Option BakalariTokens → Counts
  allowance none = budget 2 2 1
  allowance (some tokens) = budget 2 1 1

  after_login-Costs :
      (o : Option BakalariTokens) (path : String) (params : List (String × String))
      → Costs {W = W} (allowance o) (
          login_first (counted school) o >>= λ ready.
          send (counted school) path params >>= λ response.
          retried (counted school) path params response >>= λ final. lift (read_response final))
  after_login-Costs none path params =
      Costs-bind (budget 0 1 0) (budget 2 1 1) (login_first (counted school) none) _
        (login_first-Costs none) (λ ready. reading-Costs path params)
  after_login-Costs (some tokens) path params = reading-Costs path params

  -- However the server answers, and whether the read completes or raises, it makes at most two GETs,
  -- redeems at most one refresh token, and sends the password at most twice, at most once where
  -- tokens are held.
  pub get_json-Costs :
      (path : String) (params : List (String × String)) (s : Session (W × Counts))
      → AtMost (get_json (counted school) path params s).1.net.1 (plus s.net.1 (allowance s.tokens))
  unfolding get_json
  get_json-Costs path params s = after_login-Costs s.tokens path params s
