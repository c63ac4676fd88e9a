-- ===== src/Google/Tokens.antt =====
-- When the client asks for an access token, and when it uses the one it has.
use nidaro.Base.{
  ◌⊎◌, ℕ, ◌+◌, ◌*◌, ◌≤◌, ◌<◌, String, ◌≡◌, refl, ap, ◌∙◌, inl, inr, false, Option, none, some,
  arith, str_eq, ltb, Bool-cases, ok, Result-cases, true,
}
use nidaro.Base.{◌⊎◌, err≢ok, lt→ltb}
use nidaro.Base.Assoc.{lookup, lookup-put_self, lookup-put_ne}
use nidaro.Google.Http.{
  TokenReply, CachedToken, Session, Transport, refresh_grant, access_token_margin, is_valid,
}
use nidaro.Google.Client.{get_access_token, token_from, refresh, remember, token_request}

same : (x t : String) → ok x ≡ ok t → x ≡ t
same x t e = cc

-- A token with an expiry, as the cache keeps it
abbrev kept_until : ℕ → String → Option CachedToken
kept_until expires token = some (record { token = token; expires_at = expires })

module _ {Zone N : Type 0} (google : Transport Zone N) where
  -- The stored token of a refresh token, by its text
  abbrev Cached : String → String → ℕ → Session N → Type 0
  Cached refresh_token token expires s = lookup refresh_token s.tokens ≡ kept_until expires token

  -- Where a token that is handed out comes from, and until when it is good: it was stored and is still
  -- valid, or Google has just replied with it and with the seconds that it lasts
  abbrev pub Expires : String → String → Session N → Session N → ℕ → Type 0
  Expires r t before after expires =
      ((cached : CachedToken) × (lookup r before.tokens ≡ some cached)
        × (is_valid (google.clock before.net) cached ≡ true)
        × (cached.token ≡ t)
        × (expires ≡ cached.expires_at)
        × (after ≡ before))
      ⊎ ((reply : TokenReply) × (token_request google (refresh_grant r) before.net
            ≡ (ok reply, after.net))
          × (reply.access_token ≡ t)
          × (expires ≡ google.clock after.net + reply.expires_in * 1_000_000))

  -- The token is stored with its expiry, and what is stored for other refresh tokens stays.
  abbrev Stored : String → String → Session N → Session N → Type 0
  Stored r t before after =
      ((expires : ℕ) × Expires r t before after expires × Cached r t expires after)
      × ((k : String) → str_eq r k ≡ false → lookup k after.tokens ≡ lookup k before.tokens)

  refresh-Stored :
      (r t : String) (s : Session N)
      → (refresh google r s).0 ≡ ok t
      → Stored r t s (refresh google r s).1
  unfolding refresh remember
  refresh-Stored r t s e = elim (Bool-cases google.configured) [
    | inr n ↦ absurd (err≢ok (rw n at e))
    | inl y ↦ elim (Result-cases (token_request google (refresh_grant r) s.net).0) [
      | inr (x, fails) ↦ absurd (err≢ok (rw (y, fails) at e))
      | inl (reply, answered) ↦
          let expires : ℕ =
            google.clock (token_request google (refresh_grant r) s.net).1
            + reply.expires_in * 1_000_000 in
          rw (y, answered)
            (
              (
                expires,
                inr (
                  reply,
                  ap (λ x. (x, (token_request google (refresh_grant r) s.net).1)) answered,
                  same reply.access_token t (rw (y, answered) at e),
                  refl,
                ),
                lookup-put_self r _ s.tokens
                    ∙ ap (kept_until expires) (same reply.access_token t (rw (y, answered) at e)),
              ),
              (λ k ne. lookup-put_ne r k _ s.tokens ne),
            )
    ]
  ]

  token_from-Stored :
      (o : Option CachedToken) (r t : String) (s : Session N)
      → lookup r s.tokens ≡ o
      → (token_from google o r s).0 ≡ ok t
      → Stored r t s (token_from google o r s).1
  token_from-Stored none r t s found e = refresh-Stored r t s e
  token_from-Stored (some cached) r t s found e =
      elim (Bool-cases (is_valid (google.clock s.net) cached)) [
        | inl y ↦ rw y (
          (
            cached.expires_at,
            inl (cached, found, y, same cached.token t (rw y at e), refl, refl),
            found ∙ ap (kept_until cached.expires_at) (same cached.token t (rw y at e)),
          ),
          (λ k ne. refl),
        )
        | inr n ↦ rw n (refresh-Stored r t s (rw n at e))
      ]

  -- An access token that is handed out was stored and is still valid, or is Google's reply to an
  -- exchange, good for the seconds that the reply says from then on. It is handed out again, without
  -- any exchange, while more than a minute is left of it, and a new one is asked for afterwards;
  -- handing out a token for one account leaves the tokens of the others.
  pub get_access_token-reuse :
      (r t : String) (s : Session N)
      → (get_access_token google r s).0 ≡ ok t
      → let after = (get_access_token google r s).1 in
        ((expires : ℕ) × Expires r t s after expires
          × ((n : N)
              → google.clock n + access_token_margin < expires
              → get_access_token google r (record after { net = n })
                ≡ (ok t, record after { net = n }))
          × ((n : N)
              → expires ≤ google.clock n + access_token_margin
              → get_access_token google r (record after { net = n })
                ≡ refresh google r (record after { net = n })))
        × ((k : String) → str_eq r k ≡ false → lookup k after.tokens ≡ lookup k s.tokens)
  unfolding get_access_token is_valid
  get_access_token-reuse r t s e =
      let ((expires, origin, stored), others) =
        token_from-Stored (lookup r s.tokens) r t s refl e in
      (
        (
          expires,
          origin,
          (λ n early.
              rw (stored, lt→ltb (google.clock n + access_token_margin) expires early) refl),
          (λ n late.
              rw (stored, late_ltb (google.clock n + access_token_margin) expires late) refl),
        ),
        others,
      )
    where
      late_ltb : (a b : ℕ) → b ≤ a → ltb a b ≡ false
      late_ltb a b h = ground arith
