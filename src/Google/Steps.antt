-- ===== src/Google/Steps.antt =====
-- What the steps of a write leave as it is.
use nidaro.Base.{
  ℕ, String, ◌≡◌, refl, ◌∙◌, inl, inr, Bool, Option, none, some, List, [], ◌∷◌, Exn, ok, Exec,
  raise, try_except, Result-cases,
}
use nidaro.Base.{err≢ok}
use nidaro.Connectors.Store.{State}
use nidaro.Connectors.Credentials.{Fernet, SecretBox, get_secret}
use nidaro.Google.Models.{GoogleCalendarAccount}
use nidaro.Google.Accounts.{Google, combine, credentials_for_household, paired}
use nidaro.Google.Mapping.{connector_name}

pub tried-ok :
    {S A : Type 0} (m : Exec S A) (f : Exn → Exn) (s : S) (a : A)
    → (try_except m (λ e. raise (f e)) s).0 ≡ ok a
    → (m s).0 ≡ ok a
tried-ok m f s a e = elim (Result-cases (m s).0) [
  | inl (b, done) ↦ done ∙ rw done at e
  | inr (x, failed) ↦ absurd (err≢ok (rw failed at e))
]

pub tried_state :
    {S A : Type 0} (m : Exec S A) (f : Exn → Exn) (s : S)
    → (try_except m (λ e. raise (f e)) s).1 ≡ (m s).1
tried_state m f s = elim (Result-cases (m s).0) [
  | inl (b, done) ↦ rw done refl
  | inr (x, failed) ↦ rw failed refl
]

module _ {Nonce N : Type 0} (F : Fernet Nonce) (box : Option SecretBox) where
  get_secret_state :
      (b : Option SecretBox) (h : ℕ) (c n : String) (s : State (Google N))
      → (get_secret F b h c n s).1 ≡ s
  unfolding get_secret
  get_secret_state none h c n s = refl
  get_secret_state (some b) h c n s = refl

  combine_state :
      (h : ℕ) (rows : List GoogleCalendarAccount) (s : State (Google N))
      → (combine F box h rows s).1 ≡ s
  unfolding combine
  combine_state h [] s = refl
  combine_state h (row ∷ rows) s =
      elim (Result-cases (get_secret F box h connector_name row.google_email s).0) [
        | inr (e, failed) ↦ rw failed (get_secret_state box h connector_name row.google_email s)
        | inl (secret, read) ↦ elim (Result-cases (paired row secret)) [
          | inr (e, failed) ↦
              rw (read, failed) (get_secret_state box h connector_name row.google_email s)
          | inl (account, known) ↦
              rw (read, known, get_secret_state box h connector_name row.google_email s)
                (elim (Result-cases (combine F box h rows s).0) [
                  | inr (e, failed) ↦ rw failed (combine_state h rows s)
                  | inl (others, done) ↦ rw done (combine_state h rows s)
                ])
        ]
      ]

  pub credentials_state :
      (order : String → String → Bool) (h : ℕ) (s : State (Google N))
      → (credentials_for_household F box order h s).1 ≡ s
  unfolding credentials_for_household
  credentials_state order h s = combine_state h _ s
