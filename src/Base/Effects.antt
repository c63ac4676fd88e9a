-- ===== src/Base/Effects.antt =====
-- Exceptions and effects. A Python function that may raise returns a `Result`; one that also writes
-- to a database or to a remote service is an action of `Exec S`: what was written before a raise
-- stays written, so the state comes back beside the error too. The texts of exceptions are left out.
use mathlib.Core.Path.{◌≡◌, refl}
use mathlib.Core.Logic.{◌⊎◌, inl, inr}

-- The exceptions that the modelled code raises or catches, one constructor for each class.
pub data Exn : Type 0 where
  value_error key_error lookup_error validation_error : Exn
  stale_cursor credential_key_missing : Exn
  invalid_grant google_api_error precondition_failed not_configured : Exn
  google_write_error google_conflict no_google_account google_connection_error : Exn
  bakalari_config bakalari_auth bakalari_request bakalari_gather : Exn
  missing_credential sync_unsupported other_error : Exn
  -- What the database refuses: a value that its column does not hold, a broken constraint
  data_error integrity_error : Exn
  -- No exception of the program: a model of a loop that was given too little fuel
  out_of_fuel : Exn

pub data Result {ℓ} (A : Type ℓ) : Type ℓ where
  ok : A → Result A
  err : Exn → Result A

abbrev pub Exec {ℓ} : Type ℓ → Type ℓ → Type ℓ
Exec S A = S → Result A × S

module _ {ℓ} {S A : Type ℓ} where
  abbrev pub pure : A → Exec S A
  pure a s = (ok a, s)

  abbrev pub raise : Exn → Exec S A
  raise e s = (err e, s)

  abbrev pub lift : Result A → Exec S A
  lift r s = (r, s)

  abbrev pub gets : (S → A) → Exec S A
  gets f s = (ok (f s), s)

  abbrev handled : (Exn → Exec S A) → Result A → Exec S A
  handled h (ok a) s = (ok a, s)
  handled h (err e) s = h e s

  -- `try: m  except E: h(E)`, where the handler raises again what it does not catch
  abbrev pub try_except : Exec S A → (Exn → Exec S A) → Exec S A
  try_except m h s = handled h (m s).0 (m s).1

module _ {ℓ} {S : Type ℓ} where
  abbrev pub modify : (S → S) → Exec S (Unit {ℓ})
  modify f s = (ok tt, f s)

module _ {ℓ} {S A B : Type ℓ} where
  abbrev continue : (A → Exec S B) → Result A → Exec S B
  continue f (ok a) s = f a s
  continue f (err e) s = (err e, s)

  infixl 5 ◌>>=◌ ◌>>◌
  abbrev pub ◌>>=◌ : Exec S A → (A → Exec S B) → Exec S B
  ◌>>=◌ m f s = continue f (m s).0 (m s).1

  abbrev pub ◌>>◌ : Exec S A → Exec S B → Exec S B
  m >> n = m >>= λ _. n

module _ {ℓ} {A B : Type ℓ} where
  abbrev pub and_then : Result A → (A → Result B) → Result B
  and_then (ok a) f = f a
  and_then (err e) f = err e

pub Result-cases {ℓ} :
    {A : Type ℓ} (r : Result A) → ((a : A) × (r ≡ ok a)) ⊎ ((e : Exn) × (r ≡ err e))
Result-cases (ok a) = inl (a, refl)
Result-cases (err e) = inr (e, refl)

pub err≢ok {ℓ} : {A : Type ℓ} {e : Exn} {a : A} → err e ≡ ok a → ⊥
err≢ok p = cc

pub Exn-discrete : Discrete Exn
Exn-discrete = hlevel
