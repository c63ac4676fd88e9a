-- ===== src/Connectors/Credentials.antt =====
-- connectors/crypto.py and `ConnectorCredentialService` of connectors/service.py. The package
-- cryptography is a parameter: `MultiFernet` over a list of keys. A Fernet token is salted, so each
-- encryption takes the nonce that was drawn for it.
use nidaro.Base.{
  ℕ, String, Bool, List, [], ◌∷◌, none, some, Option, suc, all, ok, err, value_error,
  credential_key_missing, Result, Exec, lift, modify, gets, pure, ◌>>=◌, ◌>>◌, length, str_eq, ◌≡◌,
  false, if◌then◌else◌, ap,
}
use nidaro.Base.Sort.{sort}
use nidaro.Connectors.Store.{ConnectorCredential, State, get_ciphertext, save_ciphertext}

-- `cryptography.fernet`: whether a text is a key, and encryption and decryption under one key.
pub record Fernet (Nonce : Type 0) : Type 0 where
  pub is_key : String → Bool
  pub fernet_encrypt : String → Nonce → String → String
  pub fernet_decrypt : String → String → Option String

-- `SecretBox`: the primary key and the fallback keys.
pub record SecretBox : Type 0 where
  pub primary : String
  pub previous : List String

-- What Fernet promises of the tokens it makes: each opens under the key that made it, and under a
-- different key it is refused.
pub record IsAuthentic {Nonce : Type 0} (F : Fernet Nonce) : Type 0 where
  pub decrypt_own :
      (k : String) (n : Nonce) (m : String) → F.fernet_decrypt k (F.fernet_encrypt k n m) ≡ some m
  pub decrypt_other :
      (k l : String) (n : Nonce) (m : String)
      → str_eq k l ≡ false
      → F.fernet_decrypt l (F.fernet_encrypt k n m) ≡ none

abbrev or_invalid : Option String → Result String
or_invalid none = err value_error
or_invalid (some m) = ok m

abbrev pub require_box : Option SecretBox → Result SecretBox
require_box none = err credential_key_missing
require_box (some box) = ok box

module _ {Nonce : Type 0} (F : Fernet Nonce) where
  -- `SecretBox.__init__`
  unfoldable pub secret_box : String → List String → Result SecretBox
  secret_box primary previous =
      if all F.is_key (primary ∷ previous)
      then ok (record { primary = primary; previous = previous })
      else err value_error

  -- `MultiFernet.decrypt` tries the keys in order.
  abbrev pub try_keys : List String → String → Option String
  try_keys [] token = none
  try_keys (k ∷ keys) token = elim (F.fernet_decrypt k token) [
    | none ↦ try_keys keys token
    | some m ↦ some m
  ]

  abbrev pub first_of : List String → String → Option String → Option String
  first_of keys token o = elim o [ none ↦ try_keys keys token | some m ↦ some m ]

  unfoldable pub encrypt : SecretBox → Nonce → String → String
  encrypt box n plaintext = F.fernet_encrypt box.primary n plaintext

  unfoldable pub decrypt : SecretBox → String → Result String
  decrypt box ciphertext = or_invalid (try_keys (box.primary ∷ box.previous) ciphertext)

  abbrev pub decrypted : SecretBox → Option String → Result (Option String)
  decrypted box none = ok none
  decrypted box (some ciphertext) = elim (decrypt box ciphertext) [
    | ok m ↦ ok (some m)
    | err e ↦ err e
  ]

  pub decrypted-ok :
      (box : SecretBox) (t m : String) → decrypt box t ≡ ok m → decrypted box (some t) ≡ ok (some m)
  decrypted-ok box t m e = ap (λ r. elim r [ ok a ↦ ok (some a) | err x ↦ err x ]) e

module _ {Nonce W : Type 0} (F : Fernet Nonce) where
  unfoldable pub set_secret :
      Option SecretBox → Nonce → ℕ → String → String → String → Exec (State W) (Unit {0})
  set_secret box n household connector name secret = do
    b ← lift (require_box box)
    modify (save_ciphertext household connector name (encrypt F b n secret))

  unfoldable pub get_secret :
      Option SecretBox → ℕ → String → String → Exec (State W) (Option String)
  get_secret box household connector name = do
    b ← lift (require_box box)
    ciphertext ← gets (get_ciphertext household connector name)
    lift (decrypted F b ciphertext)

  -- The loop of `rotate`; `draw i` is the nonce of the row at index i.
  unfoldable pub rotate_rows :
      SecretBox → (ℕ → Nonce) → ℕ → List ConnectorCredential → Exec (State W) (Unit {0})
  rotate_rows box draw i [] = pure tt
  rotate_rows box draw i (row ∷ rows) = do
    plaintext ← lift (decrypt F box row.secret)
    modify
        (save_ciphertext row.household_id row.connector row.name (encrypt F box (draw i) plaintext))
    rotate_rows box draw (suc i) rows

  -- `order` is the database's ORDER BY.
  unfoldable pub rotate :
      (ConnectorCredential → ConnectorCredential → Bool)
      → Option SecretBox
      → (ℕ → Nonce)
      → Exec (State W) ℕ
  rotate order box draw = do
    b ← lift (require_box box)
    rows ← gets (λ s. sort order s.credentials)
    rotate_rows b draw 0 rows
    pure (length rows)
