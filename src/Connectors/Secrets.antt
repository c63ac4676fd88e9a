-- ===== src/Connectors/Secrets.antt =====
-- Stored secrets are read back through writes and key changes.
use nidaro.Base.{
  ℕ, String, ◌≡◌, refl, sym, ap, ◌∙◌, inl, inr, Bool, true, false, ◌&&◌, Option, none, some, List,
  [], ◌∷◌, arith, str_eq, eq_iff, ◌==◌, Bool-cases, In, ok, err, credential_key_missing,
}
use mathlib.Core.Bool.{true≢false}
use nidaro.Base.Table.{find, find-save_self, find-save_ne, written}
use nidaro.Connectors.Store.{
  ConnectorCredential, State, credential_at, get_ciphertext, save_ciphertext,
}
use nidaro.Connectors.Credentials.{
  Fernet, IsAuthentic, SecretBox, try_keys, encrypt, decrypt, decrypted, decrypted-ok, set_secret,
  get_secret, first_of,
}

abbrev pub same_secret : ℕ → String → String → ℕ → String → String → Bool
same_secret h c n k d m = h == k && (str_eq c d && str_eq n m)

credential_at-disjoint :
    (h k : ℕ) (c d n m : String)
    → same_secret h c n k d m ≡ false
    → (r : ConnectorCredential) → credential_at h c n r ≡ true
    → credential_at k d m r ≡ false
unfolding credential_at
credential_at-disjoint h k c d n m ne r hit = ground (
  arith,
  eq_iff r.connector c,
  eq_iff r.connector d,
  eq_iff c d,
  eq_iff r.name n,
  eq_iff r.name m,
  eq_iff n m,
)

abbrev secret_of : Option ConnectorCredential → Option String
secret_of o = elim o [ none ↦ none | some r ↦ some r.secret ]

abbrev pub fresh_secret : ℕ → String → String → String → ConnectorCredential
fresh_secret h c n t = record { household_id = h; connector = c; name = n; secret = t }

abbrev pub resealed : String → ConnectorCredential → ConnectorCredential
resealed t r = record r { secret = t }

fresh-credential_at : (h : ℕ) (c n t : String) → credential_at h c n (fresh_secret h c n t) ≡ true
unfolding credential_at
fresh-credential_at h c n t = ground (arith, eq_iff c c, eq_iff n n)

secret-written :
    (h : ℕ) (c n t : String) (o : Option ConnectorCredential)
    → (written (fresh_secret h c n t) (resealed t) o).secret ≡ t
secret-written h c n t none = refl
secret-written h c n t (some r) = refl

module _ {W : Type 0} where
  pub get-save_ciphertext_self :
      (h : ℕ) (c n t : String) (s : State W)
      → get_ciphertext h c n (save_ciphertext h c n t s) ≡ some t
  unfolding get_ciphertext save_ciphertext
  get-save_ciphertext_self h c n t s =
      ap secret_of (
        find-save_self (credential_at h c n) (fresh_secret h c n t) (resealed t) s.credentials
          (fresh-credential_at h c n t) (λ r. unfold credential_at in refl))
      ∙ ap some (secret-written h c n t (find (credential_at h c n) s.credentials))

  pub get-save_ciphertext_ne :
      (h k : ℕ) (c d n m t : String) (s : State W)
      → same_secret h c n k d m ≡ false
      → get_ciphertext k d m (save_ciphertext h c n t s) ≡ get_ciphertext k d m s
  unfolding get_ciphertext save_ciphertext
  get-save_ciphertext_ne h k c d n m t s ne = ap secret_of (
      find-save_ne (credential_at h c n) (credential_at k d m) (fresh_secret h c n t) (resealed t)
        s.credentials (credential_at-disjoint h k c d n m ne) (fresh-credential_at h c n t)
        (λ r. unfold credential_at in refl))

module _ {Nonce : Type 0} (F : Fernet Nonce) (authentic : IsAuthentic F) where
  open_own :
      (k l : String) (n : Nonce) (m : String)
      → k ≡ l
      → F.fernet_decrypt l (F.fernet_encrypt k n m) ≡ some m
  open_own k l n m e =
      ap (λ x. F.fernet_decrypt x (F.fernet_encrypt k n m)) (sym e) ∙ authentic.decrypt_own k n m

  try_keys-In :
      (k : String) (keys : List String) (n : Nonce) (m : String)
      → In k keys
      → try_keys F keys (F.fernet_encrypt k n m) ≡ some m
  try_keys-In k [] n m i = elim i [ ]
  try_keys-In k (l ∷ keys) n m i = elim (Bool-cases (str_eq k l)) [
    | inl same ↦
        ap (first_of F keys (F.fernet_encrypt k n m)) (open_own k l n m ((eq_iff k l).0 same))
    | inr other ↦
        ap (first_of F keys (F.fernet_encrypt k n m)) (authentic.decrypt_other k l n m other)
        ∙ elim i [
          | inl e ↦ absurd (true≢false (sym ((eq_iff k l).1 e) ∙ other))
          | inr j ↦ try_keys-In k keys n m j
        ]
  ]

  pub decrypt-encrypt :
      (box reader : SecretBox) (n : Nonce) (m : String)
      → In box.primary (reader.primary ∷ reader.previous)
      → decrypt F reader (encrypt F box n m) ≡ ok m
  unfolding decrypt encrypt
  decrypt-encrypt box reader n m i =
      rw (try_keys-In box.primary (reader.primary ∷ reader.previous) n m i) refl

  module _ {W : Type 0} where
    -- A secret that was set is read back by any box whose keys include the primary key of the box
    -- that set it, so also after a new primary key was put in front; every other secret is read as
    -- before, and without a configured key both calls raise CredentialKeyMissing and write nothing.
    pub get-set_secret :
        (box reader : SecretBox) (draw : Nonce) (h : ℕ) (c n m : String) (s : State W)
        → In box.primary (reader.primary ∷ reader.previous)
        → ((get_secret F (some reader) h c n (set_secret F (some box) draw h c n m s).1).0
            ≡ ok (some m))
          × (((k : ℕ) (d l : String)
                → same_secret h c n k d l ≡ false
                → (get_secret F (some reader) k d l (set_secret F (some box) draw h c n m s).1).0
                  ≡ (get_secret F (some reader) k d l s).0)
              × ((set_secret F none draw h c n m s ≡ (err credential_key_missing, s))
                  × (get_secret F none h c n s ≡ (err credential_key_missing, s))))
    unfolding get_secret set_secret
    get-set_secret box reader draw h c n m s i = (
      ap (decrypted F reader) (get-save_ciphertext_self h c n (encrypt F box draw m) s)
          ∙ decrypted-ok F reader (encrypt F box draw m) m (decrypt-encrypt box reader draw m i),
      (
        (λ k d l ne.
            ap (decrypted F reader)
              (get-save_ciphertext_ne h k c d n l (encrypt F box draw m) s ne)),
        (refl, refl),
      ),
    )
