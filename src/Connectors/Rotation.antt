-- ===== src/Connectors/Rotation.antt =====
-- What `ConnectorCredentialService.rotate` does to the stored secrets.
use nidaro.Base.{
  ℕ, String, ◌≡◌, sym, ap, ◌∙◌, inl, inr, some, ◌∷◌, Bool-cases, In, ok, Result-cases, Bool-cases,
  Result-cases, Bool, length,
}
use nidaro.Base.{leb→le, leb, none}
use nidaro.Base.Sort.{sort, In-sort}
use nidaro.Base.Counts.{count-sort, length-sort, find-In}
use nidaro.Base.Table.{count}
use nidaro.Connectors.Store.{ConnectorCredential, State, credential_at, get_ciphertext}
use nidaro.Connectors.Credentials.{
  Fernet, IsAuthentic, SecretBox, decrypt, decrypted, rotate_rows, get_secret, rotate,
}
use nidaro.Connectors.Pending.{
  CredentialsUnique, Pending, unique_at, not_leb, get_ciphertext-none, rotate_rows-untouched,
  rotate_rows-same, rotate_rows-primary, rotate_rows-ok,
}

module _ {Nonce W : Type 0} (F : Fernet Nonce) (authentic : IsAuthentic F) where
  Pending-sort :
      (order : ConnectorCredential → ConnectorCredential → Bool) (s : State W)
      → CredentialsUnique s
      → Pending (sort order s.credentials) s
  unfolding get_ciphertext
  Pending-sort order s u = (
    λ h c n. rw (count-sort order (credential_at h c n) s.credentials) (u h c n),
    λ r m.
        ap (λ o. elim o [ none ↦ none | some x ↦ some x.secret ])
          (find-In (credential_at r.household_id r.connector r.name) s.credentials r
            (u r.household_id r.connector r.name) ((In-sort order r s.credentials).0 m)
            (unique_at r)),
  )

  unstored :
      (box reader : SecretBox) (draw : ℕ → Nonce)
      (order : ConnectorCredential → ConnectorCredential → Bool) (s : State W) (h : ℕ)
      (c n : String)
      → count (credential_at h c n) (sort order s.credentials) ≡ 0
      → decrypted F reader
          (get_ciphertext h c n (rotate_rows F box draw 0 (sort order s.credentials) s).1)
        ≡ decrypted F box (get_ciphertext h c n s)
  unstored box reader draw order s h c n z =
      ap (decrypted F reader) (
        rotate_rows-untouched F box draw 0 (sort order s.credentials) s h c n z
        ∙ get_ciphertext-none h c n s z0)
      ∙ sym (ap (decrypted F box) (get_ciphertext-none h c n s z0))
    where
      z0 : count (credential_at h c n) s.credentials ≡ 0
      z0 = sym (count-sort order (credential_at h c n) s.credentials) ∙ z

  -- Whether `rotate` completes or stops at a secret that no configured key opens, the same keys
  -- read the same plaintext for every household, connector and name afterwards as before, and the
  -- same error where they could not read it. At most one row is stored for each of these.
  pub rotate_readable :
      (order : ConnectorCredential → ConnectorCredential → Bool) (box : SecretBox)
      (draw : ℕ → Nonce) (s : State W) (h : ℕ) (c n : String)
      → CredentialsUnique s
      → (get_secret F (some box) h c n (rotate F order (some box) draw s).1).0
        ≡ (get_secret F (some box) h c n s).0
  unfolding get_secret rotate
  rotate_readable order box draw s h c n u =
      elim (Result-cases (rotate_rows F box draw 0 (sort order s.credentials) s).0) [
        | inl (x, done) ↦ rw done (
            rotate_rows-same F authentic box draw 0 (sort order s.credentials) s h c n
              (Pending-sort order s u))
        | inr (e, raised) ↦ rw raised (
            rotate_rows-same F authentic box draw 0 (sort order s.credentials) s h c n
              (Pending-sort order s u))
      ]

  -- When every stored secret opens under some configured key, `rotate` completes with the number of
  -- stored secrets, and afterwards any box that has the primary key alone, or among others, reads
  -- every secret as it was read before: the previous keys can be dropped. At most one row is stored
  -- for each household, connector and name.
  pub rotate_complete :
      (order : ConnectorCredential → ConnectorCredential → Bool) (box : SecretBox)
      (draw : ℕ → Nonce) (s : State W)
      → CredentialsUnique s
      → ((r : ConnectorCredential)
          → In r s.credentials
          → (m : String) × (decrypt F box r.secret ≡ ok m))
      → ((rotate F order (some box) draw s).0 ≡ ok (length s.credentials))
        × ((reader : SecretBox) (h : ℕ) (c n : String)
            → In box.primary (reader.primary ∷ reader.previous)
            → (get_secret F (some reader) h c n (rotate F order (some box) draw s).1).0
              ≡ (get_secret F (some box) h c n s).0)
  unfolding get_secret rotate
  rotate_complete order box draw s u opens =
      let rows = sort order s.credentials in
      let done =
        rotate_rows-ok F authentic box draw 0 rows s
          (λ r m. opens r ((In-sort order r s.credentials).0 m)) in
      (
        rw done (ap ok (length-sort order s.credentials)),
        λ reader h c n member.
            rw done (elim (Bool-cases (leb 1 (count (credential_at h c n) rows))) [
              | inl stored ↦
                  rotate_rows-primary F authentic box reader draw 0 rows s h c n member
                    (Pending-sort order s u) done
                    (leb→le 1 (count (credential_at h c n) rows) stored)
              | inr missing ↦ unstored box reader draw order s h c n (not_leb _ missing)
            ]),
      )
