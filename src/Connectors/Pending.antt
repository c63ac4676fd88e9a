-- ===== src/Connectors/Pending.antt =====
-- The loop of `ConnectorCredentialService.rotate`, row by row: what is read while rows are pending.
use nidaro.Base.{
  ℕ, suc, ◌≤◌, String, ◌≡◌, refl, sym, ap, ◌∙◌, inl, inr, true, false, some, List, [], ◌∷◌, arith,
  eq_iff, Bool-cases, In, ok, Result-cases, Bool-cases, Result-cases,
}
use nidaro.Base.{err≢ok, leb, none}
use nidaro.Base.Table.{find-none}
use nidaro.Base.Table.{count, In-count}
use nidaro.Connectors.Store.{
  ConnectorCredential, State, credential_at, get_ciphertext, save_ciphertext,
}
use nidaro.Connectors.Credentials.{
  Fernet, IsAuthentic, SecretBox, encrypt, decrypt, decrypted, decrypted-ok, rotate_rows,
}
use nidaro.Connectors.Secrets.{
  same_secret, get-save_ciphertext_self, get-save_ciphertext_ne, decrypt-encrypt,
}

-- At most one stored row for a household, connector and name
abbrev pub CredentialsUnique : {W : Type 0} → State W → Type 0
CredentialsUnique s = (h : ℕ) (c n : String) → count (credential_at h c n) s.credentials ≤ 1

row-miss :
    (h : ℕ) (c n : String) (r : ConnectorCredential)
    → credential_at h c n r ≡ false
    → same_secret r.household_id r.connector r.name h c n ≡ false
unfolding credential_at
row-miss h c n r miss = miss

row-hit :
    (h : ℕ) (c n : String) (r : ConnectorCredential)
    → credential_at h c n r ≡ true
    → (r.household_id ≡ h) × ((r.connector ≡ c) × (r.name ≡ n))
unfolding credential_at
row-hit h c n r hit = ground (arith, eq_iff r.connector c, eq_iff r.name n)

pub not_leb : (n : ℕ) → leb 1 n ≡ false → n ≡ 0
not_leb n h = ground arith

pub unique_at : (x : ConnectorCredential) → credential_at x.household_id x.connector x.name x ≡ true
unfolding credential_at
unique_at x = ground (arith, eq_iff x.connector x.connector, eq_iff x.name x.name)

other-key :
    (x r : ConnectorCredential) (rows : List ConnectorCredential)
    → In x rows
    → ((h : ℕ) (c n : String) → count (credential_at h c n) (r ∷ rows) ≤ 1)
    → credential_at x.household_id x.connector x.name r ≡ false
other-key x r rows m u = ground (
  arith,
  u x.household_id x.connector x.name,
  In-count (credential_at x.household_id x.connector x.name) rows x m (unique_at x),
)

last-key :
    (h : ℕ) (c n : String) (r : ConnectorCredential) (rows : List ConnectorCredential)
    → credential_at h c n r ≡ true
    → ((k : ℕ) (d m : String) → count (credential_at k d m) (r ∷ rows) ≤ 1)
    → count (credential_at h c n) rows ≡ 0
last-key h c n r rows hit u = ground (arith, u h c n)

module _ {W : Type 0} where
  get_ciphertext-hit :
      (h : ℕ) (c n : String) (r : ConnectorCredential) (s : State W)
      → credential_at h c n r ≡ true
      → get_ciphertext h c n s ≡ get_ciphertext r.household_id r.connector r.name s
  get_ciphertext-hit h c n r s hit =
      let e = row-hit h c n r hit in
      sym (
        ap (λ x. get_ciphertext x r.connector r.name s) e.0
        ∙ ap (λ x. get_ciphertext h x r.name s) e.1.0
        ∙ ap (λ x. get_ciphertext h c x s) e.1.1)

  -- The rows still to rotate: each key once, and stored as they were read.
  abbrev pub Pending : List ConnectorCredential → State W → Type 0
  Pending rows s =
      ((h : ℕ) (c n : String) → count (credential_at h c n) rows ≤ 1)
      × ((r : ConnectorCredential)
          → In r rows
          → get_ciphertext r.household_id r.connector r.name s ≡ some r.secret)

  pub Pending-save :
      (r : ConnectorCredential) (rows : List ConnectorCredential) (t : String) (s : State W)
      → Pending (r ∷ rows) s
      → Pending rows (save_ciphertext r.household_id r.connector r.name t s)
  Pending-save r rows t s p = (
    λ h c n. ground (arith, p.0 h c n),
    λ x m.
        get-save_ciphertext_ne r.household_id x.household_id r.connector x.connector r.name x.name t
          s (row-miss x.household_id x.connector x.name r (other-key x r rows m p.0))
        ∙ p.1 x (inr m),
  )

  pub get_ciphertext-none :
      (h : ℕ) (c n : String) (s : State W)
      → count (credential_at h c n) s.credentials ≡ 0
      → get_ciphertext h c n s ≡ none
  unfolding get_ciphertext
  get_ciphertext-none h c n s z =
      ap (λ o. elim o [ none ↦ none | some x ↦ some x.secret ])
        (find-none (credential_at h c n) s.credentials z)

  -- A key that no row has left is not written.
  pub rotate_rows-untouched :
      {Nonce : Type 0} (F : Fernet Nonce) (box : SecretBox) (draw : ℕ → Nonce) (i : ℕ)
      (rows : List ConnectorCredential) (s : State W) (h : ℕ) (c n : String)
      → count (credential_at h c n) rows ≡ 0
      → get_ciphertext h c n (rotate_rows F box draw i rows s).1 ≡ get_ciphertext h c n s
  unfolding rotate_rows
  rotate_rows-untouched F box draw i [] s h c n z = refl
  rotate_rows-untouched F box draw i (r ∷ rows) s h c n z =
      elim (Result-cases (decrypt F box r.secret)) [
        | inr (e, raised) ↦ rw raised refl
        | inl (m, opened) ↦ elim (Bool-cases (credential_at h c n r)) [
          | inl hit ↦ absurd (omega (arith, rw hit at z))
          | inr miss ↦ rw opened (
              rotate_rows-untouched F box draw (suc i) rows _ h c n (rw miss at z)
              ∙ get-save_ciphertext_ne r.household_id h r.connector c r.name n
                  (encrypt F box (draw i) m) s (row-miss h c n r miss))
        ]
      ]

module _ {Nonce W : Type 0} (F : Fernet Nonce) (authentic : IsAuthentic F) where
  -- The secret of a row that has just been rotated, before and after the rows that follow it
  rotated_row :
      (box reader : SecretBox) (draw : ℕ → Nonce) (i : ℕ) (r : ConnectorCredential)
      (rows : List ConnectorCredential) (s : State W) (h : ℕ) (c n m : String)
      → In box.primary (reader.primary ∷ reader.previous)
      → Pending (r ∷ rows) s
      → decrypt F box r.secret ≡ ok m
      → credential_at h c n r ≡ true
      → decrypted F reader (
          get_ciphertext h c n
            (rotate_rows F box draw
              (suc i)
              rows
              (save_ciphertext r.household_id r.connector r.name (encrypt F box (draw i) m) s)).1)
        ≡ decrypted F box (get_ciphertext h c n s)
  rotated_row box reader draw i r rows s h c n m member p opened hit =
      ap (decrypted F reader) (
        rotate_rows-untouched F box draw (suc i) rows _ h c n (last-key h c n r rows hit p.0)
        ∙ get_ciphertext-hit h c n r _ hit
        ∙ get-save_ciphertext_self r.household_id r.connector r.name (encrypt F box (draw i) m) s)
      ∙ decrypted-ok F reader (encrypt F box (draw i) m) m
          (decrypt-encrypt F authentic box reader (draw i) m member)
      ∙ sym (
          ap (decrypted F box) (get_ciphertext-hit h c n r s hit ∙ p.1 r (inl refl))
          ∙ decrypted-ok F box r.secret m opened)

  pub rotate_rows-same :
      (box : SecretBox) (draw : ℕ → Nonce) (i : ℕ) (rows : List ConnectorCredential) (s : State W)
      (h : ℕ) (c n : String)
      → Pending rows s
      → decrypted F box (get_ciphertext h c n (rotate_rows F box draw i rows s).1)
        ≡ decrypted F box (get_ciphertext h c n s)
  unfolding rotate_rows
  rotate_rows-same box draw i [] s h c n p = refl
  rotate_rows-same box draw i (r ∷ rows) s h c n p = elim (Result-cases (decrypt F box r.secret)) [
    | inr (e, raised) ↦ rw raised refl
    | inl (m, opened) ↦ elim (Bool-cases (credential_at h c n r)) [
      | inl hit ↦ rw opened (rotated_row box box draw i r rows s h c n m (inl refl) p opened hit)
      | inr miss ↦ rw opened (
          rotate_rows-same box draw (suc i) rows _ h c n (Pending-save r rows _ s p)
          ∙ ap (decrypted F box) (
              get-save_ciphertext_ne r.household_id h r.connector c r.name n
                (encrypt F box (draw i) m) s (row-miss h c n r miss)))
    ]
  ]

  pub rotate_rows-primary :
      (box reader : SecretBox) (draw : ℕ → Nonce) (i : ℕ) (rows : List ConnectorCredential)
      (s : State W) (h : ℕ) (c n : String)
      → In box.primary (reader.primary ∷ reader.previous)
      → Pending rows s
      → (rotate_rows F box draw i rows s).0 ≡ ok tt
      → 1 ≤ count (credential_at h c n) rows
      → decrypted F reader (get_ciphertext h c n (rotate_rows F box draw i rows s).1)
        ≡ decrypted F box (get_ciphertext h c n s)
  unfolding rotate_rows
  rotate_rows-primary box reader draw i [] s h c n member p done some_row = absurd (omega arith)
  rotate_rows-primary box reader draw i (r ∷ rows) s h c n member p done some_row =
      elim (Result-cases (decrypt F box r.secret)) [
        | inr (e, raised) ↦ absurd (err≢ok (rw raised at done))
        | inl (m, opened) ↦ elim (Bool-cases (credential_at h c n r)) [
          | inl hit ↦ rw opened (rotated_row box reader draw i r rows s h c n m member p opened hit)
          | inr miss ↦ rw opened (
              rotate_rows-primary box reader draw (suc i) rows _ h c n member
                (Pending-save r rows _ s p) (rw opened at done) (rw miss at some_row)
              ∙ ap (decrypted F box) (
                  get-save_ciphertext_ne r.household_id h r.connector c r.name n
                    (encrypt F box (draw i) m) s (row-miss h c n r miss)))
        ]
      ]

  -- Every row decrypts under some configured key.
  pub rotate_rows-ok :
      (box : SecretBox) (draw : ℕ → Nonce) (i : ℕ) (rows : List ConnectorCredential) (s : State W)
      → ((r : ConnectorCredential) → In r rows → (m : String) × (decrypt F box r.secret ≡ ok m))
      → (rotate_rows F box draw i rows s).0 ≡ ok tt
  unfolding rotate_rows
  rotate_rows-ok box draw i [] s opens = refl
  rotate_rows-ok box draw i (r ∷ rows) s opens =
      rw (opens r (inl refl)).1 (rotate_rows-ok box draw (suc i) rows _ (λ x m. opens x (inr m)))
