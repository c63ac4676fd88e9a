-- ===== src/Connectors/Intake.antt =====
-- What `ConnectorConfigService.enable` and `disable` do to the stored configs.
use nidaro.Base.{
  ℕ, ◌≤◌, String, ◌≡◌, refl, ap, sym, ◌∙◌, Bool, true, false, ◌&&◌, List, Option, none, some, ok,
  err, value_error, arith, str_eq, eq_iff, ◌==◌, ltb, Option-cases, inl, inr,
}
use nidaro.Base.Table.{find, find-save_self, find-save_ne, written}
use nidaro.Connectors.Store.{ConnectorConfig, State, config_at, get_config, upsert_config}
use nidaro.Connectors.Service.{enable, disable}

config_at-disjoint :
    (h k : ℕ) (c d : String)
    → (h == k && str_eq c d) ≡ false
    → (r : ConnectorConfig) → config_at h c r ≡ true
    → config_at k d r ≡ false
unfolding config_at
config_at-disjoint h k c d ne r m =
    ground (arith, eq_iff r.connector c, eq_iff r.connector d, eq_iff c d)

-- The row that an intake leaves, over the row that was there.
abbrev pub taken :
    ℕ → String → Bool → List String → Option String → ℕ → Option ConnectorConfig → ConnectorConfig
taken h c on names trigger poll none = record {
  household_id = h;
  connector = c;
  enabled = on;
  credential_names = names;
  trigger_word = trigger;
  poll_seconds = poll;
  last_synced_at = none;
}
taken h c on names trigger poll (some r) = record r {
  enabled = on;
  credential_names = names;
  trigger_word = trigger;
  poll_seconds = poll;
}

abbrev taken-written :
    (h : ℕ) (c : String) (on : Bool) (names : List String) (trigger : Option String) (poll : ℕ)
    (o : Option ConnectorConfig)
    → written
        (taken h c on names trigger poll none)
        (λ r. record r {
          enabled = on;
          credential_names = names;
          trigger_word = trigger;
          poll_seconds = poll;
        })
        o
      ≡ taken h c on names trigger poll o
taken-written h c on names trigger poll none = refl
taken-written h c on names trigger poll (some r) = refl

fresh-config_at :
    (h : ℕ) (c : String) (on : Bool) (names : List String) (trigger : Option String) (poll : ℕ)
    → config_at h c (taken h c on names trigger poll none) ≡ true
unfolding config_at
fresh-config_at h c on names trigger poll = ground (arith, eq_iff c c)

-- Whether a stored config stands and is enabled
abbrev pub switched : Option ConnectorConfig → Bool
switched none = false
switched (some r) = r.enabled

not_lt_one : (n : ℕ) → 1 ≤ n → ltb n 1 ≡ false
not_lt_one n h = ground arith

module _ {W : Type 0} where
  get-upsert_config_self :
      (h : ℕ) (c : String) (on : Bool) (names : List String) (trigger : Option String) (poll : ℕ)
      (s : State W)
      → get_config h c (upsert_config h c on names trigger poll s)
        ≡ some (taken h c on names trigger poll (get_config h c s))
  unfolding get_config upsert_config
  get-upsert_config_self h c on names trigger poll s =
      find-save_self (config_at h c) (taken h c on names trigger poll none)
        (λ r. record r {
          enabled = on;
          credential_names = names;
          trigger_word = trigger;
          poll_seconds = poll;
        })
        s.configs (fresh-config_at h c on names trigger poll) (λ r. unfold config_at in refl)
      ∙ ap some (taken-written h c on names trigger poll (find (config_at h c) s.configs))

  get-upsert_config_ne :
      (h k : ℕ) (c d : String) (on : Bool) (names : List String) (trigger : Option String)
      (poll : ℕ) (s : State W)
      → (h == k && str_eq c d) ≡ false
      → get_config k d (upsert_config h c on names trigger poll s) ≡ get_config k d s
  unfolding get_config upsert_config
  get-upsert_config_ne h k c d on names trigger poll s ne =
      find-save_ne (config_at h c) (config_at k d) (taken h c on names trigger poll none)
        (λ r. record r {
          enabled = on;
          credential_names = names;
          trigger_word = trigger;
          poll_seconds = poll;
        })
        s.configs (config_at-disjoint h k c d ne) (fresh-config_at h c on names trigger poll)
        (λ r. unfold config_at in refl)

  disable-hit :
      (h : ℕ) (c : String) (s : State W) (r : ConnectorConfig)
      → get_config h c s ≡ some r
      → r.enabled ≡ true
      → disable h c s
        ≡ (ok true, upsert_config h c false r.credential_names r.trigger_word r.poll_seconds s)
  unfolding disable
  disable-hit h c s r found on = rw (found, on) refl

  -- Disabling an enabled connector returns true, keeps every other field of its stored config and
  -- every other config; enabling it again with the intake that was kept brings back the config as
  -- it was before, the time of the last sync included.
  pub disable-enable :
      (h : ℕ) (c : String) (s : State W) (r : ConnectorConfig)
      → get_config h c s ≡ some r
      → r.enabled ≡ true
      → 1 ≤ r.poll_seconds
      → ((disable h c s).0 ≡ ok true)
        × ((get_config h c (disable h c s).1 ≡ some (record r { enabled = false }))
            × (((k : ℕ) (d : String)
                  → (h == k && str_eq c d) ≡ false
                  → get_config k d (disable h c s).1 ≡ get_config k d s)
                × (get_config h c
                      (enable h c r.credential_names r.trigger_word r.poll_seconds
                        (disable h c s).1).1
                    ≡ some r)))
  unfolding enable
  disable-enable h c s r found on polls = rw (disable-hit h c s r found on) (
    refl,
    (
      get-upsert_config_self h c false r.credential_names r.trigger_word r.poll_seconds s
          ∙ ap (λ o. some (taken h c false r.credential_names r.trigger_word r.poll_seconds o))
              found,
      (
        (λ k d ne.
            get-upsert_config_ne h k c d false r.credential_names r.trigger_word r.poll_seconds s
              ne),
        rw (not_lt_one r.poll_seconds polls) (
            get-upsert_config_self h c true r.credential_names r.trigger_word r.poll_seconds
              (upsert_config h c false r.credential_names r.trigger_word r.poll_seconds s)
            ∙ ap (λ o. some (taken h c true r.credential_names r.trigger_word r.poll_seconds o))
                (get-upsert_config_self h c false r.credential_names r.trigger_word r.poll_seconds s
                  ∙ ap
                      (λ o.
                        some (taken h c false r.credential_names r.trigger_word r.poll_seconds o))
                      found)
            ∙ ap (λ b. some (record r { enabled = b })) (sym on)),
      ),
    ),
  )

  -- Disabling a connector that has no stored config, or a disabled one, returns false and writes
  -- nothing; enabling with a poll interval under one second raises ValueError and writes nothing.
  pub intake_refused :
      (h : ℕ) (c : String) (s : State W) (credentials : List String) (trigger : Option String)
      → ((switched (get_config h c s) ≡ false) → disable h c s ≡ (ok false, s))
        × (enable h c credentials trigger 0 s ≡ (err value_error, s))
  unfolding disable enable
  intake_refused h c s credentials trigger = (
    λ off. elim (Option-cases (get_config h c s)) [
      | inl missing ↦ rw missing refl
      | inr (r, found) ↦ rw (found, sym (ap switched found) ∙ off) refl
    ],
    refl,
  )
