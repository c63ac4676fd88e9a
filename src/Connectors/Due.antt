-- ===== src/Connectors/Due.antt =====
-- Which configs `ConnectorConfigService.due` lists, before and after a sync.
use nidaro.Base.{
  Exn-discrete, ℕ, ◌+◌, ◌*◌, ◌≤◌, String, ◌≡◌, ◌↔◌, refl, ap, ◌∙◌, Bool, true, Option, none, some,
  ok, err, Exn, stale_cursor, leb→le, le→leb, In, In-keep, keep-In, keep, subst,
}
use nidaro.Base.Sort.{sort, In-sort}
use nidaro.Base.Table.{count, In-alter}
use nidaro.Connectors.Store.{
  ConnectorConfig, ConnectorContext, State, SyncResult, config_at, all_enabled,
}
use nidaro.Connectors.Service.{Connector, Registry, effective, get, sync, is_due, has_elapsed, due}
use nidaro.Connectors.Cursors.{stamped, stamp-config_at, CursorsUnique}
use nidaro.Connectors.Sync.{sync-configs, sync_stale, sync_failed}

-- Never synced, or last synced a cadence or longer ago
abbrev Elapsed : ℕ → ConnectorConfig → Type 0
Elapsed moment r = (at : ℕ) → r.last_synced_at ≡ some at → at + r.poll_seconds * 1_000_000 ≤ moment

some-inj : {a b : ℕ} → some a ≡ some b → a ≡ b
some-inj p = cc

has_elapsed_iff :
    (moment poll : ℕ) (o : Option ℕ)
    → (has_elapsed moment poll o ≡ true) ↔ ((at : ℕ) → o ≡ some at → at + poll * 1_000_000 ≤ moment)
has_elapsed_iff moment poll none = ((λ h at e. cc), (λ h. refl))
has_elapsed_iff moment poll (some at) = (
  (λ h b e.
      subst (λ (n : ℕ). n + poll * 1_000_000 ≤ moment) (some-inj e)
        (leb→le (at + poll * 1_000_000) moment h)),
  (λ h. le→leb (at + poll * 1_000_000) moment (h at refl)),
)

module _ {W : Type 0} (order : ConnectorConfig → ConnectorConfig → Bool) where
  -- A config is listed exactly if it is stored, enabled, and never synced or last synced at least
  -- its cadence ago.
  pub due_exact :
      (moment : ℕ) (s : State W) (r : ConnectorConfig)
      → In r (due order moment s) ↔ (In r s.configs × (r.enabled ≡ true) × Elapsed moment r)
  unfolding due is_due all_enabled
  due_exact moment s r =
      let elapsed = has_elapsed_iff moment r.poll_seconds r.last_synced_at in
      let sorted = In-sort order r (keep (λ x. x.enabled) s.configs) in
      (
        (λ m.
            let (i, e) = keep-In (is_due moment) r _ m in
            let (j, on) = keep-In (λ x. x.enabled) r s.configs (sorted.0 i) in
            (j, on, elapsed.0 e)),
        (λ h.
            In-keep (is_due moment) r _ (sorted.1 (In-keep (λ x. x.enabled) r s.configs h.0 h.1))
              (elapsed.1 h.2)),
      )

  due-configs :
      (moment : ℕ) (s t : State W) → s.configs ≡ t.configs → due order moment s ≡ due order moment t
  unfolding due all_enabled
  due-configs moment s t e = ap (λ l. keep (is_due moment) (sort order (keep (λ x. x.enabled) l))) e

module _ {W : Type 0} (order : ConnectorConfig → ConnectorConfig → Bool) (registry : Registry W)
    (now : ℕ) (name : String) (x : ConnectorContext) (cursor : Option String) (s : State W)
    (c : Connector W) (found : get name registry ≡ ok c) where
  -- After a completed run at `now` the household's config for the connector is listed again only
  -- from its cadence after `now` on.
  pub due-sync_completed :
      (result : SyncResult)
      → (c x (effective x name cursor s) s.world).0 ≡ ok result
      → count (config_at x.household_id name) s.configs ≤ 1
      → (moment : ℕ) (r : ConnectorConfig)
      → In r (due order moment (sync registry true now name x cursor s).1)
      → config_at x.household_id name r ≡ true
      → now + r.poll_seconds * 1_000_000 ≤ moment
  due-sync_completed result e unique moment r m mine =
      let out = (sync registry true now name x cursor s).1 in
      let (stored, on, elapsed) = (due_exact order moment out r).0 m in
      let (before, _, same) =
        In-alter (config_at x.household_id name) (stamped now) s.configs r
          (stamp-config_at x.household_id name now) unique
          (subst (In r) (sync-configs registry now name x cursor s c found result e) stored) mine in
      elapsed now (ap (λ y. y.last_synced_at) same)

  -- After a run that raised, whatever was raised, the same configs are due as before it.
  pub due-sync_raised :
      (ex : Exn)
      → (c x (effective x name cursor s) s.world).0 ≡ err ex
      → CursorsUnique s
      → (moment : ℕ)
      → due order moment (sync registry true now name x cursor s).1 ≡ due order moment s
  due-sync_raised ex e u moment =
      due-configs order moment (sync registry true now name x cursor s).1 s
        (elim (Exn-discrete ex stale_cursor) [
          | yes stale ↦ (sync_stale registry now name x cursor s c found u (e ∙ ap err stale)).3
          | no other ↦ (sync_failed registry now name x cursor s c found ex other e).2
        ])
