-- ===== src/Connectors/Sync.antt =====
-- What `ConnectorService.sync` stores, on every outcome of the connector's run.
use mathlib.Core.Option
use nidaro.Base.{
  ℕ, String, ◌≡◌, refl, Result, ◌∙◌, ap, true, false, ◌&&◌, Option, none, ok, err, Exn,
  stale_cursor, str_eq, ◌==◌, ◌≢◌, Result,
}
use nidaro.Base.Table.{alter}
use nidaro.Connectors.Store.{
  ConnectorContext, State, SyncResult, get_cursor, get_config, clear_cursor, stamp_synced,
  config_at,
}
use nidaro.Connectors.Service.{on_stale, Connector, Registry, get, sync, effective, store_cursor}
use nidaro.Connectors.Cursors.{
  CursorsUnique, stamped, kept, get-clear_cursor_self, get-clear_cursor_ne, get-stamp_synced,
  get-store_cursor, get-store_cursor_ne, get_cursor-stamp, get_cursor-world, configs-store_cursor,
  credentials-store_cursor, get_config-configs,
}

on_stale-other :
    {W : Type 0} (x : ConnectorContext) (n : String) (e : Exn) (s : State W)
    → e ≢ stale_cursor
    → on_stale x n e s ≡ (err e, s)
on_stale-other x n stale_cursor s h = absurd (h refl)
on_stale-other x n _ s h = refl

module _ {W : Type 0} (registry : Registry W) (now : ℕ) (name : String) (x : ConnectorContext)
    (cursor : Option String) (s : State W) (c : Connector W)
    (found : get name registry ≡ ok c) where
  abbrev outcome : Result SyncResult
  outcome = (c x (effective x name cursor s) s.world).0

  -- The state after the connector's run
  ran : State W
  ran = record s { world = (c x (effective x name cursor s) s.world).1 }

  sync-eq :
      (result : SyncResult)
      → outcome ≡ ok result
      → sync registry true now name x cursor s ≡ (
        ok result,
        stamp_synced x.household_id name now (store_cursor x name result.next_cursor ran),
      )
  unfolding sync ran
  sync-eq result e = rw (found, e) refl

  stamped_credentials :
      (result : SyncResult)
      → (stamp_synced x.household_id name now
          (store_cursor x name result.next_cursor ran)).credentials
        ≡ s.credentials
  unfolding stamp_synced ran
  stamped_credentials result = credentials-store_cursor x name result.next_cursor ran

  -- A completed run: the connector ran from the given or else the stored cursor, its next cursor
  -- is stored, without one the stored cursor stays, no other cursor changes, the household's config
  -- is stamped, and the credentials stay.
  pub sync_completed :
      (result : SyncResult)
      → outcome ≡ ok result
      → let out = sync registry true now name x cursor s in
        (out.0 ≡ ok result)
        × (get_cursor x.household_id name out.1
            ≡ kept result.next_cursor (get_cursor x.household_id name s))
        × ((k : ℕ) (d : String)
            → (x.household_id == k && str_eq name d) ≡ false
            → get_cursor k d out.1 ≡ get_cursor k d s)
        × (get_config x.household_id name out.1
            ≡ Option.map (stamped now) (get_config x.household_id name s))
        × (out.1.credentials ≡ s.credentials)
  unfolding ran
  sync_completed result e =
      let t = store_cursor x name result.next_cursor ran in
      let h = x.household_id in
      rw (sync-eq result e) (
        refl,
        get_cursor-stamp h name h name now t
            ∙ get-store_cursor x name result.next_cursor ran
            ∙ ap (kept result.next_cursor) (get_cursor-world h name ran.world s),
        (λ k d ne.
            get_cursor-stamp k d h name now t
            ∙ get-store_cursor_ne x name result.next_cursor ran k d ne
            ∙ get_cursor-world k d ran.world s),
        get-stamp_synced h name now t
            ∙ ap (Option.map (stamped now)) (
                get_config-configs h name t s (configs-store_cursor x name result.next_cursor ran)),
        stamped_credentials result,
      )

  -- The configs after a completed run
  pub sync-configs :
      (result : SyncResult)
      → outcome ≡ ok result
      → (sync registry true now name x cursor s).1.configs
        ≡ alter (config_at x.household_id name) (stamped now) s.configs
  unfolding ran stamp_synced
  sync-configs result e = rw (sync-eq result e) (
      ap (alter (config_at x.household_id name) (stamped now))
        (configs-store_cursor x name result.next_cursor ran))

  sync-eq_stale :
      outcome ≡ err stale_cursor
      → sync registry true now name x cursor s
        ≡ (err stale_cursor, clear_cursor x.household_id name ran)
  unfolding sync ran
  sync-eq_stale e = rw (found, e) refl

  cleared_configs : (clear_cursor x.household_id name ran).configs ≡ s.configs
  unfolding clear_cursor ran
  cleared_configs = refl

  ran-CursorsUnique : CursorsUnique s → CursorsUnique ran
  unfolding ran
  ran-CursorsUnique u = u

  -- A run that the source refuses as stale: the error goes on, the stored cursor is gone, no other
  -- cursor changes, and no config is stamped.
  pub sync_stale :
      CursorsUnique s
      → outcome ≡ err stale_cursor
      → let out = sync registry true now name x cursor s in
        (out.0 ≡ err stale_cursor)
        × (get_cursor x.household_id name out.1 ≡ none)
        × ((k : ℕ) (d : String)
            → (x.household_id == k && str_eq name d) ≡ false
            → get_cursor k d out.1 ≡ get_cursor k d s)
        × (out.1.configs ≡ s.configs)
  unfolding ran get_cursor
  sync_stale u e =
      let h = x.household_id in
      rw (sync-eq_stale e) (
        refl,
        get-clear_cursor_self h name ran (ran-CursorsUnique u),
        (λ k d ne. get-clear_cursor_ne h k name d ran ne ∙ get_cursor-world k d ran.world s),
        cleared_configs,
      )

  -- Any other failure of the run leaves the three tables as they were.
  pub sync_failed :
      (ex : Exn)
      → ex ≢ stale_cursor
      → outcome ≡ err ex
      → let out = sync registry true now name x cursor s in
        (out.0 ≡ err ex)
        × (out.1.cursors ≡ s.cursors)
        × (out.1.configs ≡ s.configs)
        × (out.1.credentials ≡ s.credentials)
  unfolding sync
  sync_failed ex other e =
      rw
        (
          found,
          e,
          on_stale-other x name ex
              (record s { world = (c x (effective x name cursor s) s.world).1 }) other,
        )
        (refl, refl, refl, refl)
