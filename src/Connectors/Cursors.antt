-- ===== src/Connectors/Cursors.antt =====
-- Reading the stored cursors and configs after each write of repository.py.
use mathlib.Core.Option
use nidaro.Base.{
  ℕ, String, ◌≡◌, refl, ◌∙◌, ap, true, false, ◌&&◌, Option, none, some, arith, str_eq, eq_iff, ◌==◌,
  ◌≤◌,
}
use nidaro.Base.Table.{
  find, count, find-save_self, find-save_ne, find-remove_self, find-remove_ne, find-alter_self,
  written,
}
use nidaro.Connectors.Store.{
  CursorRow, ConnectorConfig, ConnectorContext, State, cursor_at, config_at, get_cursor, get_config,
  save_cursor, clear_cursor, stamp_synced,
}
use nidaro.Connectors.Service.{store_cursor}

-- At most one stored cursor for a household and connector
abbrev pub CursorsUnique : {W : Type 0} → State W → Type 0
CursorsUnique s = (h : ℕ) (c : String) → count (cursor_at h c) s.cursors ≤ 1

pub cursor_at-disjoint :
    (h k : ℕ) (c d : String)
    → (h == k && str_eq c d) ≡ false
    → (r : CursorRow) → cursor_at h c r ≡ true
    → cursor_at k d r ≡ false
unfolding cursor_at
cursor_at-disjoint h k c d ne r m =
    ground (arith, eq_iff r.connector c, eq_iff r.connector d, eq_iff c d)

abbrev pub fresh : ℕ → String → String → CursorRow
fresh h c v = record { household_id = h; connector = c; cursor = v }

abbrev pub rewritten : String → CursorRow → CursorRow
rewritten v r = record r { cursor = v }

pub fresh-cursor_at : (h : ℕ) (c v : String) → cursor_at h c (fresh h c v) ≡ true
unfolding cursor_at
fresh-cursor_at h c v = ground (arith, eq_iff c c)

pub rewritten-cursor_at :
    (h : ℕ) (c v : String) (r : CursorRow) → cursor_at h c (rewritten v r) ≡ cursor_at h c r
unfolding cursor_at
rewritten-cursor_at h c v r = refl

abbrev pub cursor_of : Option CursorRow → Option String
cursor_of o = elim o [ none ↦ none | some r ↦ some r.cursor ]

pub cursor-written :
    (h : ℕ) (c v : String) (o : Option CursorRow)
    → (written (fresh h c v) (rewritten v) o).cursor ≡ v
cursor-written h c v none = refl
cursor-written h c v (some r) = refl

pub stamp-config_at :
    (h : ℕ) (c : String) (at : ℕ) (r : ConnectorConfig)
    → config_at h c (record r { last_synced_at = some at }) ≡ config_at h c r
unfolding config_at
stamp-config_at h c at r = refl

abbrev pub stamped : ℕ → ConnectorConfig → ConnectorConfig
stamped at r = record r { last_synced_at = some at }

-- The cursor that stands after a run with this `next_cursor`
abbrev pub kept : Option String → Option String → Option String
kept none before = before
kept (some next) before = some next

module _ {W : Type 0} where
  pub get-save_cursor_self :
      (h : ℕ) (c v : String) (s : State W) → get_cursor h c (save_cursor h c v s) ≡ some v
  unfolding get_cursor save_cursor
  get-save_cursor_self h c v s =
      ap cursor_of (
        find-save_self (cursor_at h c) (fresh h c v) (rewritten v) s.cursors (fresh-cursor_at h c v)
          (rewritten-cursor_at h c v))
      ∙ ap some (cursor-written h c v (find (cursor_at h c) s.cursors))

  pub get-save_cursor_ne :
      (h k : ℕ) (c d v : String) (s : State W)
      → (h == k && str_eq c d) ≡ false
      → get_cursor k d (save_cursor h c v s) ≡ get_cursor k d s
  unfolding get_cursor save_cursor
  get-save_cursor_ne h k c d v s ne = ap cursor_of (
      find-save_ne (cursor_at h c) (cursor_at k d) (fresh h c v) (rewritten v) s.cursors
        (cursor_at-disjoint h k c d ne) (fresh-cursor_at h c v) (rewritten-cursor_at h c v))

  pub get-clear_cursor_self :
      (h : ℕ) (c : String) (s : State W)
      → CursorsUnique s
      → get_cursor h c (clear_cursor h c s) ≡ none
  unfolding get_cursor clear_cursor
  get-clear_cursor_self h c s u = ap cursor_of (find-remove_self (cursor_at h c) s.cursors (u h c))

  pub get-clear_cursor_ne :
      (h k : ℕ) (c d : String) (s : State W)
      → (h == k && str_eq c d) ≡ false
      → get_cursor k d (clear_cursor h c s) ≡ get_cursor k d s
  unfolding get_cursor clear_cursor
  get-clear_cursor_ne h k c d s ne =
      ap cursor_of
        (find-remove_ne (cursor_at h c) (cursor_at k d) s.cursors (cursor_at-disjoint h k c d ne))

  pub get-stamp_synced :
      (h : ℕ) (c : String) (at : ℕ) (s : State W)
      → get_config h c (stamp_synced h c at s) ≡ Option.map (stamped at) (get_config h c s)
  unfolding get_config stamp_synced
  get-stamp_synced h c at s =
      find-alter_self (config_at h c) (stamped at) s.configs (stamp-config_at h c at)

  pub get-store_cursor :
      (x : ConnectorContext) (n : String) (next : Option String) (s : State W)
      → get_cursor x.household_id n (store_cursor x n next s)
        ≡ kept next (get_cursor x.household_id n s)
  get-store_cursor x n none s = refl
  get-store_cursor x n (some v) s = get-save_cursor_self x.household_id n v s

  pub get-store_cursor_ne :
      (x : ConnectorContext) (n : String) (next : Option String) (s : State W) (k : ℕ) (d : String)
      → (x.household_id == k && str_eq n d) ≡ false
      → get_cursor k d (store_cursor x n next s) ≡ get_cursor k d s
  get-store_cursor_ne x n none s k d ne = refl
  get-store_cursor_ne x n (some v) s k d ne = get-save_cursor_ne x.household_id k n d v s ne

module _ {W : Type 0} where
  pub get_cursor-stamp :
      (k : ℕ) (d : String) (h : ℕ) (c : String) (at : ℕ) (s : State W)
      → get_cursor k d (stamp_synced h c at s) ≡ get_cursor k d s
  unfolding get_cursor stamp_synced
  get_cursor-stamp k d h c at s = refl

  pub get_cursor-world :
      (k : ℕ) (d : String) (w : W) (s : State W)
      → get_cursor k d (record s { world = w }) ≡ get_cursor k d s
  unfolding get_cursor
  get_cursor-world k d w s = refl

  pub configs-store_cursor :
      (x : ConnectorContext) (n : String) (next : Option String) (s : State W)
      → (store_cursor x n next s).configs ≡ s.configs
  unfolding save_cursor
  configs-store_cursor x n none s = refl
  configs-store_cursor x n (some v) s = refl

  pub credentials-store_cursor :
      (x : ConnectorContext) (n : String) (next : Option String) (s : State W)
      → (store_cursor x n next s).credentials ≡ s.credentials
  unfolding save_cursor
  credentials-store_cursor x n none s = refl
  credentials-store_cursor x n (some v) s = refl

  pub get_config-configs :
      (h : ℕ) (c : String) (s t : State W)
      → s.configs ≡ t.configs
      → get_config h c s ≡ get_config h c t
  unfolding get_config
  get_config-configs h c s t e = ap (find (config_at h c)) e
