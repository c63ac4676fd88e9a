-- ===== src/Base/Table.antt =====
-- A database table as the list of its rows, with a family of WHERE clauses `has k` that select by a
-- key. A session reads the first row that matches, and writes it back or adds a new one.
use nidaro.Base.Tests.{if◌then◌else◌, Bool-cases}
use nidaro.Base.Lists.{keep, In}
use Prim.Native.Nat.{ℕ, suc, ◌≤◌}
use mathlib.Core.Path.{◌≡◌, refl, ap, sym, ◌∙◌}
use mathlib.Core.Option
use mathlib.Core.Bool.{Bool, true, false}
use mathlib.Core.Option.{Option, none, some}
use mathlib.Core.List.{List, [], ◌∷◌}
use mathlib.Core.Bool.{true≢false}
use mathlib.Core.Logic.{inl, inr}
use native.Mathlib.Omega.{arith}

module _ {Row : Type 0} where
  -- `session.scalar(select(Row).where(p))`
  abbrev pub find : (Row → Bool) → List Row → Option Row
  find p [] = none
  find p (r ∷ t) = if p r then some r else find p t

  -- Read the row that matches; change it if there is one, add `new` otherwise.
  abbrev pub save : (Row → Bool) → Row → (Row → Row) → List Row → List Row
  save p new change [] = new ∷ []
  save p new change (r ∷ t) = if p r then change r ∷ t else r ∷ save p new change t

  -- `session.delete(row)` of the row that matches
  abbrev pub remove : (Row → Bool) → List Row → List Row
  remove p [] = []
  remove p (r ∷ t) = if p r then t else r ∷ remove p t

  -- Read the row that matches and change it; nothing is added.
  abbrev pub alter : (Row → Bool) → (Row → Row) → List Row → List Row
  alter p change [] = []
  alter p change (r ∷ t) = if p r then change r ∷ t else r ∷ alter p change t

  abbrev pub written : Row → (Row → Row) → Option Row → Row
  written new change none = new
  written new change (some r) = change r

  abbrev pub count : (Row → Bool) → List Row → ℕ
  count p [] = 0
  count p (r ∷ t) = if p r then suc (count p t) else count p t

  pub find-save_self :
      (p : Row → Bool) (new : Row) (change : Row → Row) (t : List Row)
      → p new ≡ true
      → ((r : Row) → p (change r) ≡ p r)
      → find p (save p new change t) ≡ some (written new change (find p t))
  find-save_self p new change [] h k = ground arith
  find-save_self p new change (r ∷ t) h k = ground (arith, k r, find-save_self p new change t h k)

  -- A write through one WHERE clause is not seen through a disjoint one.
  pub find-save_ne :
      (p q : Row → Bool) (new : Row) (change : Row → Row) (t : List Row)
      → ((r : Row) → p r ≡ true → q r ≡ false)
      → p new ≡ true
      → ((r : Row) → p (change r) ≡ p r)
      → find q (save p new change t) ≡ find q t
  find-save_ne p q new change [] d h k = ground (arith, d new)
  find-save_ne p q new change (r ∷ t) d h k =
      ground (arith, d r, d (change r), k r, find-save_ne p q new change t d h k)

  pub count-save_self :
      (p : Row → Bool) (new : Row) (change : Row → Row) (t : List Row)
      → ((r : Row) → p (change r) ≡ p r)
      → count p t ≤ 1
      → count p (save p new change t) ≤ 1
  count-save_self p new change [] k h = ground arith
  count-save_self p new change (r ∷ t) k h = ground (arith, k r, count-save_self p new change t k)

  pub count-save_ne :
      (p q : Row → Bool) (new : Row) (change : Row → Row) (t : List Row)
      → ((r : Row) → p r ≡ true → q r ≡ false)
      → p new ≡ true
      → ((r : Row) → p (change r) ≡ p r)
      → count q (save p new change t) ≡ count q t
  count-save_ne p q new change [] d h k = ground (arith, d new)
  count-save_ne p q new change (r ∷ t) d h k =
      ground (arith, d r, d (change r), k r, count-save_ne p q new change t d h k)

  pub find-none : (p : Row → Bool) (t : List Row) → count p t ≡ 0 → find p t ≡ none
  find-none p [] h = refl
  find-none p (r ∷ t) h = ground (arith, find-none p t)

  -- With at most one match the deleted row is gone.
  pub find-remove_self :
      (p : Row → Bool) (t : List Row) → count p t ≤ 1 → find p (remove p t) ≡ none
  find-remove_self p [] h = refl
  find-remove_self p (r ∷ t) h = ground (arith, find-none p t, find-remove_self p t)

  pub find-remove_ne :
      (p q : Row → Bool) (t : List Row)
      → ((r : Row) → p r ≡ true → q r ≡ false)
      → find q (remove p t) ≡ find q t
  find-remove_ne p q [] d = refl
  find-remove_ne p q (r ∷ t) d = ground (arith, d r, find-remove_ne p q t d)

  pub count-remove : (p q : Row → Bool) (t : List Row) → count q (remove p t) ≤ count q t
  count-remove p q [] = omega arith
  count-remove p q (r ∷ t) = ground (arith, count-remove p q t)

  -- A row that the WHERE clause does not select stays as it is.
  pub keep-save :
      (p q : Row → Bool) (new : Row) (change : Row → Row) (t : List Row)
      → ((r : Row) → p r ≡ true → q r ≡ false)
      → p new ≡ true
      → ((r : Row) → p (change r) ≡ p r)
      → keep q (save p new change t) ≡ keep q t
  keep-save p q new change [] d h k = ground (arith, d new)
  keep-save p q new change (r ∷ t) d h k =
      ground (arith, d r, d (change r), k r, keep-save p q new change t d h k)

  pub keep-remove :
      (p q : Row → Bool) (t : List Row)
      → ((r : Row) → p r ≡ true → q r ≡ false)
      → keep q (remove p t) ≡ keep q t
  keep-remove p q [] d = refl
  keep-remove p q (r ∷ t) d = ground (arith, d r, keep-remove p q t d)

  pub find-alter_self :
      (p : Row → Bool) (change : Row → Row) (t : List Row)
      → ((r : Row) → p (change r) ≡ p r)
      → find p (alter p change t) ≡ Option.map change (find p t)
  find-alter_self p change [] k = refl
  find-alter_self p change (r ∷ t) k = ground (arith, k r, find-alter_self p change t k)

  pub find-alter_ne :
      (p q : Row → Bool) (change : Row → Row) (t : List Row)
      → ((r : Row) → p r ≡ true → q r ≡ false)
      → ((r : Row) → p (change r) ≡ p r)
      → find q (alter p change t) ≡ find q t
  find-alter_ne p q change [] d k = refl
  find-alter_ne p q change (r ∷ t) d k =
      ground (arith, d r, d (change r), k r, find-alter_ne p q change t d k)

  pub In-count : (p : Row → Bool) (t : List Row) (r : Row) → In r t → p r ≡ true → 1 ≤ count p t
  In-count p [] r m y = elim m [ ]
  In-count p (x ∷ t) r (inl e) y = rw (sym (ap p e) ∙ y) (omega arith)
  In-count p (x ∷ t) r (inr m) y = ground (arith, In-count p t r m y)

  -- With at most one match, the altered table's match comes from the table's.
  pub In-alter :
      (p : Row → Bool) (change : Row → Row) (t : List Row) (r : Row)
      → ((x : Row) → p (change x) ≡ p x)
      → count p t ≤ 1
      → In r (alter p change t)
      → p r ≡ true
      → (x : Row) × (find p t ≡ some x) × (r ≡ change x)
  In-alter p change [] r k h m y = elim m [ ]
  In-alter p change (x ∷ t) r k h m y = elim (Bool-cases (p x)) [
    | inl hit ↦ elim (rw hit at m) [
      | inl e ↦ (x, rw hit refl, e)
      | inr other ↦ absurd (omega (arith, In-count p t r other y, rw hit at h))
    ]
    | inr miss ↦ elim (rw miss at m) [
      | inl e ↦ absurd (true≢false (sym y ∙ ap p e ∙ miss))
      | inr other ↦ rw miss (In-alter p change t r k (rw miss at h) other y)
    ]
  ]
