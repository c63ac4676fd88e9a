-- ===== src/Base/Counts.antt =====
-- Sorting changes neither how many elements pass a test nor how many there are.
use mathlib.Core.Path.{◌≡◌, refl, ap, sym, ◌∙◌}
use mathlib.Core.Bool.{Bool, true}
use mathlib.Core.Option.{some}
use mathlib.Core.List.{List, [], ◌∷◌, ◌++◌}
use mathlib.Core.Logic.{inl, inr}
use native.Mathlib.Omega.{arith}
use Prim.Native.Nat.{◌≤◌, ◌+◌}
use nidaro.Base.Tests.{Bool-cases, if◌then◌else◌}
use nidaro.Base.Lists.{all, length, In}
use nidaro.Base.Sort.{insert, sort}
use nidaro.Base.Table.{count, find, In-count}

module _ {A : Type 0} (le : A → A → Bool) (p : A → Bool) where
  count-insert : (x : A) (xs : List A) → count p (insert le x xs) ≡ count p (x ∷ xs)
  unfolding insert
  count-insert x [] = refl
  count-insert x (y ∷ ys) = ground (arith, count-insert x ys)

  pub count-sort : (xs : List A) → count p (sort le xs) ≡ count p xs
  unfolding sort
  count-sort [] = refl
  count-sort (x ∷ xs) = ground (arith, count-insert x (sort le xs), count-sort xs)

module _ {A : Type 0} (le : A → A → Bool) where
  length-insert : (x : A) (xs : List A) → length (insert le x xs) ≡ length (x ∷ xs)
  unfolding insert
  length-insert x [] = refl
  length-insert x (y ∷ ys) = ground (arith, length-insert x ys)

  pub length-sort : (xs : List A) → length (sort le xs) ≡ length xs
  unfolding sort
  length-sort [] = refl
  length-sort (x ∷ xs) = ground (arith, length-insert x (sort le xs), length-sort xs)

module _ {Row : Type 0} where
  pub count-append_one :
      (p : Row → Bool) (xs : List Row) (x : Row)
      → count p (xs ++ x ∷ []) ≡ count p xs + (if p x then 1 else 0)
  count-append_one p [] x = ground arith
  count-append_one p (y ∷ xs) x = ground (arith, count-append_one p xs x)

-- The only row that a WHERE clause selects is the one it finds.
pub find-In :
    {Row : Type 0} (p : Row → Bool) (t : List Row) (r : Row)
    → count p t ≤ 1
    → In r t
    → p r ≡ true
    → find p t ≡ some r
find-In p [] r u m y = elim m [ ]
find-In p (x ∷ t) r u (inl e) y = rw (sym (ap p e) ∙ y, sym e) refl
find-In p (x ∷ t) r u (inr m) y = elim (Bool-cases (p x)) [
  | inl hit ↦ absurd (omega (arith, In-count p t r m y, rw hit at u))
  | inr miss ↦ rw miss (find-In p t r (rw miss at u) m y)
]

-- Sorting changes nothing of what holds of all elements.
module _ {A : Type 0} (le : A → A → Bool) (p : A → Bool) where
  all-insert : (x : A) (xs : List A) → all p (insert le x xs) ≡ all p (x ∷ xs)
  unfolding insert
  all-insert x [] = refl
  all-insert x (y ∷ ys) = ground (arith, all-insert x ys)

  pub all-sort : (xs : List A) → all p (sort le xs) ≡ all p xs
  unfolding sort
  all-sort [] = refl
  all-sort (x ∷ xs) = ground (arith, all-insert x (sort le xs), all-sort xs)
