-- ===== src/Base/Assoc.antt =====
-- A dictionary with text keys as an association list: reading a key, and assigning to it.
use nidaro.Base.Tests.{if◌then◌else◌, Bool-cases}
use Prim.Native.String.{String}
use mathlib.Core.Path.{◌≡◌, refl, ap}
use mathlib.Core.Logic.{inl, inr}
use mathlib.Core.Bool.{false}
use mathlib.Core.Option.{Option, none, some}
use mathlib.Core.List.{List, [], ◌∷◌}
use native.Mathlib.Omega.{arith}
use text.Mathlib.Text.{◌==◌ as str_eq}
use text.Mathlib.TextEquality.{eq_iff}

module _ {A : Type 0} where
  abbrev pub lookup : String → List (String × A) → Option A
  lookup k [] = none
  lookup k ((l, a) ∷ d) = if str_eq l k then some a else lookup k d

  abbrev pub put : String → A → List (String × A) → List (String × A)
  put k a [] = (k, a) ∷ []
  put k a ((l, b) ∷ d) = if str_eq l k then (l, a) ∷ d else (l, b) ∷ put k a d

  pub lookup-put_self : (k : String) (a : A) (d : List (String × A)) → lookup k (put k a d) ≡ some a
  lookup-put_self k a [] = rw ((eq_iff k k).1 refl) refl
  lookup-put_self k a ((l, b) ∷ d) = ground (arith, lookup-put_self k a d)

  pub lookup-put_ne :
      (k j : String) (a : A) (d : List (String × A))
      → str_eq k j ≡ false
      → lookup j (put k a d) ≡ lookup j d
  lookup-put_ne k j a [] h = rw h refl
  lookup-put_ne k j a ((l, b) ∷ d) h = elim (Bool-cases (str_eq l k)) [
    | inl y ↦ rw (y, ap (λ x. str_eq x j) ((eq_iff l k).0 y), h) refl
    | inr n ↦ rw n (ground (arith, lookup-put_ne k j a d h))
  ]

  -- `del d[k]`
  abbrev pub drop_key : String → List (String × A) → List (String × A)
  drop_key k [] = []
  drop_key k ((l, a) ∷ d) = let rest = drop_key k d in if str_eq l k then rest else (l, a) ∷ rest

  pub lookup-drop_key_self : (k : String) (d : List (String × A)) → lookup k (drop_key k d) ≡ none
  lookup-drop_key_self k [] = refl
  lookup-drop_key_self k ((l, a) ∷ d) = ground (arith, lookup-drop_key_self k d)

  pub lookup-drop_key_ne :
      (k j : String) (d : List (String × A))
      → str_eq k j ≡ false
      → lookup j (drop_key k d) ≡ lookup j d
  lookup-drop_key_ne k j [] h = refl
  lookup-drop_key_ne k j ((l, a) ∷ d) h = elim (Bool-cases (str_eq l k)) [
    | inl y ↦ rw (y, ap (λ x. str_eq x j) ((eq_iff l k).0 y), h) (lookup-drop_key_ne k j d h)
    | inr n ↦ rw n (ground (arith, lookup-drop_key_ne k j d h))
  ]
