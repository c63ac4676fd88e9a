-- ===== src/Connectors/Cipher.antt =====
-- A transparent stand-in for the package cryptography, on which the theorems are applied.
use Prim.Native.String.{String, [], ◌∷◌}
use Prim.Native.Char.{Char, code, nul}
use text.Mathlib.TextEquality.{Char-path}
use mathlib.Core.Path.{◌≡◌, refl, ap, sym, ◌∙◌}
use mathlib.Core.Bool.{true, false, true≢false}
use mathlib.Core.Option.{Option, none, some}
use mathlib.Core.Logic.{inl, inr}
use native.Mathlib.Omega.{arith}
use nidaro.Base.{if◌then◌else◌, ◌==◌, str_eq, eq_iff, Option-cases, Bool-cases}
use nidaro.Connectors.Credentials.{Fernet, IsAuthentic}

abbrev mark : Char
mark = "k"

-- The key's characters, each after a mark, then a NUL, then the plaintext
abbrev seal : String → Unit {0} → String → String
seal [] n m = nul ∷ m
seal (c ∷ k) n m = mark ∷ c ∷ seal k n m

abbrev unseal : String → String → Option String
unseal [] [] = none
unseal [] (c ∷ t) = if code c == 0 then some t else none
unseal (d ∷ k) [] = none
unseal (d ∷ k) (c ∷ []) = none
unseal (d ∷ k) (c ∷ e ∷ t) =
    let rest = unseal k t in if code c == 0 then none else if code e == code d then rest else none

unseal-seal : (k : String) (n : Unit {0}) (m : String) → unseal k (seal k n m) ≡ some m
unseal-seal [] n m = refl
unseal-seal (c ∷ k) n m = ground (arith, unseal-seal k n m)

sealed_by : (k l : String) (n : Unit {0}) (m x : String) → unseal l (seal k n m) ≡ some x → k ≡ l
sealed_by [] [] n m x e = refl
sealed_by [] (d ∷ l) n [] x e = cc
sealed_by [] (d ∷ l) n (a ∷ m) x e = cc
sealed_by (c ∷ k) [] n m x e = cc
sealed_by (c ∷ k) (d ∷ l) n m x e = elim (Bool-cases (code c == code d)) [
  | inl same ↦
      ap (λ a. a ∷ k) (Char-path c d (ground (arith, same)))
      ∙ ap (λ t. d ∷ t) (sealed_by k l n m x (rw same at e))
  | inr other ↦ cc
]

abbrev pub transparent : Fernet (Unit {0})
transparent = record { is_key = λ k. true; fernet_encrypt = seal; fernet_decrypt = unseal }

refused :
    (k l : String) (n : Unit {0}) (m : String) → str_eq k l ≡ false → unseal l (seal k n m) ≡ none
refused k l n m ne = elim (Option-cases (unseal l (seal k n m))) [
  | inl e ↦ e
  | inr (x, e) ↦ absurd (true≢false (sym ((eq_iff k l).1 (sealed_by k l n m x e)) ∙ ne))
]

pub transparent-IsAuthentic : IsAuthentic transparent
transparent-IsAuthentic = record { decrypt_own = unseal-seal; decrypt_other = refused }
