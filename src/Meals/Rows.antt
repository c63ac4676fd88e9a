-- ===== src/Meals/Rows.antt =====
-- Rows of dishes and planned meals under the writes of a table.
use nidaro.Base.{
  ℕ, ◌≡◌, refl, sym, ap, ◌∙◌, inl, inr, Bool, true, false, Option, none, some, List, [], ◌∷◌, ◌++◌,
  map, arith, ◌==◌, Bool-cases, Option-cases, any, All,
}
use nidaro.Base.{ℕ, ◌≡◌, true, All}
use nidaro.Base.Table.{count, alter, remove}
use nidaro.Meals.Kitchen.{dish_is, refers, PlannedMeal, Dish, detached}

module _ {Row : Type 0} where
  pub any-append_one :
      (p : Row → Bool) (xs : List Row) (x : Row) → any p xs ≡ true → any p (xs ++ x ∷ []) ≡ true
  any-append_one p [] x h = cc
  any-append_one p (y ∷ xs) x h = ground (arith, any-append_one p xs x)

  pub count-alter :
      (p q : Row → Bool) (change : Row → Row) (xs : List Row)
      → ((r : Row) → p (change r) ≡ p r)
      → count p (alter q change xs) ≡ count p xs
  count-alter p q change [] k = refl
  count-alter p q change (x ∷ xs) k = ground (arith, k x, count-alter p q change xs k)

  any-alter :
      (p q : Row → Bool) (change : Row → Row) (xs : List Row)
      → ((r : Row) → p (change r) ≡ p r)
      → any p (alter q change xs) ≡ any p xs
  any-alter p q change [] k = refl
  any-alter p q change (x ∷ xs) k = ground (arith, k x, any-alter p q change xs k)

  any-remove_ne :
      (p q : Row → Bool) (xs : List Row)
      → ((r : Row) → q r ≡ true → p r ≡ false)
      → any p (remove q xs) ≡ any p xs
  any-remove_ne p q [] d = refl
  any-remove_ne p q (x ∷ xs) d = ground (arith, d x, any-remove_ne p q xs d)

pub All-weaken :
    (P Q : PlannedMeal → Type 0) (xs : List PlannedMeal)
    → ((r : PlannedMeal) → P r → Q r)
    → All P xs
    → All Q xs
All-weaken P Q [] f h = tt
All-weaken P Q (x ∷ xs) f h = (f x h.0, All-weaken P Q xs f h.1)

pub All-map :
    (P Q : PlannedMeal → Type 0) (f : PlannedMeal → PlannedMeal) (xs : List PlannedMeal)
    → ((r : PlannedMeal) → P r → Q (f r))
    → All P xs
    → All Q (map f xs)
All-map P Q f [] k h = tt
All-map P Q f (x ∷ xs) k h = (k x h.0, All-map P Q f xs k h.1)

pub All-remove :
    (P : PlannedMeal → Type 0) (q : PlannedMeal → Bool) (xs : List PlannedMeal)
    → All P xs
    → All P (remove q xs)
All-remove P q [] h = tt
All-remove P q (x ∷ xs) h = elim (Bool-cases (q x)) [
  | inl y ↦ rw y h.1
  | inr n ↦ rw n (h.0, All-remove P q xs h.1)
]

pub refers-append :
    (o : Option ℕ) (dishes : List Dish) (d : Dish)
    → refers o dishes ≡ true
    → refers o (dishes ++ d ∷ []) ≡ true
unfolding refers
refers-append none dishes d h = refl
refers-append (some i) dishes d h = any-append_one (dish_is i) dishes d h

pub refers-alter :
    (o : Option ℕ) (i : ℕ) (change : Dish → Dish) (dishes : List Dish)
    → ((r : Dish) → (change r).id ≡ r.id)
    → refers o dishes ≡ true
    → refers o (alter (dish_is i) change dishes) ≡ true
unfolding refers
refers-alter none i change dishes k h = refl
refers-alter (some j) i change dishes k h =
    any-alter (dish_is j) (dish_is i) change dishes (λ r. ap (λ n. n == j) (k r)) ∙ h

dish_is-disjoint :
    (i j : ℕ) → (j == i) ≡ false → (r : Dish) → dish_is i r ≡ true → dish_is j r ≡ false
dish_is-disjoint i j ne r h = ground arith

-- What a meal refers to once the dish `i` is deleted
pub refers-detached :
    (i : ℕ) (dishes : List Dish) (r : PlannedMeal)
    → refers r.dish_id dishes ≡ true
    → refers (detached i r).dish_id (remove (dish_is i) dishes) ≡ true
unfolding refers
refers-detached i dishes r h = elim (Option-cases r.dish_id) [
  | inl e ↦ rw e refl
  | inr (j, e) ↦ elim (Bool-cases (j == i)) [
    | inl y ↦ rw (e, y) refl
    | inr n ↦
        rw (e, n)
          (any-remove_ne (dish_is j) (dish_is i) dishes (dish_is-disjoint i j n)
            ∙ ap (λ o. refers o dishes) (sym e)
            ∙ h)
  ]
]
