-- ===== src/Base/Sort.antt =====
-- Python's `sorted` and SQL's ORDER BY as a stable insertion sort by a Boolean order. A result is
-- sorted, and holds the same elements as often.
use mathlib.Core.Path.{◌≡◌, refl, ap, subst}
use mathlib.Core.Logic.{◌⊎◌, ◌↔◌, inl, inr}
use mathlib.Core.Bool.{Bool, true, false}
use mathlib.Core.List.{List, [], ◌∷◌, ◌++◌, Perm, append_assoc, perm_append_comm}
use mathlib.Core.List.Perm
use nidaro.Base.Tests.{if◌then◌else◌, Bool-cases}
use nidaro.Base.Lists.{In, All, flat_map, keep}

module _ {A : Type 0} (le : A → A → Bool) where
  unfoldable pub insert : A → List A → List A
  insert x [] = x ∷ []
  insert x (y ∷ ys) = if le x y then x ∷ y ∷ ys else y ∷ insert x ys

  -- Insertion from the right end, so that of two equal elements the earlier stays in front.
  unfoldable pub sort : List A → List A
  unfolding insert
  sort [] = []
  sort (x ∷ xs) = insert x (sort xs)

  -- Every element is at most all that follow it.
  abbrev pub IsSorted : List A → Type 0
  IsSorted [] = Unit
  IsSorted (x ∷ xs) = All (λ y. le x y ≡ true) xs × IsSorted xs

  insert-perm : (x : A) (xs : List A) → Perm (insert x xs) (x ∷ xs)
  unfolding insert
  insert-perm x [] = Perm.refl _
  insert-perm x (y ∷ ys) = elim (Bool-cases (le x y)) [
    | inl h ↦ rw h (Perm.refl _)
    | inr h ↦ rw h (Perm.trans (Perm.cons y (insert-perm x ys)) (Perm.swap x y ys))
  ]

  pub sort-perm : (xs : List A) → Perm (sort xs) xs
  unfolding sort
  sort-perm [] = Perm.refl _
  sort-perm (x ∷ xs) = Perm.trans (insert-perm x (sort xs)) (Perm.cons x (sort-perm xs))

  module _ (total : (x y : A) → le x y ≡ false → le y x ≡ true)
      (trans : (x y z : A) → le x y ≡ true → le y z ≡ true → le x z ≡ true) where
    All-le :
        (x y : A) (zs : List A)
        → le x y ≡ true
        → All (λ z. le y z ≡ true) zs
        → All (λ z. le x z ≡ true) zs
    All-le x y [] h a = tt
    All-le x y (z ∷ zs) h a = (trans x y z h a.0, All-le x y zs h a.1)

    All-insert : (P : A → Type 0) (x : A) (ys : List A) → P x → All P ys → All P (insert x ys)
    unfolding insert
    All-insert P x [] h a = (h, tt)
    All-insert P x (y ∷ ys) h a = elim (Bool-cases (le x y)) [
      | inl e ↦ rw e (h, a)
      | inr e ↦ rw e (a.0, All-insert P x ys h a.1)
    ]

    insert-IsSorted : (x : A) (ys : List A) → IsSorted ys → IsSorted (insert x ys)
    unfolding insert
    insert-IsSorted x [] s = (tt, tt)
    insert-IsSorted x (y ∷ ys) s = elim (Bool-cases (le x y)) [
      | inl e ↦ rw e ((e, All-le x y ys e s.0), s)
      | inr e ↦
          rw e (All-insert (λ z. le y z ≡ true) x ys (total x y e) s.0, insert-IsSorted x ys s.1)
    ]

    pub sort-IsSorted : (xs : List A) → IsSorted (sort xs)
    unfolding sort
    sort-IsSorted [] = tt
    sort-IsSorted (x ∷ xs) = insert-IsSorted x (sort xs) (sort-IsSorted xs)

-- What a comprehension yields over a sorted list it yields over the list, in another order.
module _ {A B : Type 0} (le : A → A → Bool) (f : A → List B) where
  flat_map-insert-perm :
      (x : A) (xs : List A) → Perm (flat_map f (insert le x xs)) (f x ++ flat_map f xs)
  unfolding insert
  flat_map-insert-perm x [] = Perm.refl _
  flat_map-insert-perm x (y ∷ ys) = elim (Bool-cases (le x y)) [
    | inl h ↦ rw h (Perm.refl _)
    | inr h ↦ rw h (
        Perm.trans (Perm.append_left (f y) (flat_map-insert-perm x ys)) (
          subst (λ l. Perm (f y ++ (f x ++ flat_map f ys)) l)
            (append_assoc (f x) (f y) (flat_map f ys))
            (subst (λ l. Perm l ((f x ++ f y) ++ flat_map f ys))
              (append_assoc (f y) (f x) (flat_map f ys))
              (Perm.append_right (flat_map f ys) (perm_append_comm (f y) (f x))))))
  ]

  pub flat_map-sort-perm : (xs : List A) → Perm (flat_map f (sort le xs)) (flat_map f xs)
  unfolding sort
  flat_map-sort-perm [] = Perm.refl _
  flat_map-sort-perm (x ∷ xs) =
      Perm.trans (flat_map-insert-perm x (sort le xs))
        (Perm.append_left (f x) (flat_map-sort-perm xs))

-- A narrower filter that drops only what yields nothing changes nothing.
module _ {A B : Type 0} (f : A → List B) (p q : A → Bool) where
  pub flat_map-keep :
      ((a : A) → q a ≡ true → p a ≡ true)
      → ((a : A) → p a ≡ true → q a ≡ false → f a ≡ [])
      → (xs : List A) → flat_map f (keep q xs) ≡ flat_map f (keep p xs)
  flat_map-keep k h [] = refl
  flat_map-keep k h (x ∷ xs) = elim (Bool-cases (q x)) [
    | inl y ↦ rw (y, k x y) (ap (λ l. f x ++ l) (flat_map-keep k h xs))
    | inr n ↦ elim (Bool-cases (p x)) [
      | inl m ↦ rw (n, m, h x m n) (flat_map-keep k h xs)
      | inr m ↦ rw (n, m) (flat_map-keep k h xs)
    ]
  ]

-- A sorted list has the elements of the list.
module _ {A : Type 0} (le : A → A → Bool) where
  In-insert : (a x : A) (ys : List A) → In a (insert le x ys) ↔ In a (x ∷ ys)
  unfolding insert
  In-insert a x [] = ((λ m. m), (λ m. m))
  In-insert a x (y ∷ ys) = elim (Bool-cases (le x y)) [
    | inl h ↦ rw h ((λ m. m), (λ m. m))
    | inr h ↦ rw h (rotated (In-insert a x ys))
  ]
    where
      rotated : {P Q R S : Type 0} → (P ↔ (Q ⊎ R)) → (S ⊎ P) ↔ (Q ⊎ (S ⊎ R))
      rotated e = (
        elim [ inl s ↦ inr (inl s) | inr p ↦ elim (e.0 p) [ inl q ↦ inl q | inr r ↦ inr (inr r) ] ],
        elim [
          | inl q ↦ inr (e.1 (inl q))
          | inr t ↦ elim t [ inl s ↦ inl s | inr r ↦ inr (e.1 (inr r)) ]
        ],
      )

  pub In-sort : (a : A) (xs : List A) → In a (sort le xs) ↔ In a xs
  unfolding sort
  In-sort a [] = ((λ m. m), (λ m. m))
  In-sort a (x ∷ xs) =
      let i = In-insert a x (sort le xs) in
      let rest = In-sort a xs in
      (
        (λ m. elim (i.0 m) [ inl e ↦ inl e | inr k ↦ inr (rest.0 k) ]),
        (λ m. i.1 (elim m [ inl e ↦ inl e | inr k ↦ inr (rest.1 k) ])),
      )
