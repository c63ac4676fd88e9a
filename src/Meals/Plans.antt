-- ===== src/Meals/Plans.antt =====
-- What stays true of the planned meals under every operation.
use nidaro.Base.{
  ℕ, String, ◌≡◌, refl, ap, inl, inr, true, false, Option, none, some, List, [], ◌∷◌, map, arith,
  Bool-cases, All, ok, fits, mem, suc, ◌++◌, ◌∙◌,
}
use nidaro.Base.{ℕ, ◌≡◌, true, All}
use nidaro.Base.Table.{find}
use nidaro.Meals.Kitchen.{
  with_planned, updated, CreateDishRequest, UpdateDishRequest, PlanMealRequest, State, dish_is,
  create_dish, refers, update_dish, delete_dish, delete_planned, PlannedMeal, Dish, detached,
  create_planned, holds_dish, get_dish,
}
use nidaro.Meals.Service.{plan_meal, planned_name}
use nidaro.Meals.Invariant.{
  WellFormed, create_dish-WellFormed, update_dish-WellFormed, delete_dish-WellFormed,
  plan_meal-WellFormed, delete_planned-WellFormed, delete_dish-eq,
}

-- One call of a method that writes
pub data Step : State → State → Type 0 where
  creates : (request : CreateDishRequest) (s : State) → Step s (create_dish request s).1
  updates : (i : ℕ) (request : UpdateDishRequest) (s : State) → Step s (update_dish i request s).1
  deletes : (i : ℕ) (s : State) → Step s (delete_dish i s).1
  plans : (request : PlanMealRequest) (s : State) → Step s (plan_meal request s).1
  unplans : (i : ℕ) (s : State) → Step s (delete_planned i s).1

-- Any number of calls
pub data Steps : State → State → Type 0 where
  none_yet : {s : State} → Steps s s
  then_step : {s t u : State} → Steps s t → Step t u → Steps s u

Step-WellFormed : {s t : State} → Step s t → WellFormed s → WellFormed t
Step-WellFormed (creates request s) w = create_dish-WellFormed request s w
Step-WellFormed (updates i request s) w = update_dish-WellFormed i request s w
Step-WellFormed (deletes i s) w = delete_dish-WellFormed i s w
Step-WellFormed (plans request s) w = plan_meal-WellFormed request s w
Step-WellFormed (unplans i s) w = delete_planned-WellFormed i s w

-- Whatever dishes and meals are created, changed, planned and deleted, with requests that are
-- refused among them, the identifiers of the dishes stay different and every planned meal refers to
-- no dish or to one that is stored.
pub Steps-WellFormed : {s t : State} → Steps s t → WellFormed s → WellFormed t
Steps-WellFormed none_yet w = w
Steps-WellFormed (then_step steps step) w = Step-WellFormed step (Steps-WellFormed steps w)

-- What a planned meal shows beside its dish
abbrev pub shown : PlannedMeal → ℕ × (ℕ × String)
shown r = (r.id, (r.date, r.name))

map-detached : (i : ℕ) (xs : List PlannedMeal) → map shown (map (detached i) xs) ≡ map shown xs
map-detached i [] = refl
map-detached i (x ∷ xs) = ground (arith, map-detached i xs)

detached-free :
    (i : ℕ) (xs : List PlannedMeal)
    → All (λ r. holds_dish i r.dish_id ≡ false) (map (detached i) xs)
detached-free i [] = tt
detached-free i (x ∷ xs) = (detached-holds i x, detached-free i xs)
  where
    detached-holds : (i : ℕ) (x : PlannedMeal) → holds_dish i (detached i x).dish_id ≡ false
    detached-holds i x = elim (Bool-cases (holds_dish i x.dish_id)) [
      | inl y ↦ rw y refl
      | inr n ↦ rw n n
    ]

find-refers :
    (i : ℕ) (dishes : List Dish) (d : Dish)
    → find (dish_is i) dishes ≡ some d
    → refers (some i) dishes ≡ true
unfolding refers
find-refers i [] d h = cc
find-refers i (x ∷ xs) d h = elim (Bool-cases (dish_is i x)) [
  | inl y ↦ rw y refl
  | inr n ↦ rw n (find-refers i xs d (rw n at h))
]

-- The planned meals after this one is added for a dish
abbrev pub with_meal : PlanMealRequest → ℕ → Dish → State → List (ℕ × (ℕ × String))
with_meal request i d s = map shown s.planned ++ (s.next_id, (request.date, d.name)) ∷ []

plan_meal-named :
    (i : ℕ) (request : PlanMealRequest) (s : State) (d : Dish)
    → find (dish_is i) s.dishes ≡ some d
    → request.name ≡ none
    → request.dish_id ≡ some i
    → mem request.household_id s.households ≡ true
    → fits 250 d.name ≡ true
    → let meal : PlannedMeal = record {
      id = s.next_id;
      household_id = request.household_id;
      date = request.date;
      slot = request.slot;
      dish_id = some i;
      name = d.name;
    } in
      plan_meal request s
      ≡ (ok meal, record s { planned = s.planned ++ meal ∷ []; next_id = suc s.next_id })
unfolding plan_meal planned_name get_dish create_planned with_planned
plan_meal-named i request s d stored unnamed dish known fit =
    rw (unnamed, dish, stored, fit, known, find-refers i s.dishes d stored) refl

update_dish-planned :
    (i : ℕ) (change : UpdateDishRequest) (s : State)
    → (update_dish i change s).1.planned ≡ s.planned
unfolding update_dish
update_dish-planned i change s = by_row (find (dish_is i) s.dishes)
  where
    by_row : (o : Option Dish) → (updated i change o s).1.planned ≡ s.planned
    by_row none = refl
    by_row (some r) = ground arith

delete_dish-planned :
    (i : ℕ) (s : State) (d : Dish)
    → find (dish_is i) s.dishes ≡ some d
    → (map shown (delete_dish i s).1.planned ≡ map shown s.planned)
      × All (λ r. holds_dish i r.dish_id ≡ false) (delete_dish i s).1.planned
delete_dish-planned i s d stored =
    rw (delete_dish-eq i s (some d) stored) (map-detached i s.planned, detached-free i s.planned)

map-snoc :
    (r : PlannedMeal) (xs : List PlannedMeal)
    → map shown (xs ++ r ∷ []) ≡ map shown xs ++ shown r ∷ []
map-snoc r [] = refl
map-snoc r (x ∷ xs) = ap (◌∷◌ (shown x)) (map-snoc r xs)

-- Planning a meal of a stored dish without a name of its own, for a known household, completes: it
-- adds one planned meal, which has the name that the dish has then, and returns it. Changing the dish
-- afterwards, or deleting it, changes no planned meal's name and date, and after the deletion no
-- planned meal refers to the dish.
pub dish_name_copied :
    (i : ℕ) (change : UpdateDishRequest) (request : PlanMealRequest) (s : State) (d : Dish)
    → find (dish_is i) s.dishes ≡ some d
    → request.name ≡ none
    → request.dish_id ≡ some i
    → mem request.household_id s.households ≡ true
    → fits 250 d.name ≡ true
    → let out = plan_meal request s in
      ((meal : PlannedMeal) × (out.0 ≡ ok meal)
        × (shown meal ≡ (s.next_id, (request.date, d.name)))
        × (meal.dish_id ≡ some i))
      × (map shown out.1.planned ≡ with_meal request i d s)
      × (map shown (update_dish i change out.1).1.planned ≡ with_meal request i d s)
      × (map shown (delete_dish i out.1).1.planned ≡ with_meal request i d s)
      × All (λ r. holds_dish i r.dish_id ≡ false) (delete_dish i out.1).1.planned
dish_name_copied i change request s d stored unnamed dish known fit =
    rw (plan_meal-named i request s d stored unnamed dish known fit) (
      (_, refl, refl, refl),
      map-snoc _ s.planned,
      ap (map shown) (update_dish-planned i change _) ∙ map-snoc _ s.planned,
      (delete_dish-planned i _ d stored).0 ∙ map-snoc _ s.planned,
      (delete_dish-planned i _ d stored).1,
    )
