-- ===== src/Meals/Invariant.antt =====
-- Each operation keeps the dishes' identifiers different and the planned meals' references stored.
use nidaro.Base.{
  ℕ, ◌≤◌, String, ◌≡◌, refl, ap, inl, inr, true, Option, none, some, arith, Bool-cases,
  Option-cases, All, Result-cases, fits,
}
use nidaro.Base.{ℕ, ◌≤◌, ◌≡◌, true, All}
use nidaro.Base.Table.{count, find, alter}
use nidaro.Meals.Kitchen.{
  rewritten_dish, insertable, new_dish, with_dish, with_planned, updated, CreateDishRequest,
  UpdateDishRequest, PlanMealRequest, State, dish_is, create_dish, refers, update_dish, delete_dish,
  deleted, rewritten_dish, delete_planned, Dish, detached, create_planned,
}
use nidaro.Meals.Service.{plan_meal, planned_name}
use nidaro.Base.Counts.{count-append_one}
use nidaro.Meals.Rows.{
  count-alter, All-weaken, All-map, All-remove, refers-append, refers-alter, refers-detached,
}
use nidaro.Base.Table.{count-remove}
use nidaro.Base.{All-append}

-- The identifiers of the dishes differ, and stay below the next one; each planned meal refers to
-- no dish or to a stored one.
pub record WellFormed (s : State) : Type 0 where
  pub unique : (i : ℕ) → count (dish_is i) s.dishes ≤ 1
  pub below : (i : ℕ) → s.next_id ≤ i → count (dish_is i) s.dishes ≡ 0
  pub referred : All (λ r. refers r.dish_id s.dishes ≡ true) s.planned

with_dish-WellFormed :
    (request : CreateDishRequest) (s : State) → WellFormed s → WellFormed (with_dish request s).1
with_dish-WellFormed request s w = record {
  unique = λ i. ground (
    arith,
    count-append_one (dish_is i) s.dishes (new_dish s.next_id request),
    w.unique i,
    w.below i,
  );
  below = λ i h.
      ground (arith, count-append_one (dish_is i) s.dishes (new_dish s.next_id request), w.below i);
  referred =
      All-weaken (λ r. refers r.dish_id s.dishes ≡ true) _ s.planned
        (λ r. refers-append r.dish_id s.dishes (new_dish s.next_id request)) w.referred;
}

pub create_dish-WellFormed :
    (request : CreateDishRequest) (s : State) → WellFormed s → WellFormed (create_dish request s).1
unfolding create_dish
create_dish-WellFormed request s w =
    elim (Result-cases (insertable request.name request.household_id s)) [
      | inr (e, refused) ↦ rw refused w
      | inl (done, taken) ↦ rw taken (with_dish-WellFormed request s w)
    ]

updated-WellFormed :
    (i : ℕ) (request : UpdateDishRequest) (s : State)
    → WellFormed s
    → WellFormed (record s { dishes = alter (dish_is i) (rewritten_dish request) s.dishes })
updated-WellFormed i request s w = record {
  unique = λ k.
      rw (count-alter (dish_is k) (dish_is i) (rewritten_dish request) s.dishes (λ r. refl))
        (w.unique k);
  below = λ k h.
      rw (count-alter (dish_is k) (dish_is i) (rewritten_dish request) s.dishes (λ r. refl))
        (w.below k h);
  referred =
      All-weaken (λ r. refers r.dish_id s.dishes ≡ true) _ s.planned
        (λ r. refers-alter r.dish_id i (rewritten_dish request) s.dishes (λ x. refl)) w.referred;
}

pub update_dish-WellFormed :
    (i : ℕ) (request : UpdateDishRequest) (s : State)
    → WellFormed s
    → WellFormed (update_dish i request s).1
unfolding update_dish
update_dish-WellFormed i request s w = by_row (find (dish_is i) s.dishes)
  where
    by_row : (o : Option Dish) → WellFormed (updated i request o s).1
    by_row none = w
    by_row (some r) = elim (Bool-cases (fits 250 request.name)) [
      | inl y ↦ rw y (updated-WellFormed i request s w)
      | inr n ↦ rw n w
    ]

pub delete_dish-eq :
    (i : ℕ) (s : State) (o : Option Dish)
    → find (dish_is i) s.dishes ≡ o
    → delete_dish i s ≡ deleted i s o
unfolding delete_dish
delete_dish-eq i s o e = ap (deleted i s) e

pub delete_dish-WellFormed : (i : ℕ) (s : State) → WellFormed s → WellFormed (delete_dish i s).1
delete_dish-WellFormed i s w = elim (Option-cases (find (dish_is i) s.dishes)) [
  | inl missing ↦ rw (delete_dish-eq i s none missing) w
  | inr (d, stored) ↦ rw (delete_dish-eq i s (some d) stored) (record {
    unique = λ k. omega (arith, count-remove (dish_is i) (dish_is k) s.dishes, w.unique k);
    below = λ k h. omega (arith, count-remove (dish_is i) (dish_is k) s.dishes, w.below k h);
    referred =
        All-map (λ r. refers r.dish_id s.dishes ≡ true) _ (detached i) s.planned
          (refers-detached i s.dishes) w.referred;
  })
]

with_planned-WellFormed :
    (request : PlanMealRequest) (name : String) (s : State)
    → WellFormed s
    → WellFormed (with_planned request name s).1
unfolding with_planned
with_planned-WellFormed request name s w = elim (Bool-cases (refers request.dish_id s.dishes)) [
  | inr n ↦ rw n w
  | inl y ↦ rw y (record {
    unique = w.unique;
    below = λ i h. w.below i (omega arith);
    referred = All-append (λ r. refers r.dish_id s.dishes ≡ true) s.planned _ w.referred (y, tt);
  })
]

create_planned-WellFormed :
    (request : PlanMealRequest) (name : String) (s : State)
    → WellFormed s
    → WellFormed (create_planned request name s).1
unfolding create_planned
create_planned-WellFormed request name s w =
    elim (Result-cases (insertable name request.household_id s)) [
      | inr (e, refused) ↦ rw refused w
      | inl (done, taken) ↦ rw taken (with_planned-WellFormed request name s w)
    ]

pub plan_meal-WellFormed :
    (request : PlanMealRequest) (s : State) → WellFormed s → WellFormed (plan_meal request s).1
unfolding plan_meal
plan_meal-WellFormed request s w =
    elim (Result-cases (planned_name request.name request.dish_id s)) [
      | inl (name, e) ↦ rw e (create_planned-WellFormed request name s w)
      | inr (x, e) ↦ rw e w
    ]

pub delete_planned-WellFormed :
    (i : ℕ) (s : State) → WellFormed s → WellFormed (delete_planned i s).1
unfolding delete_planned
delete_planned-WellFormed i s w = record {
  unique = w.unique;
  below = w.below;
  referred = All-remove (λ r. refers r.dish_id s.dishes ≡ true) _ s.planned w.referred;
}
