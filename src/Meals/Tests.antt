-- ===== src/Meals/Tests.antt =====
-- The theorems of the meals at small inputs.
use nidaro.Base.{◌≡◌, refl, false, none, some, [], ◌∷◌, map, arith, All, ok, text_length}
use nidaro.Meals.Kitchen.{
  PlannedMeal, UpdateDishRequest, PlanMealRequest, Dish, State, dinner, update_dish, delete_dish,
  holds_dish, refers,
}
use nidaro.Meals.Service.{plan_meal}
use nidaro.Meals.Invariant.{WellFormed}
use nidaro.Meals.Plans.{
  Steps, none_yet, then_step, plans, deletes, Steps-WellFormed, shown, dish_name_copied,
}

abbrev soup : Dish
soup = record { id = 1; household_id = 7; name = "Soup"; notes = none; tags = [] }

abbrev soup_request : PlanMealRequest
soup_request = record { household_id = 7; date = 20; slot = dinner; dish_id = some 1; name = none }

abbrev kitchen : State
kitchen = record {
  households = 7 ∷ [];
  dishes = soup ∷ [];
  planned =
      record { id = 0; household_id = 7; date = 19; slot = dinner; dish_id = some 1; name = "Soup" }
      ∷ [];
  next_id = 2;
}

kitchen-WellFormed : WellFormed kitchen
unfolding refers
kitchen-WellFormed = record {
  unique = λ i. ground arith;
  below = λ i h. ground arith;
  referred = (refl, tt);
}

abbrev an_evening : Steps kitchen (delete_dish 1 (plan_meal soup_request kitchen).1).1
an_evening = then_step (then_step none_yet (plans soup_request kitchen)) (deletes 1 _)

Steps-WellFormed_example : WellFormed (delete_dish 1 (plan_meal soup_request kitchen).1).1
Steps-WellFormed_example = Steps-WellFormed an_evening kitchen-WellFormed

abbrev stew : UpdateDishRequest
stew = record { name = "Stew"; notes = none; tags = [] }

dish_name_copied_example :
    let out = plan_meal soup_request kitchen in
    ((meal : PlannedMeal) × (out.0 ≡ ok meal)
      × (shown meal ≡ (2, (20, "Soup")))
      × (meal.dish_id ≡ some 1))
    × (map shown out.1.planned ≡ (0, (19, "Soup")) ∷ (2, (20, "Soup")) ∷ [])
    × (map shown (update_dish 1 stew out.1).1.planned ≡ (0, (19, "Soup")) ∷ (2, (20, "Soup")) ∷ [])
    × (map shown (delete_dish 1 out.1).1.planned ≡ (0, (19, "Soup")) ∷ (2, (20, "Soup")) ∷ [])
    × All (λ r. holds_dish 1 r.dish_id ≡ false) (delete_dish 1 out.1).1.planned
unfolding text_length
dish_name_copied_example =
    dish_name_copied 1 stew soup_request kitchen soup refl refl refl refl refl
