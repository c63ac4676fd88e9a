-- ===== src/Meals/Service.antt =====
-- meals/service.py: `MealsService.plan_meal`. The other methods of the service are the repository's;
-- a view copies the columns of its row.
use nidaro.Base.{ℕ, String, Option, none, some, Result, ok, err, Exec, lift, gets, ◌>>=◌}
use nidaro.Base.{value_error}
use nidaro.Meals.Kitchen.{PlanMealRequest, Dish, PlannedMeal, State, get_dish, create_planned}

abbrev dish_name : Option Dish → Result String
dish_name none = err value_error
dish_name (some dish) = ok dish.name

-- The name that a planned meal gets
unfoldable pub planned_name : Option String → Option ℕ → State → Result String
planned_name (some name) dish_id s = ok name
planned_name none none s = err value_error
planned_name none (some i) s = dish_name (get_dish i s)

unfoldable pub plan_meal : PlanMealRequest → Exec State PlannedMeal
plan_meal request = do
  s ← gets (λ s. s)
  name ← lift (planned_name request.name request.dish_id s)
  create_planned request name
