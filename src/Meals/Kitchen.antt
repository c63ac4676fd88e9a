-- ===== src/Meals/Kitchen.antt =====
-- meals/models.py, meals/schemas.py and meals/repository.py. Identifiers and dates are numbers; the
-- slots, a Literal of four texts in the source, are a data type.
use nidaro.Base.{
  ℕ, suc, String, Bool, true, false, not, ◌&&◌, Option, none, some, List, [], ◌∷◌, ◌++◌, map, leb,
  ◌==◌, if◌then◌else◌, is_some, keep, any, Result, ok, err, Exec,
}
use nidaro.Base.{value_error, is_truthy, data_error, integrity_error, fits, mem, lift, ◌>>=◌}
use nidaro.Base.Table.{find, remove, alter}
use nidaro.Base.Sort.{sort}

pub data Slot : Type 0 where
  breakfast lunch dinner snacks : Slot

pub record CreateDishRequest : Type 0 where
  pub household_id : ℕ
  pub name : String
  pub notes : Option String
  pub tags : List String

pub record UpdateDishRequest : Type 0 where
  pub name : String
  pub notes : Option String
  pub tags : List String

pub record PlanMealRequest : Type 0 where
  pub household_id : ℕ
  pub date : ℕ
  pub slot : Slot
  pub dish_id : Option ℕ
  pub name : Option String

pub record Dish : Type 0 where
  pub id : ℕ
  pub household_id : ℕ
  pub name : String
  pub notes : Option String
  pub tags : List String

pub record PlannedMeal : Type 0 where
  pub id : ℕ
  pub household_id : ℕ
  pub date : ℕ
  pub slot : Slot
  pub dish_id : Option ℕ
  pub name : String

-- `households` are the rows that the foreign keys refer to.
pub record State : Type 0 where
  pub households : List ℕ
  pub dishes : List Dish
  pub planned : List PlannedMeal
  pub next_id : ℕ

abbrev has_name : Option String → Bool
has_name none = false
has_name (some name) = is_truthy name

-- The validator of PlanMealRequest; an identifier is always true.
unfoldable pub needs_name_or_dish : PlanMealRequest → Result PlanMealRequest
needs_name_or_dish request =
    if not (has_name request.name) && not (is_some request.dish_id)
    then err value_error
    else ok request

abbrev pub dish_is : ℕ → Dish → Bool
dish_is i r = r.id == i

-- `order` is the database's ORDER BY, here and below.
unfoldable pub dishes_of : (Dish → Dish → Bool) → ℕ → State → List Dish
dishes_of order household s = sort order (keep (λ r. r.household_id == household) s.dishes)

-- The `VARCHAR(250)` of the name, and the foreign key to households
abbrev pub insertable : String → ℕ → State → Result (Unit {0})
insertable name household s =
    if not (fits 250 name)
    then err data_error
    else if mem household s.households
    then ok tt
    else err integrity_error

abbrev pub new_dish : ℕ → CreateDishRequest → Dish
new_dish next request = record {
  id = next;
  household_id = request.household_id;
  name = request.name;
  notes = request.notes;
  tags = request.tags;
}

abbrev pub with_dish : CreateDishRequest → Exec State Dish
with_dish request s = (
  ok (new_dish s.next_id request),
  record s { dishes = s.dishes ++ new_dish s.next_id request ∷ []; next_id = suc s.next_id },
)

unfoldable pub create_dish : CreateDishRequest → Exec State Dish
create_dish request s =
    (lift (insertable request.name request.household_id s) >>= λ done. with_dish request) s

unfoldable pub get_dish : ℕ → State → Option Dish
get_dish dish_id s = find (dish_is dish_id) s.dishes

unfoldable pub planned_between :
    (PlannedMeal → PlannedMeal → Bool) → ℕ → ℕ → ℕ → State → List PlannedMeal
planned_between order household start end s =
    sort order
      (keep (λ r. r.household_id == household && (leb start r.date && leb r.date end)) s.planned)

-- The foreign key to dishes: a reference to no row raises IntegrityError.
unfoldable pub refers : Option ℕ → List Dish → Bool
refers none dishes = true
refers (some i) dishes = any (dish_is i) dishes

-- The INSERT, with its foreign key to dishes
unfoldable pub with_planned : PlanMealRequest → String → Exec State PlannedMeal
with_planned request name s =
    let meal : PlannedMeal = record {
      id = s.next_id;
      household_id = request.household_id;
      date = request.date;
      slot = request.slot;
      dish_id = request.dish_id;
      name = name;
    } in
    if refers request.dish_id s.dishes
    then (ok meal, record s { planned = s.planned ++ meal ∷ []; next_id = suc s.next_id })
    else (err integrity_error, s)

unfoldable pub create_planned : PlanMealRequest → String → Exec State PlannedMeal
create_planned request name s =
    (lift (insertable name request.household_id s) >>= λ done. with_planned request name) s

abbrev pub rewritten_dish : UpdateDishRequest → Dish → Dish
rewritten_dish request r = record r {
  name = request.name;
  notes = request.notes;
  tags = request.tags;
}

abbrev pub updated : ℕ → UpdateDishRequest → Option Dish → Exec State (Option Dish)
updated dish_id request none s = (ok none, s)
updated dish_id request (some r) s =
    if fits 250 request.name
    then (
      ok (some (rewritten_dish request r)),
      record s { dishes = alter (dish_is dish_id) (rewritten_dish request) s.dishes },
    )
    else (err data_error, s)

unfoldable pub update_dish : ℕ → UpdateDishRequest → Exec State (Option Dish)
update_dish dish_id request s = updated dish_id request (find (dish_is dish_id) s.dishes) s

abbrev pub holds_dish : ℕ → Option ℕ → Bool
holds_dish i none = false
holds_dish i (some j) = j == i

-- `ON DELETE SET NULL`
abbrev pub detached : ℕ → PlannedMeal → PlannedMeal
detached i r = if holds_dish i r.dish_id then record r { dish_id = none } else r

abbrev pub deleted : ℕ → State → Option Dish → Bool × State
deleted dish_id s none = (false, s)
deleted dish_id s (some r) = (
  true,
  record s {
    dishes = remove (dish_is dish_id) s.dishes;
    planned = map (detached dish_id) s.planned;
  },
)

unfoldable pub delete_dish : ℕ → State → Bool × State
delete_dish dish_id s = deleted dish_id s (find (dish_is dish_id) s.dishes)

unfoldable pub delete_planned : ℕ → State → Bool × State
delete_planned meal_id s = (
  is_some (find (λ r. r.id == meal_id) s.planned),
  record s { planned = remove (λ r. r.id == meal_id) s.planned },
)
