-- ===== src/Household/Members.antt =====
-- household/models.py, household/repository.py and household/service.py. Households stand in the
-- order of their creation, so the first row that is selected is the oldest.
use nidaro.Base.{ℕ, suc, String, Bool, true, Option, none, some, List, [], ◌∷◌, ◌++◌, ◌==◌}
use nidaro.Base.Table.{find}

pub record FamilyMember : Type 0 where
  pub id : ℕ
  pub household_id : ℕ
  pub name : String
  pub role : String
  pub birth_date : Option ℕ

pub record HouseholdRow : Type 0 where
  pub id : ℕ
  pub name : String
  pub timezone : String

pub record CreateHouseholdRequest : Type 0 where
  pub name : String
  pub timezone : String

pub record State : Type 0 where
  pub households : List HouseholdRow
  pub members : List FamilyMember
  pub next_id : ℕ

abbrev selected : Option ℕ → HouseholdRow → Bool
selected none r = true
selected (some i) r = r.id == i

unfoldable pub get : Option ℕ → State → Option HouseholdRow
get household_id s = find (selected household_id) s.households

unfoldable pub create : CreateHouseholdRequest → State → HouseholdRow × State
create request s =
    let row : HouseholdRow = record {
      id = s.next_id;
      name = request.name;
      timezone = request.timezone;
    } in
    (row, record s { households = s.households ++ row ∷ []; next_id = suc s.next_id })

unfoldable pub add_member : ℕ → String → String → State → FamilyMember × State
add_member household_id name role s =
    let row : FamilyMember = record {
      id = s.next_id;
      household_id = household_id;
      name = name;
      role = role;
      birth_date = none;
    } in
    (row, record s { members = s.members ++ row ∷ []; next_id = suc s.next_id })

abbrev found_or : State → HouseholdRow × State → Option HouseholdRow → HouseholdRow × State
found_or s new none = new
found_or s new (some row) = (row, s)

unfoldable pub ensure_household : CreateHouseholdRequest → State → HouseholdRow × State
ensure_household request s = found_or s (create request s) (get none s)
