-- ===== src/Household/Commitments.antt =====
-- commitments/models.py, commitments/schemas.py, commitments/repository.py and
-- commitments/service.py. The status is a text; nothing in the source changes it.
use nidaro.Base.{ℕ, suc, String, Bool, ◌&&◌, Option, List, [], ◌∷◌, ◌++◌, str_eq, ◌==◌, keep}
use nidaro.Base.Sort.{sort}

pub record RecordCommitmentRequest : Type 0 where
  pub household_id : ℕ
  pub description : String
  pub from_member_id : Option ℕ
  pub to_person_name : Option String
  pub due_at : Option ℕ

pub record Commitment : Type 0 where
  pub id : ℕ
  pub household_id : ℕ
  pub description : String
  pub from_member_id : Option ℕ
  pub to_person_name : Option String
  pub due_at : Option ℕ
  pub status : String

pub record State : Type 0 where
  pub commitments : List Commitment
  pub next_id : ℕ

unfoldable pub create : RecordCommitmentRequest → State → Commitment × State
create request s =
    let row : Commitment = record {
      id = s.next_id;
      household_id = request.household_id;
      description = request.description;
      from_member_id = request.from_member_id;
      to_person_name = request.to_person_name;
      due_at = request.due_at;
      status = "open";
    } in
    (row, record s { commitments = s.commitments ++ row ∷ []; next_id = suc s.next_id })

-- `order` is the database's ORDER BY.
unfoldable pub open_commitments : (Commitment → Commitment → Bool) → ℕ → State → List Commitment
open_commitments order household s =
    sort order (keep (λ r. r.household_id == household && str_eq r.status "open") s.commitments)
