-- ===== src/Household/Facts.antt =====
-- memory/models.py, memory/schemas.py, memory/repository.py and memory/service.py.
use nidaro.Base.{ℕ, suc, String, Bool, ◌&&◌, ◌||◌, Option, List, [], ◌∷◌, ◌++◌, ◌==◌, keep, take}
use nidaro.Base.Sort.{sort}

pub record RememberFactRequest : Type 0 where
  pub household_id : ℕ
  pub subject_type : String
  pub fact_type : String
  pub content : String
  pub subject_id : Option ℕ

pub record Fact : Type 0 where
  pub id : ℕ
  pub household_id : ℕ
  pub subject_type : String
  pub subject_id : Option ℕ
  pub fact_type : String
  pub content : String

pub record State : Type 0 where
  pub facts : List Fact
  pub next_id : ℕ

unfoldable pub create : RememberFactRequest → State → Fact × State
create request s =
    let row : Fact = record {
      id = s.next_id;
      household_id = request.household_id;
      subject_type = request.subject_type;
      subject_id = request.subject_id;
      fact_type = request.fact_type;
      content = request.content;
    } in
    (row, record s { facts = s.facts ++ row ∷ []; next_id = suc s.next_id })

-- `ilike text query` is the database's `text ILIKE '%query%'`, and `newest` its ORDER BY.
unfoldable pub search :
    (String → String → Bool) → (Fact → Fact → Bool) → ℕ → String → ℕ → State → List Fact
search ilike newest household query limit s = take limit (
    sort newest (
      keep (λ r. r.household_id == household && (ilike r.content query || ilike r.fact_type query))
        s.facts))

unfoldable pub recent : (Fact → Fact → Bool) → ℕ → ℕ → State → List Fact
recent newest household limit s =
    take limit (sort newest (keep (λ r. r.household_id == household) s.facts))
