-- ===== src/School/Models.antt =====
-- school/models.py and school/schemas.py. Identifiers, dates and times of day are numbers. Of the
-- four tables only the subjects are referred to by their row identifier; the others are known by
-- their columns. Time stamps are left out.
use nidaro.Base.{ℕ, String, Bool, List, Option}

pub record SubjectInput : Type 0 where
  pub code : String
  pub name : String
  pub teacher : Option String

pub record LessonInput : Type 0 where
  pub subject : SubjectInput
  pub start : ℕ
  pub end : ℕ
  pub position : ℕ
  pub teacher : Option String
  pub room : Option String
  pub canceled : Bool
  pub substitution : Option String

pub record GradeInput : Type 0 where
  pub external_id : String
  pub subject : SubjectInput
  pub value : String
  pub weight : ℕ
  pub graded_on : ℕ
  pub teacher : Option String
  pub confirmed : Bool

pub record HomeworkInput : Type 0 where
  pub external_id : String
  pub subject : SubjectInput
  pub text : String
  pub due_on : Option ℕ
  pub attachments : List String

pub record Subject : Type 0 where
  pub id : ℕ
  pub household_id : ℕ
  pub member_id : ℕ
  pub code : String
  pub name : String
  pub teacher : Option String
  pub equipment : List String

pub record Lesson : Type 0 where
  pub household_id : ℕ
  pub member_id : ℕ
  pub day : ℕ
  pub subject_id : Option ℕ
  pub start : ℕ
  pub end : ℕ
  pub position : ℕ
  pub teacher : Option String
  pub room : Option String
  pub canceled : Bool
  pub substitution : Option String

pub record Grade : Type 0 where
  pub household_id : ℕ
  pub member_id : ℕ
  pub subject_id : Option ℕ
  pub external_id : String
  pub value : String
  pub weight : ℕ
  pub graded_on : ℕ
  pub teacher : Option String
  pub confirmed : Bool

pub record Homework : Type 0 where
  pub household_id : ℕ
  pub member_id : ℕ
  pub subject_id : Option ℕ
  pub external_id : String
  pub text : String
  pub due_on : Option ℕ
  pub attachments : List String

pub record PackItemView : Type 0 where
  pub subject_code : String
  pub subject_name : String
  pub items : List String

pub record PackDayView : Type 0 where
  pub day : ℕ
  pub entries : List PackItemView

-- The tables, with the rows that the foreign keys refer to; `next_id` is the identifier that the next new subject gets.
pub record State : Type 0 where
  pub households : List ℕ
  pub members : List ℕ
  pub subjects : List Subject
  pub lessons : List Lesson
  pub grades : List Grade
  pub homework : List Homework
  pub next_id : ℕ
