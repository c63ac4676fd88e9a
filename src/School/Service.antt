-- ===== src/School/Service.antt =====
-- school/service.py: `SchoolService`. The view models copy the columns of a row, so a view is its
-- row, and a joined subject is looked up where it is used.
use nidaro.Base.{
  ℕ, Bool, true, false, ◌||◌, Option, none, some, List, [], ◌∷◌, ◌==◌, if◌then◌else◌, any, Exec,
  pure, ◌>>=◌, ◌>>◌,
}
use nidaro.Base.Table.{find}
use nidaro.School.Models.{
  LessonInput, GradeInput, HomeworkInput, Subject, Lesson, PackItemView, PackDayView, State,
}
use nidaro.School.Repository.{
  upsert_subject, replace_lessons, lessons_on, upsert_grade, upsert_homework,
}

-- The loop that resolves the subjects of a day's lessons
unfoldable pub resolve_items : ℕ → ℕ → List LessonInput → Exec State (List (LessonInput × ℕ))
resolve_items member household [] = pure []
resolve_items member household (lesson ∷ lessons) = do
  subject_id ← upsert_subject member household lesson.subject
  rest ← resolve_items member household lessons
  pure ((lesson, subject_id) ∷ rest)

unfoldable pub apply_day : ℕ → ℕ → ℕ → List LessonInput → Exec State (List Lesson)
apply_day member household day lessons = do
  items ← resolve_items member household lessons
  replace_lessons member household day items

unfoldable pub apply_grades : ℕ → ℕ → List GradeInput → Exec State (Unit {0})
apply_grades member household [] = pure tt
apply_grades member household (grade ∷ grades) = do
  subject_id ← upsert_subject member household grade.subject
  upsert_grade member household grade subject_id
  apply_grades member household grades

unfoldable pub apply_homework : ℕ → ℕ → List HomeworkInput → Exec State (Unit {0})
apply_homework member household [] = pure tt
apply_homework member household (item ∷ homework) = do
  subject_id ← upsert_subject member household item.subject
  upsert_homework member household item subject_id
  apply_homework member household homework

-- `lesson.subject`, joined on `subject_id`
unfoldable pub subject_of : List Subject → Option ℕ → Option Subject
subject_of subjects none = none
subject_of subjects (some i) = find (λ r. r.id == i) subjects

abbrev pub pack_item : Option Subject → PackItemView
pack_item none = record { subject_code = "?"; subject_name = "Subject"; items = [] }
pack_item (some r) = record { subject_code = r.code; subject_name = r.name; items = r.equipment }

abbrev pub same_id : Option ℕ → Option ℕ → Bool
same_id none none = true
same_id none (some j) = false
same_id (some i) none = false
same_id (some i) (some j) = i == j

-- The inner loop of `pack_list`, with the subjects seen so far
unfoldable pub pack_entries : List Subject → List (Option ℕ) → List Lesson → List PackItemView
unfolding subject_of
pack_entries subjects seen [] = []
pack_entries subjects seen (lesson ∷ lessons) =
    let skip = lesson.canceled || any (same_id lesson.subject_id) seen in
    let rest = pack_entries subjects (if skip then seen else lesson.subject_id ∷ seen) lessons in
    if skip then rest else pack_item (subject_of subjects lesson.subject_id) ∷ rest

unfoldable pub pack_list : ℕ → List ℕ → State → List PackDayView
pack_list member [] s = []
pack_list member (day ∷ days) s =
    record { day = day; entries = pack_entries s.subjects [] (lessons_on member day s) }
    ∷ pack_list member days s
