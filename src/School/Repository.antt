-- ===== src/School/Repository.antt =====
-- school/repository.py: `SchoolRepository`, each method one transaction.
use nidaro.Base.{
  ℕ, suc, String, Bool, false, not, ◌&&◌, ◌||◌, Option, none, some, List, [], ◌∷◌, ◌++◌, map,
  str_eq, leb, ◌==◌, if◌then◌else◌, is_some, keep, any, ok, err, Exec,
}
use nidaro.Base.{
  data_error, integrity_error, fits, fits_option, mem, all, lift, modify, ◌>>=◌, Result, true,
}
use nidaro.Base.Table.{find, save, alter}
use nidaro.Base.Sort.{sort}
use nidaro.School.Models.{
  SubjectInput, LessonInput, GradeInput, HomeworkInput, Subject, Lesson, Grade, Homework, State,
}

-- The WHERE clauses
unfoldable pub subject_at : ℕ → String → Subject → Bool
subject_at member code r = r.member_id == member && str_eq r.code code

unfoldable pub lesson_at : ℕ → ℕ → Lesson → Bool
lesson_at member day r = r.member_id == member && r.day == day

unfoldable pub grade_at : ℕ → String → Grade → Bool
grade_at member external r = r.member_id == member && str_eq r.external_id external

unfoldable pub homework_at : ℕ → String → Homework → Bool
homework_at member external r = r.member_id == member && str_eq r.external_id external

abbrev id_of : Option Subject → ℕ → ℕ
id_of none next = next
id_of (some r) next = r.id

-- The foreign keys to households and family members
abbrev pub are_known : ℕ → ℕ → State → Bool
are_known member household s = mem household s.households && mem member s.members

-- A flush of rows whose texts fit their columns, or not, and whose keys hold, or not
abbrev pub flushed : Bool → Bool → Result (Unit {0})
flushed fitting known =
    if not fitting then err data_error else if known then ok tt else err integrity_error

-- The `VARCHAR`s of a subject that an update sets, and those of a new row
abbrev pub fits_names : SubjectInput → Bool
fits_names subject = fits 250 subject.name && fits_option 200 subject.teacher

abbrev pub fits_subject : SubjectInput → Bool
fits_subject subject = fits 20 subject.code && fits_names subject

abbrev pub admits_subject : ℕ → ℕ → SubjectInput → State → Option Subject → Result (Unit {0})
admits_subject member household subject s none =
    flushed (fits_subject subject) (are_known member household s)
admits_subject member household subject s (some r) = flushed (fits_names subject) true

-- The row's identifier is what the callers use of the row that comes back.
unfoldable pub with_subject : ℕ → ℕ → SubjectInput → State → ℕ × State
with_subject member household subject s =
    let before = find (subject_at member subject.code) s.subjects in
    (
      id_of before s.next_id,
      record s {
        subjects =
            save (subject_at member subject.code)
              (record {
                id = s.next_id;
                household_id = household;
                member_id = member;
                code = subject.code;
                name = subject.name;
                teacher = subject.teacher;
                equipment = [];
              })
              (λ r. record r { name = subject.name; teacher = subject.teacher }) s.subjects;
        next_id = if is_some before then s.next_id else suc s.next_id;
      },
    )

unfoldable pub upsert_subject : ℕ → ℕ → SubjectInput → Exec State ℕ
upsert_subject member household subject s =
    (lift (
          admits_subject member household subject s
            (find (subject_at member subject.code) s.subjects))
        >>= λ done t. (
          ok (with_subject member household subject t).0,
          (with_subject member household subject t).1,
        ))
      s

unfoldable pub lesson_row : ℕ → ℕ → ℕ → LessonInput × ℕ → Lesson
lesson_row member household day (lesson, subject_id) = record {
  household_id = household;
  member_id = member;
  day = day;
  subject_id = some subject_id;
  start = lesson.start;
  end = lesson.end;
  position = lesson.position;
  teacher = lesson.teacher;
  room = lesson.room;
  canceled = lesson.canceled;
  substitution = lesson.substitution;
}

-- The unique key (member, day, position), for new rows of one member and day
unfoldable pub positions_repeat : List Lesson → Bool
positions_repeat [] = false
positions_repeat (r ∷ rows) = any (λ x. x.position == r.position) rows || positions_repeat rows

abbrev pub fits_lesson : Lesson → Bool
fits_lesson r = fits_option 200 r.teacher && fits_option 50 r.room

abbrev pub refers : State → Lesson → Bool
refers s r = are_known r.member_id r.household_id s

abbrev pub lessons_taken : ℕ → ℕ → ℕ → List (LessonInput × ℕ) → State → Result (Unit {0})
unfolding positions_repeat lesson_row
lessons_taken member household day items s =
    let rows = map (lesson_row member household day) items in
    flushed (all fits_lesson rows) (not (positions_repeat rows) && all (refers s) rows)

-- What the INSERTs refuse is rolled back with the deletes. Each new row's subject is one that the
-- caller has just stored.
unfoldable pub replace_lessons : ℕ → ℕ → ℕ → List (LessonInput × ℕ) → Exec State (List Lesson)
replace_lessons member household day items s =
    let rows = map (lesson_row member household day) items in
    (lift (lessons_taken member household day items s) >>= λ done t.
    (ok rows, record t { lessons = keep (λ r. not (lesson_at member day r)) t.lessons ++ rows }))
      s

unfoldable pub update_equipment : ℕ → ℕ → List String → State → Option Subject × State
update_equipment member subject_id equipment s =
    let at = λ (r : Subject). r.id == subject_id && r.member_id == member in
    (
      elim (find at s.subjects) [
        | none ↦ none
        | some r ↦ some (record r { equipment = equipment })
      ],
      record s { subjects = alter at (λ r. record r { equipment = equipment }) s.subjects },
    )

unfoldable pub lessons_on : ℕ → ℕ → State → List Lesson
lessons_on member day s =
    sort (λ a b. leb a.position b.position) (keep (lesson_at member day) s.lessons)

-- `order` is the database's ORDER BY, here and below.
unfoldable pub subjects_for_member : (Subject → Subject → Bool) → ℕ → State → List Subject
subjects_for_member order member s = sort order (keep (λ r. r.member_id == member) s.subjects)

abbrev pub fits_mark : GradeInput → Bool
fits_mark grade = fits 20 grade.value && fits_option 200 grade.teacher

abbrev pub admits_grade : ℕ → ℕ → GradeInput → State → Option Grade → Result (Unit {0})
admits_grade member household grade s none =
    flushed (fits 250 grade.external_id && fits_mark grade) (are_known member household s)
admits_grade member household grade s (some r) = flushed (fits_mark grade) true

unfoldable pub with_grade : ℕ → ℕ → GradeInput → ℕ → State → State
with_grade member household grade subject_id s = record s {
  grades =
      save (grade_at member grade.external_id)
        (record {
          household_id = household;
          member_id = member;
          subject_id = some subject_id;
          external_id = grade.external_id;
          value = grade.value;
          weight = grade.weight;
          graded_on = grade.graded_on;
          teacher = grade.teacher;
          confirmed = grade.confirmed;
        })
        (λ r. record r {
          subject_id = some subject_id;
          value = grade.value;
          weight = grade.weight;
          graded_on = grade.graded_on;
          teacher = grade.teacher;
          confirmed = grade.confirmed;
        })
        s.grades;
}

-- The callers use nothing of the row that comes back, here and for homework.
unfoldable pub upsert_grade : ℕ → ℕ → GradeInput → ℕ → Exec State (Unit {0})
upsert_grade member household grade subject_id s =
    (lift (
          admits_grade member household grade s (find (grade_at member grade.external_id) s.grades))
        >>= λ done. modify (with_grade member household grade subject_id))
      s

unfoldable pub grades_for_member : (Grade → Grade → Bool) → ℕ → State → List Grade
grades_for_member order member s = sort order (keep (λ r. r.member_id == member) s.grades)

abbrev pub admits_homework : ℕ → ℕ → HomeworkInput → State → Option Homework → Result (Unit {0})
admits_homework member household homework s none =
    flushed (fits 250 homework.external_id) (are_known member household s)
admits_homework member household homework s (some r) = ok tt

unfoldable pub with_homework : ℕ → ℕ → HomeworkInput → ℕ → State → State
with_homework member household homework subject_id s = record s {
  homework =
      save (homework_at member homework.external_id)
        (record {
          household_id = household;
          member_id = member;
          subject_id = some subject_id;
          external_id = homework.external_id;
          text = homework.text;
          due_on = homework.due_on;
          attachments = homework.attachments;
        })
        (λ r. record r {
          subject_id = some subject_id;
          text = homework.text;
          due_on = homework.due_on;
          attachments = homework.attachments;
        })
        s.homework;
}

unfoldable pub upsert_homework : ℕ → ℕ → HomeworkInput → ℕ → Exec State (Unit {0})
upsert_homework member household homework subject_id s =
    (lift (
          admits_homework member household homework s
            (find (homework_at member homework.external_id) s.homework))
        >>= λ done. modify (with_homework member household homework subject_id))
      s

unfoldable pub homework_for_member : (Homework → Homework → Bool) → ℕ → State → List Homework
homework_for_member order member s = sort order (keep (λ r. r.member_id == member) s.homework)
