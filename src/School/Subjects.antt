-- ===== src/School/Subjects.antt =====
-- Subjects under the landing of days, grades and homework.
use nidaro.Base.{
  ℕ, String, ◌≡◌, refl, sym, ap, ◌∙◌, inl, inr, true, false, ◌&&◌, Option, none, some, List, [],
  ◌∷◌, arith, str_eq, eq_iff, ◌==◌, Bool-cases, Result-cases, Exec, lift, ◌>>=◌,
}
use nidaro.Base.Table.{find, find-save_self, find-save_ne, written}
use nidaro.School.Models.{SubjectInput, LessonInput, GradeInput, HomeworkInput, Subject, State}
use nidaro.School.Repository.{
  with_subject, admits_subject, admits_grade, admits_homework, with_grade, with_homework, grade_at,
  homework_at, lessons_taken, subject_at, upsert_subject, replace_lessons, upsert_grade,
  upsert_homework,
}
use nidaro.School.Service.{resolve_items, apply_day, apply_grades, apply_homework}

-- What a landing must not change of a stored subject: the row identifier and the equipment
abbrev pub lasting : Option Subject → Option (ℕ × List String)
lasting o = elim o [ none ↦ none | some r ↦ some (r.id, r.equipment) ]

abbrev pub stored : ℕ → String → State → Option (ℕ × List String)
stored member code s = lasting (find (subject_at member code) s.subjects)

abbrev new_subject : ℕ → ℕ → ℕ → SubjectInput → Subject
new_subject next member household subject = record {
  id = next;
  household_id = household;
  member_id = member;
  code = subject.code;
  name = subject.name;
  teacher = subject.teacher;
  equipment = [];
}

abbrev renamed : SubjectInput → Subject → Subject
renamed subject r = record r { name = subject.name; teacher = subject.teacher }

subject_at-disjoint :
    (m k : ℕ) (c d : String)
    → (m == k && str_eq c d) ≡ false
    → (r : Subject) → subject_at m c r ≡ true
    → subject_at k d r ≡ false
unfolding subject_at
subject_at-disjoint m k c d ne r hit = ground (arith, eq_iff r.code c, eq_iff r.code d, eq_iff c d)

new-subject_at :
    (next m h : ℕ) (x : SubjectInput) → subject_at m x.code (new_subject next m h x) ≡ true
unfolding subject_at
new-subject_at next m h x = ground (arith, eq_iff x.code x.code)

lasting-written :
    (next m h : ℕ) (x : SubjectInput) (o : Option Subject) (was : ℕ × List String)
    → lasting o ≡ some was
    → lasting (some (written (new_subject next m h x) (renamed x) o)) ≡ some was
lasting-written next m h x none was e = cc
lasting-written next m h x (some r) was e = e

with_subject_self :
    (m h : ℕ) (x : SubjectInput) (s : State) (was : ℕ × List String)
    → stored m x.code s ≡ some was
    → stored m x.code (with_subject m h x s).1 ≡ some was
unfolding with_subject
with_subject_self m h x s was e =
    ap lasting (
      find-save_self (subject_at m x.code) (new_subject s.next_id m h x) (renamed x) s.subjects
        (new-subject_at s.next_id m h x) (λ r. unfold subject_at in refl))
    ∙ lasting-written s.next_id m h x (find (subject_at m x.code) s.subjects) was e

stored-key :
    (m k : ℕ) (c d : String) (s : State)
    → (m == k && str_eq c d) ≡ true
    → stored k d s ≡ stored m c s
stored-key m k c d s same =
    sym
      (ap (λ y. stored y c s) (keys m k c d same).0 ∙ ap (λ y. stored k y s) (keys m k c d same).1)
  where
    keys : (m k : ℕ) (c d : String) → (m == k && str_eq c d) ≡ true → (m ≡ k) × (c ≡ d)
    keys m k c d h = ground (arith, eq_iff c d)

with_subject-stored :
    (m h : ℕ) (x : SubjectInput) (s : State) (k : ℕ) (c : String) (was : ℕ × List String)
    → stored k c s ≡ some was
    → stored k c (with_subject m h x s).1 ≡ some was
unfolding with_subject
with_subject-stored m h x s k c was e = elim (Bool-cases (m == k && str_eq x.code c)) [
  | inr other ↦
      ap lasting (
        find-save_ne (subject_at m x.code) (subject_at k c) (new_subject s.next_id m h x)
          (renamed x) s.subjects (subject_at-disjoint m k x.code c other)
          (new-subject_at s.next_id m h x) (λ r. unfold subject_at in refl))
      ∙ e
  | inl same ↦
      let t = (with_subject m h x s).1 in
      stored-key m k x.code c t same
      ∙ with_subject_self m h x s was (sym (stored-key m k x.code c s same) ∙ e)
]

-- An action that keeps the row identifier and the equipment of every stored subject
abbrev pub Keeps : {A : Type 0} → Exec State A → Type 0
Keeps m =
    (s : State) (k : ℕ) (c : String) (was : ℕ × List String)
    → stored k c s ≡ some was
    → stored k c (m s).1 ≡ some was

Keeps-bind :
    {A B : Type 0} (m : Exec State A) (f : A → Exec State B)
    → Keeps m
    → ((a : A) → Keeps (f a))
    → Keeps (m >>= f)
Keeps-bind m f h g s k c was e = elim (Result-cases (m s).0) [
  | inl (a, done) ↦ rw done (g a (m s).1 k c was (h s k c was e))
  | inr (x, failed) ↦ rw failed (h s k c was e)
]

upsert_subject-Keeps : (m h : ℕ) (x : SubjectInput) → Keeps (upsert_subject m h x)
unfolding upsert_subject
upsert_subject-Keeps m h x s k c was e =
    Keeps-bind (lift (admits_subject m h x s (find (subject_at m x.code) s.subjects))) _
      (λ t i d w stays. stays) (λ done t. with_subject-stored m h x t) s k c was e

resolve_items-Keeps : (m h : ℕ) (lessons : List LessonInput) → Keeps (resolve_items m h lessons)
unfolding resolve_items
resolve_items-Keeps m h [] = λ s k c was e. e
resolve_items-Keeps m h (x ∷ lessons) =
    Keeps-bind (upsert_subject m h x.subject) _ (upsert_subject-Keeps m h x.subject) (λ i.
      Keeps-bind (resolve_items m h lessons) _ (resolve_items-Keeps m h lessons)
        (λ rest s k c was e. e))

replace_lessons-Keeps :
    (m h d : ℕ) (items : List (LessonInput × ℕ)) → Keeps (replace_lessons m h d items)
unfolding replace_lessons
replace_lessons-Keeps m h d items s k c was e = elim (Result-cases (lessons_taken m h d items s)) [
  | inl (done, y) ↦ rw y e
  | inr (x, n) ↦ rw n e
]

upsert_grade-Keeps : (m h : ℕ) (x : GradeInput) (i : ℕ) → Keeps (upsert_grade m h x i)
unfolding upsert_grade with_grade
upsert_grade-Keeps m h x i s k c was e =
    elim (Result-cases (admits_grade m h x s (find (grade_at m x.external_id) s.grades))) [
      | inl (done, y) ↦ rw y e
      | inr (x, n) ↦ rw n e
    ]

upsert_homework-Keeps : (m h : ℕ) (x : HomeworkInput) (i : ℕ) → Keeps (upsert_homework m h x i)
unfolding upsert_homework with_homework
upsert_homework-Keeps m h x i s k c was e =
    elim (Result-cases (admits_homework m h x s (find (homework_at m x.external_id) s.homework))) [
      | inl (done, y) ↦ rw y e
      | inr (x, n) ↦ rw n e
    ]

apply_grades-Keeps : (m h : ℕ) (grades : List GradeInput) → Keeps (apply_grades m h grades)
unfolding apply_grades
apply_grades-Keeps m h [] = λ s k c was e. e
apply_grades-Keeps m h (x ∷ grades) =
    Keeps-bind (upsert_subject m h x.subject) _ (upsert_subject-Keeps m h x.subject) (λ i.
      Keeps-bind (upsert_grade m h x i) _ (upsert_grade-Keeps m h x i)
        (λ done. apply_grades-Keeps m h grades))

apply_homework-Keeps : (m h : ℕ) (items : List HomeworkInput) → Keeps (apply_homework m h items)
unfolding apply_homework
apply_homework-Keeps m h [] = λ s k c was e. e
apply_homework-Keeps m h (x ∷ items) =
    Keeps-bind (upsert_subject m h x.subject) _ (upsert_subject-Keeps m h x.subject) (λ i.
      Keeps-bind (upsert_homework m h x i) _ (upsert_homework-Keeps m h x i)
        (λ done. apply_homework-Keeps m h items))

-- Landing a day, grades or homework for any child keeps the row identifier and the equipment of
-- every subject that is stored, whether the landing completes or raises.
pub landing_keeps_subjects :
    (m h d : ℕ) (lessons : List LessonInput) (grades : List GradeInput)
    (homework : List HomeworkInput) (s : State) (k : ℕ) (c : String) (was : ℕ × List String)
    → stored k c s ≡ some was
    → (stored k c (apply_day m h d lessons s).1 ≡ some was)
      × ((stored k c (apply_grades m h grades s).1 ≡ some was)
          × (stored k c (apply_homework m h homework s).1 ≡ some was))
unfolding apply_day
landing_keeps_subjects m h d lessons grades homework s k c was e = (
  Keeps-bind (resolve_items m h lessons) _ (resolve_items-Keeps m h lessons)
      (replace_lessons-Keeps m h d) s k c was e,
  (apply_grades-Keeps m h grades s k c was e, apply_homework-Keeps m h homework s k c was e),
)
