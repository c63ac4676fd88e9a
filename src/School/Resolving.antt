-- ===== src/School/Resolving.antt =====
-- That the lessons of a day are taken, with the subjects that they are resolved to.
use nidaro.Base.{
  ℕ, ◌≡◌, refl, ap, Bool, true, false, ◌&&◌, ◌||◌, List, [], ◌∷◌, map, arith, ◌==◌, any, ok,
  fits_option, fits, all, Option, none, some,
}
use nidaro.Base.Table.{find}
use nidaro.School.Models.{SubjectInput, Subject, LessonInput, State}
use nidaro.School.Repository.{
  admits_subject, subject_at, with_subject, are_known, fits_subject, fits_names, fits_lesson,
  refers, lessons_taken, lesson_row, positions_repeat, upsert_subject,
}
use nidaro.School.Service.{resolve_items}

-- Two lessons of the input at the same position
abbrev pub clash : List LessonInput → Bool
clash [] = false
clash (x ∷ xs) = any (λ y. y.position == x.position) xs || clash xs

-- The texts of a lesson fit in the columns of the subject's row and of its own.
abbrev pub fits_input : LessonInput → Bool
fits_input x = fits_subject x.subject && (fits_option 200 x.teacher && fits_option 50 x.room)

any-position :
    (m h d p : ℕ) (items : List (LessonInput × ℕ))
    → any (λ y. y.position == p) (map (lesson_row m h d) items)
      ≡ any (λ y. y.position == p) (map (λ x. x.0) items)
unfolding lesson_row
any-position m h d p [] = refl
any-position m h d p (x ∷ xs) = ap (λ b. x.0.position == p || b) (any-position m h d p xs)

positions_repeat-clash :
    (m h d : ℕ) (items : List (LessonInput × ℕ))
    → positions_repeat (map (lesson_row m h d) items) ≡ clash (map (λ x. x.0) items)
unfolding positions_repeat lesson_row
positions_repeat-clash m h d [] = refl
positions_repeat-clash m h d (x ∷ xs) =
    ground (arith, any-position m h d x.0.position xs, positions_repeat-clash m h d xs)

rows-fit :
    (m h d : ℕ) (items : List (LessonInput × ℕ))
    → all fits_input (map (λ x. x.0) items) ≡ true
    → all fits_lesson (map (lesson_row m h d) items) ≡ true
unfolding lesson_row
rows-fit m h d [] f = refl
rows-fit m h d (x ∷ xs) f = ground (arith, rows-fit m h d xs)

rows-refer :
    (m h d : ℕ) (items : List (LessonInput × ℕ)) (s : State)
    → are_known m h s ≡ true
    → all (refers s) (map (lesson_row m h d) items) ≡ true
unfolding lesson_row
rows-refer m h d [] s k = refl
rows-refer m h d (x ∷ xs) s k = ground (arith, rows-refer m h d xs s k)

pub lessons_taken-ok :
    (m h d : ℕ) (items : List (LessonInput × ℕ)) (s : State)
    → clash (map (λ x. x.0) items) ≡ false
    → all fits_input (map (λ x. x.0) items) ≡ true
    → are_known m h s ≡ true
    → lessons_taken m h d items s ≡ ok tt
unfolding positions_repeat lesson_row
lessons_taken-ok m h d items s free fit known =
    rw
      (
        rows-fit m h d items fit,
        positions_repeat-clash m h d items,
        free,
        rows-refer m h d items s known,
      )
      refl

upsert_subject-ok :
    (m h : ℕ) (x : SubjectInput) (s : State)
    → fits_subject x ≡ true
    → are_known m h s ≡ true
    → upsert_subject m h x s ≡ (ok (with_subject m h x s).0, (with_subject m h x s).1)
unfolding upsert_subject
upsert_subject-ok m h x s fit known = rw (taken (find (subject_at m x.code) s.subjects)) refl
  where
    names : (a b : Bool) → (a && b) ≡ true → b ≡ true
    names a b e = ground arith

    taken : (o : Option Subject) → admits_subject m h x s o ≡ ok tt
    taken none = rw (fit, known) refl
    taken (some r) = rw (names (fits 20 x.code) (fits_names x) fit) refl

-- The lessons with the identifiers of their subjects, in a state that differs in the subjects only
abbrev Resolved : ℕ → ℕ → List LessonInput → State → Type 0
Resolved m h lessons s =
    (items : List (LessonInput × ℕ)) × (t : State) × (resolve_items m h lessons s ≡ (ok items, t))
    × (map (λ x. x.0) items ≡ lessons)
    × (t.lessons ≡ s.lessons)
    × (are_known m h t ≡ true)

pub resolve_items-ok :
    (m h : ℕ) (lessons : List LessonInput) (s : State)
    → all fits_input lessons ≡ true
    → are_known m h s ≡ true
    → Resolved m h lessons s
unfolding resolve_items with_subject
resolve_items-ok m h [] s fit known = ([], s, refl, refl, refl, known)
resolve_items-ok m h (x ∷ lessons) s fit known =
    let (items, t, done, same, kept, still) =
      resolve_items-ok m h lessons (with_subject m h x.subject s).1 (ground (arith, fit)) known in
    (
      (x, (with_subject m h x.subject s).0) ∷ items,
      t,
      rw (upsert_subject-ok m h x.subject s (ground (arith, fit)) known, done) refl,
      ap (λ l. x ∷ l) same,
      kept,
      still,
    )
