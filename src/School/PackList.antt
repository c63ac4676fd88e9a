-- ===== src/School/PackList.antt =====
-- `SchoolService.pack_list`: what is packed for a day.
use nidaro.Base.{
  ℕ, ◌≡◌, refl, ap, ◌∙◌, inl, inr, Bool, true, false, not, ◌&&◌, ◌||◌, Option, none, some, List, [],
  ◌∷◌, map, arith, if◌then◌else◌, Bool-cases, any, All,
}
use nidaro.School.Models.{Subject, Lesson, PackItemView, PackDayView, State}
use nidaro.School.Service.{subject_of, pack_item, same_id, pack_entries, pack_list}
use nidaro.School.Repository.{lessons_on}
use nidaro.Base.{All}

-- The subjects to pack for, in the order of the lessons: a description without the views
abbrev pub packed : List (Option ℕ) → List Lesson → List (Option ℕ)
packed seen [] = []
packed seen (lesson ∷ lessons) =
    let skip = lesson.canceled || any (same_id lesson.subject_id) seen in
    let rest = packed (if skip then seen else lesson.subject_id ∷ seen) lessons in
    if skip then rest else lesson.subject_id ∷ rest

-- No subject twice
abbrev pub NoRepeat : List (Option ℕ) → Type 0
NoRepeat [] = Unit
NoRepeat (i ∷ ids) = (any (same_id i) ids ≡ false) × NoRepeat ids

-- Whether a lesson is held and is in this subject
abbrev pub held : Option ℕ → Lesson → Bool
held i lesson = not lesson.canceled && same_id i lesson.subject_id

abbrev pub item_of : List Subject → Option ℕ → PackItemView
item_of subjects i = pack_item (subject_of subjects i)

pack_entries-packed :
    (subjects : List Subject) (seen : List (Option ℕ)) (lessons : List Lesson)
    → pack_entries subjects seen lessons ≡ map (item_of subjects) (packed seen lessons)
unfolding pack_entries
pack_entries-packed subjects seen [] = refl
pack_entries-packed subjects seen (r ∷ lessons) =
    elim (Bool-cases (r.canceled || any (same_id r.subject_id) seen)) [
      | inl skip ↦ rw skip (pack_entries-packed subjects seen lessons)
      | inr new ↦ rw new (
          ap (λ t. item_of subjects r.subject_id ∷ t)
            (pack_entries-packed subjects (r.subject_id ∷ seen) lessons))
    ]

same_id_refl : (i : Option ℕ) → same_id i i ≡ true
same_id_refl none = refl
same_id_refl (some i) = ground arith

same_id-eq : (i j : Option ℕ) → same_id i j ≡ true → i ≡ j
same_id-eq none none h = refl
same_id-eq none (some j) h = cc
same_id-eq (some i) none h = cc
same_id-eq (some i) (some j) h = ap some (ground arith)

same_id-sym : (i j : Option ℕ) → same_id i j ≡ same_id j i
same_id-sym none none = refl
same_id-sym none (some j) = refl
same_id-sym (some i) none = refl
same_id-sym (some i) (some j) = ground arith

-- A subject is packed where it has not been seen and some lesson in it is held.
any-packed :
    (i : Option ℕ) (seen : List (Option ℕ)) (lessons : List Lesson)
    → any (same_id i) (packed seen lessons) ≡ (not (any (same_id i) seen) && any (held i) lessons)
any-packed i seen [] = ground arith
any-packed i seen (r ∷ lessons) = elim (Bool-cases (same_id i r.subject_id)) [
  | inl same ↦ ground (
    arith,
    same,
    any-packed i seen lessons,
    any-packed i (r.subject_id ∷ seen) lessons,
    ap (λ j. any (same_id j) seen) (same_id-eq i r.subject_id same),
  )
  | inr other ↦
      ground (arith, other, any-packed i seen lessons, any-packed i (r.subject_id ∷ seen) lessons)
]

NoRepeat-packed : (seen : List (Option ℕ)) (lessons : List Lesson) → NoRepeat (packed seen lessons)
NoRepeat-packed seen [] = tt
NoRepeat-packed seen (r ∷ lessons) =
    elim (Bool-cases (r.canceled || any (same_id r.subject_id) seen)) [
      | inl skip ↦ rw skip (NoRepeat-packed seen lessons)
      | inr new ↦ rw new (
        any-packed r.subject_id (r.subject_id ∷ seen) lessons ∙ rw (same_id_refl r.subject_id) refl,
        NoRepeat-packed (r.subject_id ∷ seen) lessons,
      )
    ]

-- What one day's list shows of the lessons of that day
abbrev pub DayPacked : ℕ → State → PackDayView → Type 0
DayPacked member s v =
    (ids : List (Option ℕ)) × ((v.entries ≡ map (item_of s.subjects) ids)
      × (NoRepeat ids
          × ((i : Option ℕ) → any (same_id i) ids ≡ any (held i) (lessons_on member v.day s))))

-- The packing list has the days that were asked for, in that order, and each day has exactly one
-- entry, with the subject's equipment, for every subject with a lesson that day that is not
-- canceled, and no entry for any other subject.
pub pack_list_exact :
    (member : ℕ) (days : List ℕ) (s : State)
    → (map (λ v. v.day) (pack_list member days s) ≡ days)
      × All (DayPacked member s) (pack_list member days s)
unfolding pack_list
pack_list_exact member [] s = (refl, tt)
pack_list_exact member (day ∷ days) s =
    let rest = pack_list_exact member days s in
    let lessons = lessons_on member day s in
    (
      ap (λ t. day ∷ t) rest.0,
      (
        (
          packed [] lessons,
          (
            pack_entries-packed s.subjects [] lessons,
            (NoRepeat-packed [] lessons, λ i. any-packed i [] lessons),
          ),
        ),
        rest.1,
      ),
    )
