-- ===== src/School/Tests.antt =====
-- The theorems of the school component at small inputs.
use nidaro.Base.{
  ℕ, ◌≡◌, refl, true, false, ◌&&◌, none, some, [], ◌∷◌, map, ◌==◌, All, ok, text_length, List,
}
use nidaro.School.Models.{SubjectInput, LessonInput, Subject, Lesson, State}
use nidaro.School.Repository.{subject_at, lesson_row, lessons_on}
use nidaro.School.Service.{resolve_items, apply_day, apply_grades, apply_homework, pack_list}
use nidaro.School.Subjects.{stored, landing_keeps_subjects}
use nidaro.School.Days.{in_order, apply_day_replaces}
use nidaro.School.PackList.{DayPacked, pack_list_exact}

abbrev sport : SubjectInput
sport = record { code = "TV"; name = "Sport"; teacher = none }

abbrev sport_row : Subject
sport_row = record {
  id = 1;
  household_id = 7;
  member_id = 3;
  code = "TV";
  name = "PE";
  teacher = none;
  equipment = "shoes" ∷ [];
}

abbrev gym : LessonInput
gym = record {
  subject = sport;
  start = 480;
  end = 525;
  position = 1;
  teacher = none;
  room = some "gym";
  canceled = false;
  substitution = none;
}

abbrev swimming : LessonInput
swimming = record gym { position = 0; room = some "pool" }

abbrev term : State
term = record {
  households = 7 ∷ [];
  members = 3 ∷ [];
  subjects = sport_row ∷ [];
  lessons = [];
  grades = [];
  homework = [];
  next_id = 2;
}

term-stored : stored 3 "TV" term ≡ some (1, "shoes" ∷ [])
unfolding subject_at
term-stored = refl

landing_keeps_subjects_example :
    (stored 3 "TV" (apply_day 3 7 20 (gym ∷ swimming ∷ []) term).1 ≡ some (1, "shoes" ∷ []))
    × ((stored 3 "TV" (apply_grades 3 7 [] term).1 ≡ some (1, "shoes" ∷ []))
        × (stored 3 "TV" (apply_homework 3 7 [] term).1 ≡ some (1, "shoes" ∷ [])))
landing_keeps_subjects_example =
    landing_keeps_subjects 3 7 20 (gym ∷ swimming ∷ []) [] [] term 3 "TV" (1, "shoes" ∷ [])
      term-stored

apply_day_replaces_example :
    let out = apply_day 3 7 20 (gym ∷ swimming ∷ []) term in
    (items : List (LessonInput × ℕ)) × ((resolve_items 3 7 (gym ∷ swimming ∷ []) term).0 ≡ ok items)
    × (map (λ x. x.0) items ≡ gym ∷ swimming ∷ [])
    × (out.0 ≡ ok (map (lesson_row 3 7 20) items))
    × (lessons_on 3 20 out.1 ≡ in_order (map (lesson_row 3 7 20) items))
    × ((k e : ℕ) → (3 == k && 20 == e) ≡ false → lessons_on k e out.1 ≡ lessons_on k e term)
unfolding text_length
apply_day_replaces_example = apply_day_replaces 3 7 20 (gym ∷ swimming ∷ []) term refl refl refl

abbrev gym_row : Lesson
gym_row = record {
  household_id = 7;
  member_id = 3;
  day = 20;
  subject_id = some 1;
  start = 480;
  end = 525;
  position = 1;
  teacher = none;
  room = some "gym";
  canceled = false;
  substitution = none;
}

-- Two lessons of sport, and one that is canceled
abbrev busy : State
busy = record term {
  lessons =
      gym_row
      ∷ record gym_row { position = 2 }
      ∷ record gym_row { position = 3; subject_id = none; canceled = true }
      ∷ [];
}

pack_list_exact_example :
    (map (λ v. v.day) (pack_list 3 (20 ∷ []) busy) ≡ (20 ∷ []))
    × All (DayPacked 3 busy) (pack_list 3 (20 ∷ []) busy)
pack_list_exact_example = pack_list_exact 3 (20 ∷ []) busy
