-- ===== src/School/Days.antt =====
-- What `SchoolService.apply_day` leaves in the lessons table.
use nidaro.Base.{
  ℕ, ◌≡◌, refl, ap, ◌∙◌, Bool, true, false, not, ◌&&◌, List, [], ◌∷◌, ◌++◌, map, arith, leb, ◌==◌,
  keep, ok, all,
}
use mathlib.Core.List.{append-nil}
use nidaro.Base.Sort.{sort}
use nidaro.School.Models.{LessonInput, Lesson, State}
use nidaro.School.Repository.{are_known, lesson_at, lesson_row, replace_lessons, lessons_on}
use nidaro.School.Service.{resolve_items, apply_day}
use nidaro.School.Resolving.{clash, fits_input, lessons_taken-ok, resolve_items-ok}

abbrev pub in_order : List Lesson → List Lesson
in_order = sort (λ a b. leb a.position b.position)

keep-append : (p : Lesson → Bool) (xs ys : List Lesson) → keep p (xs ++ ys) ≡ keep p xs ++ keep p ys
keep-append p [] ys = refl
keep-append p (x ∷ xs) ys = ground (arith, keep-append p xs ys)

keep-not-keep : (p : Lesson → Bool) (xs : List Lesson) → keep p (keep (λ r. not (p r)) xs) ≡ []
keep-not-keep p [] = refl
keep-not-keep p (x ∷ xs) = ground (arith, keep-not-keep p xs)

keep-not_other :
    (p q : Lesson → Bool) (xs : List Lesson)
    → ((r : Lesson) → p r ≡ true → q r ≡ false)
    → keep q (keep (λ r. not (p r)) xs) ≡ keep q xs
keep-not_other p q [] d = refl
keep-not_other p q (x ∷ xs) d = ground (arith, d x, keep-not_other p q xs d)

keep-rows :
    (m h d : ℕ) (items : List (LessonInput × ℕ))
    → keep (lesson_at m d) (map (lesson_row m h d) items) ≡ map (lesson_row m h d) items
unfolding lesson_at lesson_row
keep-rows m h d [] = refl
keep-rows m h d (x ∷ items) = ground (arith, keep-rows m h d items)

keep-rows_other :
    (m h d k e : ℕ) (items : List (LessonInput × ℕ))
    → (m == k && d == e) ≡ false
    → keep (lesson_at k e) (map (lesson_row m h d) items) ≡ []
unfolding lesson_at lesson_row
keep-rows_other m h d k e [] ne = refl
keep-rows_other m h d k e (x ∷ items) ne = ground (arith, keep-rows_other m h d k e items ne)

lesson_at-disjoint :
    (m d k e : ℕ)
    → (m == k && d == e) ≡ false
    → (r : Lesson) → lesson_at m d r ≡ true
    → lesson_at k e r ≡ false
unfolding lesson_at
lesson_at-disjoint m d k e ne r hit = ground arith

-- Landing a day whose lessons have different positions and texts that fit in their columns, for a
-- known household and child, completes with a row for each lesson, in their order and each with the
-- identifier of its subject; the child's lessons of that day are then these rows, ordered by
-- position, and every other child's or day's lessons are as before.
pub apply_day_replaces :
    (m h d : ℕ) (lessons : List LessonInput) (s : State)
    → clash lessons ≡ false
    → all fits_input lessons ≡ true
    → are_known m h s ≡ true
    → let out = apply_day m h d lessons s in
      (items : List (LessonInput × ℕ)) × ((resolve_items m h lessons s).0 ≡ ok items)
      × (map (λ x. x.0) items ≡ lessons)
      × (out.0 ≡ ok (map (lesson_row m h d) items))
      × (lessons_on m d out.1 ≡ in_order (map (lesson_row m h d) items))
      × ((k e : ℕ) → (m == k && d == e) ≡ false → lessons_on k e out.1 ≡ lessons_on k e s)
unfolding apply_day replace_lessons lessons_on
apply_day_replaces m h d lessons s free fit known =
    let (items, t, done, same, kept, still) = resolve_items-ok m h lessons s fit known in
    let taken =
      lessons_taken-ok m h d items t (ap clash same ∙ free) (ap (all fits_input) same ∙ fit)
        still in
    rw (done, taken)
      (
        items,
        refl,
        same,
        refl,
        ap in_order (
            keep-append (lesson_at m d) (keep (λ r. not (lesson_at m d r)) t.lessons)
              (map (lesson_row m h d) items)
            ∙ ap (λ u. u ++ keep (lesson_at m d) (map (lesson_row m h d) items))
                (keep-not-keep (lesson_at m d) t.lessons)
            ∙ keep-rows m h d items),
        λ k e ne. ap in_order (
            keep-append (lesson_at k e) (keep (λ r. not (lesson_at m d r)) t.lessons)
              (map (lesson_row m h d) items)
            ∙ ap (λ u. keep (lesson_at k e) (keep (λ r. not (lesson_at m d r)) t.lessons) ++ u)
                (keep-rows_other m h d k e items ne)
            ∙ append-nil _
            ∙ keep-not_other (lesson_at m d) (lesson_at k e) t.lessons
                (lesson_at-disjoint m d k e ne)
            ∙ ap (keep (lesson_at k e)) kept),
      )
