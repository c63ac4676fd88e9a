-- ===== src/Calendar/Anchor.antt =====
-- What `first_weekday_on_or_after` of recurrence.py returns.
use native.Mathlib.Decide.{dec_lt}
use nidaro.Base.{
  ℕ, zero, suc, ◌+◌, ◌-◌, ◌%◌, ◌≤◌, ◌<◌, ◌≡◌, refl, ap, sym, ◌∙◌, true, false, List, some, inl, inr,
  arith, mem, Bool-cases,
}
use nidaro.Calendar.Zones.{weekday}
use nidaro.Calendar.Recurrence.{seek_weekday, first_weekday_on_or_after}

-- A date in reach of `day` whose weekday is wanted, and before which no date's is.
pub record IsEarliest (day reach : ℕ) (wanted : List ℕ) (found : ℕ) : Type 0 where
  pub from : day ≤ found
  pub near : found < day + reach
  pub hit : mem (weekday found) wanted ≡ true
  pub least : (d : ℕ) → day ≤ d → d < found → mem (weekday d) wanted ≡ false

IsEarliest-later :
    (day reach : ℕ) (wanted : List ℕ) (found : ℕ)
    → mem (weekday day) wanted ≡ false
    → IsEarliest (day + 1) reach wanted found
    → IsEarliest day (suc reach) wanted found
IsEarliest-later day reach wanted found miss h = record {
  from = omega (arith, h.from);
  near = omega (arith, h.near);
  hit = h.hit;
  least = λ d a b. elim (dec_lt day d) [
    | yes p ↦ h.least d (omega arith) b
    | no p ↦
        let same : day ≡ d = omega arith in sym (ap (λ (n : ℕ). mem (weekday n) wanted) same) ∙ miss
  ];
}

seek_weekday-IsEarliest :
    (fuel day : ℕ) (wanted : List ℕ) (k : ℕ)
    → k < fuel
    → mem (weekday (day + k)) wanted ≡ true
    → (found : ℕ) × (seek_weekday fuel day wanted ≡ some found) × IsEarliest day fuel wanted found
unfolding seek_weekday
seek_weekday-IsEarliest zero day wanted k lt h = elim lt [ ]
seek_weekday-IsEarliest (suc fuel) day wanted zero lt h =
    let same : day + 0 ≡ day = omega arith in
    let hit = ap (λ (n : ℕ). mem (weekday n) wanted) (sym same) ∙ h in
    (
      day,
      rw hit refl,
      record {
        from = omega arith;
        near = omega arith;
        hit = hit;
        least = λ d a b. absurd (omega arith);
      },
    )
seek_weekday-IsEarliest (suc fuel) day wanted (suc k) lt h =
    elim (Bool-cases (mem (weekday day) wanted)) [
      | inl hit ↦ (
        day,
        rw hit refl,
        record {
          from = omega arith;
          near = omega arith;
          hit = hit;
          least = λ d a b. absurd (omega arith);
        },
      )
      | inr miss ↦
          let same : day + suc k ≡ day + 1 + k = omega arith in
          let (found, e, first) =
            seek_weekday-IsEarliest fuel (day + 1) wanted k (omega arith)
              (ap (λ (n : ℕ). mem (weekday n) wanted) (sym same) ∙ h) in
          (found, rw miss e, IsEarliest-later day fuel wanted found miss first)
    ]

-- The days from `day` to the next weekday `w`
distance : ℕ → ℕ → ℕ
distance day w = (w + 7 - (day + 6) % 7) % 7

weekday-distance : (day w : ℕ) → w < 7 → weekday (day + distance day w) ≡ w
unfolding weekday distance
weekday-distance day w h = omega arith

-- For a set that holds some weekday of 0..6, whatever else it holds, the loop ends within seven
-- days at a date on or after `day` that falls on a wanted weekday, and no earlier one does.
pub first_weekday-IsEarliest :
    (day : ℕ) (weekdays : List ℕ) (w : ℕ)
    → w < 7
    → mem w weekdays ≡ true
    → (found : ℕ) × (first_weekday_on_or_after day weekdays ≡ some found)
      × IsEarliest day 7 weekdays found
unfolding first_weekday_on_or_after distance
first_weekday-IsEarliest day weekdays w h m =
    seek_weekday-IsEarliest 7 day weekdays (distance day w) (omega arith)
      (ap (λ (n : ℕ). mem n weekdays) (weekday-distance day w h) ∙ m)
