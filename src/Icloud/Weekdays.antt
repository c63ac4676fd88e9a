-- ===== src/Icloud/Weekdays.antt =====
-- The weekdays of a decoded series are weekdays, so that its payload validates.
use nidaro.Base.{
  ℕ, String, ◌≡◌, refl, ◌∙◌, inl, inr, Bool, true, Option, none, some, List, [], ◌∷◌, map, arith,
  ltb, leb, Bool-cases, all, ok,
}
use nidaro.Base.{lt→ltb}
use nidaro.Base.Assoc.{lookup}
use nidaro.Base.Counts.{all-sort}
use nidaro.Base.Sort.{sort}
use nidaro.Calendar.Models.{fields, EventPayload, check_weekdays, model_validate}
use nidaro.Calendar.Zones.{Moment, Zones, weekday}
use nidaro.Icloud.Ics.{IcsEvent, Texts}
use nidaro.Icloud.Events.{
  event_fields, codes_in, days_of_rule, or_anchor, or_empty_list, record_payload, series_weekdays,
  text_in, weekday_code, with_code,
}

abbrev is_weekday : ℕ → Bool
is_weekday day = ltb day 7

weekday_code-is_weekday :
    (t : String) (days : List ℕ)
    → all is_weekday days ≡ true
    → all is_weekday (with_code (weekday_code t) days) ≡ true
weekday_code-is_weekday t days h = ground arith

or_anchor-is_weekday :
    (day : ℕ) (days : List ℕ)
    → is_weekday day ≡ true
    → all is_weekday days ≡ true
    → all is_weekday (or_anchor day days) ≡ true
or_anchor-is_weekday day [] a h = rw a refl
or_anchor-is_weekday day (d ∷ days) a h = h

module _ (texts : Texts) (zones : Zones) where
  open texts use {upper}
  open zones use {Zone, to_local}

  codes_in-is_weekday : (ts : List String) → all is_weekday (codes_in texts zones ts) ≡ true
  codes_in-is_weekday [] = refl
  codes_in-is_weekday (t ∷ ts) =
      weekday_code-is_weekday (upper t) (codes_in texts zones ts) (codes_in-is_weekday ts)

  days_of_rule-valid :
      (start : Moment Zone) (rule : Option (List (String × List String)))
      → check_weekdays (days_of_rule texts zones start rule) ≡ true
  unfolding check_weekdays weekday
  days_of_rule-valid start none = refl
  days_of_rule-valid start (some rule) =
      elim (Bool-cases (text_in "DAILY" (map upper (or_empty_list (lookup "freq" rule))))) [
        | inl y ↦ rw y refl
        | inr n ↦
            elim (Bool-cases (text_in "WEEKLY" (map upper (or_empty_list (lookup "freq" rule))))) [
              | inr m ↦ rw (n, m) refl
              | inl y ↦
                  rw (n, y)
                    (or_anchor-is_weekday (weekday (to_local start.zone start.instant).day)
                      (sort leb (codes_in texts zones (or_empty_list (lookup "byday" rule))))
                      (anchor (to_local start.zone start.instant).day)
                      (all-sort leb is_weekday
                          (codes_in texts zones (or_empty_list (lookup "byday" rule)))
                        ∙ codes_in-is_weekday (or_empty_list (lookup "byday" rule))))
            ]
      ]
    where
      anchor : (day : ℕ) → is_weekday (weekday day) ≡ true
      anchor day = lt→ltb (weekday day) 7 (omega arith)

  pub record_payload-valid :
      (event : IcsEvent texts zones)
      → (p : EventPayload) × (model_validate (record_payload texts zones event) ≡ ok p)
  unfolding record_payload model_validate series_weekdays
  record_payload-valid event =
      valid (event_fields texts zones event) (days_of_rule-valid event.starts_at event.rrule)
    where
      valid :
          (p : EventPayload)
          → check_weekdays p.recurrence_weekdays ≡ true
          → (q : EventPayload) × (model_validate (fields p) ≡ ok q)
      valid p h = (p, rw h refl)
