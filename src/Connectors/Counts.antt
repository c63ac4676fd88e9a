-- ===== src/Connectors/Counts.antt =====
-- The counts of a sync's report: grouping and landing lose no record.
use nidaro.Base.{
  ℕ, suc, ◌+◌, String, ◌≡◌, refl, ap, inl, inr, List, [], ◌∷◌, arith, str_eq, Bool-cases, is_some,
  length, ok, Result-cases,
}
use nidaro.Base.{err≢ok, length-append}
use nidaro.Base.Table.{find}
use nidaro.Calendar.Models.{ExternalRecord, MirrorApplyReport, model_validate, is_mirror}
use nidaro.Calendar.Repository.{CalendarDb, remove_mirror, upsert_mirror}
use nidaro.Calendar.Mirror.Outcome.{admitted}
use nidaro.Calendar.Service.{
  apply_record, apply_from, apply_external_records, no_changes, calendar_event,
}
use nidaro.Connectors.Runner.{add_by_type, group_by_type, land_group, land_groups}

abbrev pub total : MirrorApplyReport → ℕ
total report = report.applied + (report.removed + report.skipped)

total-ok : (p r : MirrorApplyReport) → ok p ≡ ok r → total r ≡ total p
total-ok p r e = ap total (same p r e)
  where
    same : (p r : MirrorApplyReport) → ok p ≡ ok r → r ≡ p
    same p r e = cc

apply_record-total :
    (h : ℕ) (report : MirrorApplyReport) (x : ExternalRecord) (db : CalendarDb)
    (next : MirrorApplyReport)
    → (apply_record h report x db).0 ≡ ok next
    → total next ≡ total report + 1
unfolding apply_record remove_mirror upsert_mirror
apply_record-total h report x db next e = elim (Bool-cases x.deleted) [
  | inl gone ↦
      elim (Bool-cases (is_some (find (is_mirror h x.connector x.external_id) db.events))) [
        | inl y ↦ omega (arith, total-ok _ next (rw (gone, y) at e))
        | inr n ↦ omega (arith, total-ok _ next (rw (gone, n) at e))
      ]
  | inr live ↦ elim (Bool-cases (str_eq x.external_type calendar_event)) [
    | inr n ↦ omega (arith, total-ok _ next (rw (live, n) at e))
    | inl y ↦ elim (Result-cases (model_validate x.payload)) [
      | inl (p, valid) ↦ elim (Result-cases (admitted h x.connector x.external_id p db)) [
        | inl (done, taken) ↦ omega (arith, total-ok _ next (rw (live, y, valid, taken) at e))
        | inr (ex, rejected) ↦ absurd (err≢ok (rw (live, y, valid, rejected) at e))
      ]
      | inr (ex, refused) ↦ absurd (err≢ok (rw (live, y, refused) at e))
    ]
  ]
]

apply_from-total :
    (h : ℕ) (report : MirrorApplyReport) (xs : List ExternalRecord) (db : CalendarDb)
    (next : MirrorApplyReport)
    → (apply_from h report xs db).0 ≡ ok next
    → total next ≡ total report + length xs
unfolding apply_from
apply_from-total h report [] db next e = omega (arith, total-ok report next e)
apply_from-total h report (x ∷ xs) db next e = elim (Result-cases (apply_record h report x db).0) [
  | inr (ex, raised) ↦ absurd (err≢ok (rw raised at e))
  | inl (mid, one) ↦ omega (
    arith,
    apply_record-total h report x db mid one,
    apply_from-total h mid xs (apply_record h report x db).1 next (rw one at e),
  )
]

-- The records of all groups
abbrev size : List (String × List ExternalRecord) → ℕ
size [] = 0
size ((t, xs) ∷ groups) = length xs + size groups

size-add_by_type :
    (x : ExternalRecord) (groups : List (String × List ExternalRecord))
    → size (add_by_type x groups) ≡ suc (size groups)
unfolding add_by_type
size-add_by_type x [] = refl
size-add_by_type x ((t, xs) ∷ groups) =
    ground (arith, size-add_by_type x groups, length-append xs (x ∷ []))

size-group_by_type :
    (xs : List ExternalRecord) (groups : List (String × List ExternalRecord))
    → size (group_by_type xs groups) ≡ length xs + size groups
unfolding group_by_type
size-group_by_type [] groups = omega arith
size-group_by_type (x ∷ xs) groups =
    omega (arith, size-group_by_type xs (add_by_type x groups), size-add_by_type x groups)

land_group-total :
    (h : ℕ) (t : String) (xs : List ExternalRecord) (report : MirrorApplyReport) (db : CalendarDb)
    (next : MirrorApplyReport)
    → (land_group h t xs report db).0 ≡ ok next
    → total next ≡ total report + length xs
unfolding land_group apply_external_records
land_group-total h t xs report db next e = elim (Bool-cases (str_eq t calendar_event)) [
  | inr n ↦ omega (arith, total-ok _ next (rw n at e))
  | inl y ↦ elim (Result-cases (apply_from h no_changes xs db).0) [
    | inr (ex, raised) ↦ absurd (err≢ok (rw (y, raised) at e))
    | inl (mid, done) ↦
        omega
          (arith, total-ok _ next (rw (y, done) at e), apply_from-total h no_changes xs db mid done)
  ]
]

land_groups-total :
    (h : ℕ) (groups : List (String × List ExternalRecord)) (report : MirrorApplyReport)
    (db : CalendarDb) (next : MirrorApplyReport)
    → (land_groups h groups report db).0 ≡ ok next
    → total next ≡ total report + size groups
unfolding land_groups
land_groups-total h [] report db next e = omega (arith, total-ok report next e)
land_groups-total h ((t, xs) ∷ groups) report db next e =
    elim (Result-cases (land_group h t xs report db).0) [
      | inr (ex, raised) ↦ absurd (err≢ok (rw raised at e))
      | inl (mid, one) ↦ omega (
        arith,
        land_group-total h t xs report db mid one,
        land_groups-total h groups mid (land_group h t xs report db).1 next (rw one at e),
      )
    ]

-- Where the landing of a sync's records completes, each record was counted exactly once as applied,
-- removed or skipped, whatever the types of the records.
pub land_groups-counts :
    (h : ℕ) (records : List ExternalRecord) (db : CalendarDb) (report : MirrorApplyReport)
    → (land_groups h (group_by_type records []) no_changes db).0 ≡ ok report
    → report.applied + (report.removed + report.skipped) ≡ length records
land_groups-counts h records db report e = omega (
  arith,
  land_groups-total h (group_by_type records []) no_changes db report e,
  size-group_by_type records [],
)
