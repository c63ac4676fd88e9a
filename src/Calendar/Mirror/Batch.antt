-- ===== src/Calendar/Mirror/Batch.antt =====
-- What a batch does to the mirrors, the counts of its report, and how it stops.
use mathlib.Core.Bool.{true≢false}
use nidaro.Base.{
  All, is_some, Exn, ◌⊎◌, ℕ, ◌+◌, String, ◌≡◌, refl, sym, ◌∙◌, Bool, true, false, List, [], ◌∷◌,
  ◌++◌, none, some, arith, str_eq, if◌then◌else◌, Result, ok, err, Bool-cases, inl, inr, length,
  Option, data_error,
}
use nidaro.Base.Table.{find}
use nidaro.Calendar.Models.{
  is_mirror, EventPayload, ExternalRecord, MirrorApplyReport, model_validate, fits_content, Event,
  fits_mirror,
}
use nidaro.Calendar.Repository.{remove_mirror, upsert_mirror, knows, CalendarDb, admits_mirror}
use nidaro.Calendar.Service.{
  apply_record, apply_from, apply_external_records, calendar_event, no_changes,
}
use nidaro.Calendar.Mirror.Record.{IsUnique, mirrored, said_all}
use nidaro.Calendar.Mirror.Outcome.{Fits, admits_mirror-Fits}
use nidaro.Calendar.Mirror.Effects.{still_known, apply_from-IsUnique, apply_from-said}

-- A record is acceptable if it is a tombstone, of another type, or has a payload that validates.
abbrev pub Accepted : ExternalRecord → Type 0
Accepted r =
    (r.deleted ≡ true)
    ⊎ (str_eq r.external_type calendar_event ≡ false)
    ⊎ ((p : EventPayload) × (model_validate r.payload ≡ ok p))

abbrev total : MirrorApplyReport → ℕ
total report = report.applied + report.removed + report.skipped

-- A report that counts one more record than `report`.
Counted : MirrorApplyReport → Result MirrorApplyReport → Type 0
Counted report r = (next : MirrorApplyReport) × (r ≡ ok next) × (total next ≡ total report + 1)

abbrev dropping : Bool → MirrorApplyReport → MirrorApplyReport
dropping existed report =
    if existed
    then record report { removed = report.removed + 1 }
    else record report { skipped = report.skipped + 1 }

total-dropping :
    (existed : Bool) (report : MirrorApplyReport)
    → total (dropping existed report) ≡ total report + 1
total-dropping existed report = ground arith

payload_validates :
    (r : ExternalRecord)
    → Accepted r
    → r.deleted ≡ false
    → str_eq r.external_type calendar_event ≡ true
    → (p : EventPayload) × (model_validate r.payload ≡ ok p)
payload_validates r (inl d) l t = absurd (true≢false (sym d ∙ l))
payload_validates r (inr (inl o)) l t = absurd (true≢false (sym t ∙ o))
payload_validates r (inr (inr pv)) l t = pv

apply_record-Counted :
    (h : ℕ) (report : MirrorApplyReport) (r : ExternalRecord) (db : CalendarDb)
    → Accepted r
    → Fits r
    → knows h db ≡ true
    → Counted report (apply_record h report r db).0
unfolding Counted apply_record remove_mirror upsert_mirror
apply_record-Counted h report r db a f known = elim (Bool-cases r.deleted) [
  | inl d ↦ rw d (
    dropping (is_some (find (is_mirror h r.connector r.external_id) db.events)) report,
    refl,
    total-dropping (is_some (find (is_mirror h r.connector r.external_id) db.events)) report,
  )
  | inr l ↦ elim (Bool-cases (str_eq r.external_type calendar_event)) [
    | inr o ↦ rw (l, o) (record report { skipped = report.skipped + 1 }, refl, omega arith)
    | inl t ↦
        let (p, v) = payload_validates r a l t in
        let taken =
          admits_mirror-Fits h r p db (find (is_mirror h r.connector r.external_id) db.events) v f
            known in
        rw (l, t, v, taken) (record report { applied = report.applied + 1 }, refl, omega arith)
  ]
]

apply_from-Counted :
    (h : ℕ) (report : MirrorApplyReport) (records : List ExternalRecord) (db : CalendarDb)
    → All Accepted records
    → All Fits records
    → knows h db ≡ true
    → (final : MirrorApplyReport) × ((apply_from h report records db).0 ≡ ok final)
      × (total final ≡ total report + length records)
unfolding apply_from Counted
apply_from-Counted h report [] db a f known = (report, refl, omega arith)
apply_from-Counted h report (r ∷ rs) db a f known =
    let (next, e, one) = apply_record-Counted h report r db a.0 f.0 known in
    let (final, k, rest) =
      apply_from-Counted h next rs (apply_record h report r db).1 a.1 f.1
        (still_known h report r db known) in
    (final, rw e k, omega arith)

-- A batch of acceptable records, whose texts fit in the columns of the calendar, is landed whole for a
-- known household: the report counts each record once, each external item of the household then
-- shows what the batch says of it, the last word counting, and the identities stay unique.
pub apply_complete :
    (h : ℕ) (records : List ExternalRecord) (db : CalendarDb)
    → IsUnique db
    → All Accepted records
    → All Fits records
    → knows h db ≡ true
    → (report : MirrorApplyReport) × ((apply_external_records h records db).0 ≡ ok report)
      × (report.applied + report.removed + report.skipped ≡ length records)
      × ((c x : String)
          → mirrored h c x (apply_external_records h records db).1
            ≡ said_all c x (mirrored h c x db) records)
      × IsUnique (apply_external_records h records db).1
unfolding apply_external_records
apply_complete h records db u a f known =
    let (report, k, counts) = apply_from-Counted h no_changes records db a f known in
    (
      report,
      k,
      omega arith,
      (λ c x. apply_from-said h no_changes records db c x u k),
      apply_from-IsUnique h no_changes records db u,
    )

apply_from-append :
    (h : ℕ) (report : MirrorApplyReport) (rs more : List ExternalRecord) (db : CalendarDb)
    → All Accepted rs
    → All Fits rs
    → knows h db ≡ true
    → (next : MirrorApplyReport) × (apply_from h report (rs ++ more) db
        ≡ apply_from h next more (apply_from h report rs db).1)
unfolding apply_from Counted
apply_from-append h report [] more db a f known = (report, refl)
apply_from-append h report (r ∷ rs) more db a f known =
    let (next, e, one) = apply_record-Counted h report r db a.0 f.0 known in
    let (final, k) =
      apply_from-append h next rs more (apply_record h report r db).1 a.1 f.1
        (still_known h report r db known) in
    (final, rw e k)

admits-wide :
    (h : ℕ) (c x : String) (p : EventPayload) (db : CalendarDb) (o : Option Event)
    → fits_content p ≡ false
    → admits_mirror h c x p db o ≡ err data_error
unfolding admits_mirror fits_mirror
admits-wide h c x p db none wide = rw wide refl
admits-wide h c x p db (some e) wide = rw wide refl

bad_refused :
    (h : ℕ) (report : MirrorApplyReport) (bad : ExternalRecord) (e : Exn) (db : CalendarDb)
    → bad.deleted ≡ false
    → str_eq bad.external_type calendar_event ≡ true
    → (model_validate bad.payload ≡ err e)
      ⊎ ((p : EventPayload) × (model_validate bad.payload ≡ ok p)
          × (fits_content p ≡ false)
          × (e ≡ data_error))
    → apply_record h report bad db ≡ (err e, db)
unfolding apply_record upsert_mirror
bad_refused h report bad e db live type (inl invalid) = rw (live, type, invalid) refl
bad_refused h report bad e db live type (inr (p, valid, wide, same)) =
    rw (live, type, valid, admits-wide h bad.connector bad.external_id p db _ wide, same) refl

-- After acceptable records that fit, for a known household, a live calendar record that does not
-- validate stops the batch with the error of the validation, and one with a title or a location
-- that is too long for its column with the database's: what stands before it is landed, and
-- nothing after it.
pub apply_aborts :
    (h : ℕ) (rs rest : List ExternalRecord) (bad : ExternalRecord) (e : Exn) (db : CalendarDb)
    → All Accepted rs
    → All Fits rs
    → knows h db ≡ true
    → bad.deleted ≡ false
    → str_eq bad.external_type calendar_event ≡ true
    → (model_validate bad.payload ≡ err e)
      ⊎ ((p : EventPayload) × (model_validate bad.payload ≡ ok p)
          × (fits_content p ≡ false)
          × (e ≡ data_error))
    → apply_external_records h (rs ++ bad ∷ rest) db ≡ (err e, (apply_external_records h rs db).1)
unfolding apply_external_records
apply_aborts h rs rest bad e db a f known live type fails =
    let (next, k) = apply_from-append h no_changes rs (bad ∷ rest) db a f known in
    k ∙ unfold apply_from in rw (bad_refused h next bad e _ live type fails) refl
