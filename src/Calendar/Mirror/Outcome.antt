-- ===== src/Calendar/Mirror/Outcome.antt =====
-- What the landing of one record does, by its kind, and when the database takes the mirror.
use nidaro.Base.{
  ℕ, String, ◌≡◌, refl, Bool, true, false, Option, none, some, arith, str_eq, Result, ok, err,
  Bool-cases, inl, inr, Exn, Result-cases, subst,
}
use nidaro.Base.Table.{find}
use nidaro.Calendar.Models.{
  Event, EventPayload, ExternalRecord, MirrorApplyReport, is_mirror, model_validate, fits_mirror,
}
use nidaro.Calendar.Repository.{
  CalendarDb, with_mirror, admits_mirror, knows, upsert_mirror, remove_mirror,
}
use nidaro.Calendar.Service.{apply_record, calendar_event}
use nidaro.Calendar.Mirror.Record.{content_of, model_validate-eq-ok}

-- What one record did, by its kind.
pub data Effect (h : ℕ) (r : ExternalRecord) (db : CalendarDb)
    (out : Result MirrorApplyReport × CalendarDb) : Type 0 where
  dropped :
      r.deleted ≡ true
      → out.1 ≡ (remove_mirror h r.connector r.external_id db).1
      → Effect h r db out
  passed :
      r.deleted ≡ false
      → str_eq r.external_type calendar_event ≡ false
      → out.1 ≡ db
      → Effect h r db out
  landed :
      r.deleted ≡ false
      → str_eq r.external_type calendar_event ≡ true
      → (p : EventPayload) → model_validate r.payload ≡ ok p
      → out.1 ≡ with_mirror h r.connector r.external_id p db
      → Effect h r db out
  refused :
      r.deleted ≡ false
      → str_eq r.external_type calendar_event ≡ true
      → (e : Exn) → model_validate r.payload ≡ err e
      → out ≡ (err e, db)
      → Effect h r db out
  rejected :
      r.deleted ≡ false
      → str_eq r.external_type calendar_event ≡ true
      → (p : EventPayload) → model_validate r.payload ≡ ok p
      → (e : Exn) → out ≡ (err e, db)
      → Effect h r db out

-- The database takes the mirror, or refuses it.
abbrev pub admitted : ℕ → String → String → EventPayload → CalendarDb → Result (Unit {0})
admitted h c x p db = admits_mirror h c x p db (find (is_mirror h c x) db.events)

pub apply_record-Effect :
    (h : ℕ) (report : MirrorApplyReport) (r : ExternalRecord) (db : CalendarDb)
    → Effect h r db (apply_record h report r db)
unfolding apply_record upsert_mirror
apply_record-Effect h report r db = elim (Bool-cases r.deleted) [
  | inl d ↦ dropped d (rw d refl)
  | inr l ↦ elim (Bool-cases (str_eq r.external_type calendar_event)) [
    | inr o ↦ passed l o (rw (l, o) refl)
    | inl t ↦ elim (Result-cases (model_validate r.payload)) [
      | inl (p, v) ↦ elim (Result-cases (admitted h r.connector r.external_id p db)) [
        | inl (done, k) ↦ landed l t p v (rw (l, t, v, k) refl)
        | inr (e, k) ↦ rejected l t p v e (rw (l, t, v, k) refl)
      ]
      | inr (e, v) ↦ refused l t e v (rw (l, t, v) refl)
    ]
  ]
]

abbrev pub fits_carried : String → String → Option EventPayload → Bool
fits_carried c x none = true
fits_carried c x (some p) = fits_mirror c x p

-- The content that a record carries fits in the columns of a mirror.
abbrev pub Fits : ExternalRecord → Type 0
Fits r = fits_carried r.connector r.external_id (content_of r.payload) ≡ true

-- A known household's mirror whose texts fit is taken.
pub admits_mirror-Fits :
    (h : ℕ) (r : ExternalRecord) (p : EventPayload) (db : CalendarDb) (o : Option Event)
    → model_validate r.payload ≡ ok p
    → Fits r
    → knows h db ≡ true
    → admits_mirror h r.connector r.external_id p db o ≡ ok tt
unfolding admits_mirror fits_mirror
admits_mirror-Fits h r p db o v f k = taken o (
    subst (λ c. fits_carried r.connector r.external_id c ≡ true)
      (model_validate-eq-ok r.payload p v) f)
  where
    taken :
        (o : Option Event)
        → fits_mirror r.connector r.external_id p ≡ true
        → admits_mirror h r.connector r.external_id p db o ≡ ok tt
    taken none m = rw (m, k) refl
    taken (some e) m = ground (arith, m)

-- No landing changes the households.
pub Effect-households :
    (h : ℕ) (r : ExternalRecord) (db : CalendarDb) (out : Result MirrorApplyReport × CalendarDb)
    → Effect h r db out
    → out.1.households ≡ db.households
unfolding remove_mirror with_mirror
Effect-households h r db out (dropped d e) = rw e refl
Effect-households h r db out (passed d t e) = rw e refl
Effect-households h r db out (landed d t p v e) = rw e refl
Effect-households h r db out (refused d t x v e) = rw e refl
Effect-households h r db out (rejected d t p v x e) = rw e refl
