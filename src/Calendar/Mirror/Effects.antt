-- ===== src/Calendar/Mirror/Effects.antt =====
-- What the landing of records does to the mirrors, whether it completes or not.
use mathlib.Core.Path.{subst₂}
use nidaro.Base.{
  is_some, Exn, err≢ok, eq_iff, ℕ, String, ◌≡◌, refl, sym, ◌∙◌, true, ◌&&◌, List, [], ◌∷◌, none,
  some, arith, str_eq, Result, ok, err, Bool-cases, Result-cases, inl, inr, ◌==◌, ap,
}
use nidaro.Base.Table.{find}
use nidaro.Calendar.Models.{ExternalRecord, MirrorApplyReport, model_validate}
use nidaro.Calendar.Repository.{remove_mirror, with_mirror, upsert_mirror, knows, CalendarDb}
use nidaro.Calendar.Service.{
  apply_record, apply_from, apply_external_records, calendar_event, no_changes,
}
use nidaro.Calendar.Mirror.Record.{
  IsUnique, mirrored, said, said_all, same_self, upsert-IsUnique, remove-IsUnique,
  mirrored-upsert_self, mirrored-upsert_ne, mirrored-remove_self, mirrored-remove_ne,
  model_validate-eq-ok,
}
use nidaro.Calendar.Mirror.Outcome.{Effect, apply_record-Effect, admitted, Effect-households}

same_item : (a c b x : String) → (str_eq a c && str_eq b x) ≡ true → (a ≡ c) × (b ≡ x)
same_item a c b x e = ((eq_iff a c).0 (ground arith), (eq_iff b x).0 (ground arith))

Effect-IsUnique :
    (h : ℕ) (r : ExternalRecord) (db : CalendarDb) (out : Result MirrorApplyReport × CalendarDb)
    → Effect h r db out
    → IsUnique db
    → IsUnique out.1
Effect-IsUnique h r db out (Effect.dropped d e) u =
    rw e (remove-IsUnique h r.connector r.external_id db u)
Effect-IsUnique h r db out (Effect.passed d t e) u = rw e u
Effect-IsUnique h r db out (Effect.landed d t p v e) u =
    rw e (upsert-IsUnique h r.connector r.external_id p db u)
Effect-IsUnique h r db out (Effect.refused d t x v e) u = rw e u
Effect-IsUnique h r db out (Effect.rejected d t p v x e) u = rw e u

Effect-said :
    (h : ℕ) (c x : String) (r : ExternalRecord) (db : CalendarDb) (report : MirrorApplyReport)
    (out : Result MirrorApplyReport × CalendarDb)
    → Effect h r db out
    → IsUnique db
    → out.0 ≡ ok report
    → mirrored h c x out.1 ≡ said c x (mirrored h c x db) r
unfolding said
Effect-said h c x r db report out (Effect.dropped d e) u k =
    elim (Bool-cases (str_eq r.connector c && str_eq r.external_id x)) [
      | inl y ↦
          rw (e, y, d)
            (let (e1, e2) = same_item r.connector c r.external_id x y in
              subst₂ (λ c x. mirrored h c x (remove_mirror h r.connector r.external_id db).1 ≡ none)
                e1 e2 (mirrored-remove_self h r.connector r.external_id db u))
      | inr n ↦
          rw (e, n)
            (mirrored-remove_ne h h r.connector c r.external_id x db
              (same_self h r.connector c r.external_id x ∙ n))
    ]
Effect-said h c x r db report out (Effect.passed d t e) u k =
    elim (Bool-cases (str_eq r.connector c && str_eq r.external_id x)) [
      | inl y ↦ rw (e, y, d, t) refl
      | inr n ↦ rw (e, n) refl
    ]
Effect-said h c x r db report out (Effect.landed d t p v e) u k =
    elim (Bool-cases (str_eq r.connector c && str_eq r.external_id x)) [
      | inl y ↦
          rw (e, y, d, t)
            (let (e1, e2) = same_item r.connector c r.external_id x y in
              subst₂ (λ c x. mirrored h c x (with_mirror h r.connector r.external_id p db) ≡ some p)
                e1 e2 (mirrored-upsert_self h r.connector r.external_id p db)
              ∙ sym (model_validate-eq-ok r.payload p v))
      | inr n ↦
          rw (e, n)
            (mirrored-upsert_ne h h r.connector c r.external_id x p db
              (same_self h r.connector c r.external_id x ∙ n))
    ]
Effect-said h c x r db report out (Effect.refused d t ex v e) u k = cc
Effect-said h c x r db report out (Effect.rejected d t p v ex e) u k = cc

pub still_known :
    (h : ℕ) (report : MirrorApplyReport) (r : ExternalRecord) (db : CalendarDb)
    → knows h db ≡ true
    → knows h (apply_record h report r db).1 ≡ true
still_known h report r db known =
    ap (λ hs. is_some (find (λ x. x.id == h) hs))
      (Effect-households h r db _ (apply_record-Effect h report r db))
    ∙ known

-- Every batch keeps the identities unique, also one that stops half way.
pub apply_from-IsUnique :
    (h : ℕ) (report : MirrorApplyReport) (records : List ExternalRecord) (db : CalendarDb)
    → IsUnique db
    → IsUnique (apply_from h report records db).1
unfolding apply_from
apply_from-IsUnique h report [] db u = u
apply_from-IsUnique h report (r ∷ rs) db u =
    let once = Effect-IsUnique h r db _ (apply_record-Effect h report r db) u in
    elim (Result-cases (apply_record h report r db).0) [
      | inl (next, e) ↦ rw e (apply_from-IsUnique h next rs (apply_record h report r db).1 once)
      | inr (x, e) ↦ rw e once
    ]

pub apply_from-said :
    (h : ℕ) (report : MirrorApplyReport) (records : List ExternalRecord) (db : CalendarDb)
    (c x : String) {final : MirrorApplyReport}
    → IsUnique db
    → (apply_from h report records db).0 ≡ ok final
    → mirrored h c x (apply_from h report records db).1 ≡ said_all c x (mirrored h c x db) records
unfolding apply_from said_all
apply_from-said h report [] db c x u k = refl
apply_from-said h report (r ∷ rs) db c x u k =
    let effect = apply_record-Effect h report r db in
    let once = Effect-IsUnique h r db _ effect u in
    elim (Result-cases (apply_record h report r db).0) [
      | inl (next, e) ↦
          rw (e, ← Effect-said h c x r db next _ effect u e)
            (apply_from-said h next rs (apply_record h report r db).1 c x once (rw e at k))
      | inr (ex, e) ↦ absurd (err≢ok (rw e at k))
    ]

-- Where a batch completes, it shows of each item what it says, the last word counting.
pub apply_says :
    (h : ℕ) (records : List ExternalRecord) (db : CalendarDb) (c x : String)
    {final : MirrorApplyReport}
    → IsUnique db
    → (apply_external_records h records db).0 ≡ ok final
    → mirrored h c x (apply_external_records h records db).1
      ≡ said_all c x (mirrored h c x db) records
unfolding apply_external_records
apply_says h records db c x u k = apply_from-said h no_changes records db c x u k

-- One record whose landing raises changes nothing.
pub apply_one-refused :
    (h : ℕ) (r : ExternalRecord) (db : CalendarDb) (e : Exn)
    → (apply_external_records h (r ∷ []) db).0 ≡ err e
    → apply_external_records h (r ∷ []) db ≡ (err e, db)
unfolding apply_external_records apply_from apply_record upsert_mirror remove_mirror
apply_one-refused h r db e k = elim (Bool-cases r.deleted) [
  | inl d ↦ absurd (err≢ok (sym (rw d at k)))
  | inr l ↦ elim (Bool-cases (str_eq r.external_type calendar_event)) [
    | inr o ↦ absurd (err≢ok (sym (rw (l, o) at k)))
    | inl t ↦ elim (Result-cases (model_validate r.payload)) [
      | inr (x, v) ↦ rw (l, t, v) (ap (λ y. (y, db)) (rw (l, t, v) at k))
      | inl (p, v) ↦ elim (Result-cases (admitted h r.connector r.external_id p db)) [
        | inl (done, taken) ↦ absurd (err≢ok (sym (rw (l, t, v, taken) at k)))
        | inr (x, taken) ↦ rw (l, t, v, taken) (ap (λ y. (y, db)) (rw (l, t, v, taken) at k))
      ]
    ]
  ]
]

apply_from-knows :
    (h : ℕ) (report : MirrorApplyReport) (records : List ExternalRecord) (db : CalendarDb)
    → knows h db ≡ true
    → knows h (apply_from h report records db).1 ≡ true
unfolding apply_from
apply_from-knows h report [] db known = known
apply_from-knows h report (r ∷ rs) db known =
    let once = still_known h report r db known in
    elim (Result-cases (apply_record h report r db).0) [
      | inl (next, e) ↦ rw e (apply_from-knows h next rs (apply_record h report r db).1 once)
      | inr (x, e) ↦ rw e once
    ]

pub apply-knows :
    (h : ℕ) (records : List ExternalRecord) (db : CalendarDb)
    → knows h db ≡ true
    → knows h (apply_external_records h records db).1 ≡ true
unfolding apply_external_records
apply-knows h records db known = apply_from-knows h no_changes records db known
