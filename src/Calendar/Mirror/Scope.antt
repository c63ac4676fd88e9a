-- ===== src/Calendar/Mirror/Scope.antt =====
-- What a batch leaves alone, and that landing it again changes nothing that is shown.
use nidaro.Base.{
  ℕ, String, ◌≡◌, refl, sym, ◌∙◌, ap, ◌⊎◌, inl, inr, Bool, true, false, not, ◌&&◌, List, [], ◌∷◌,
  Option, arith, str_eq, ◌==◌, Result, ok, Bool-cases, Result-cases, is_some, keep, All,
}
use nidaro.Base.Table.{keep-save, keep-remove}
use nidaro.Calendar.Models.{Event, EventPayload, ExternalRecord, MirrorApplyReport, is_mirror}
use nidaro.Calendar.Repository.{
  CalendarDb, remove_mirror, with_mirror, knows, new_mirror, set_fields,
}
use nidaro.Calendar.Service.{
  apply_record, apply_from, apply_external_records, calendar_event, no_changes,
}
use nidaro.Calendar.Mirror.Record.{
  IsUnique, mirrored, said, said_all, new_mirror-is_mirror, set_fields-is_mirror,
}
use nidaro.Calendar.Mirror.Outcome.{Fits, Effect, apply_record-Effect}
use nidaro.Calendar.Mirror.Batch.{Accepted, apply_complete}
use nidaro.Calendar.Mirror.Effects.{apply-knows}

-- The rows that are no mirrors of household `h`: those of other households, and what people made.
abbrev pub is_outside : ℕ → Event → Bool
is_outside h e = not (e.household_id == h && is_some e.external_id)

is_mirror-inside :
    (h : ℕ) (c x : String) (e : Event) → is_mirror h c x e ≡ true → is_outside h e ≡ false
unfolding is_mirror
is_mirror-inside h c x e m = ground arith

Effect-outside :
    (h : ℕ) (r : ExternalRecord) (db : CalendarDb) (out : Result MirrorApplyReport × CalendarDb)
    → Effect h r db out
    → keep (is_outside h) out.1.events ≡ keep (is_outside h) db.events
unfolding remove_mirror with_mirror
Effect-outside h r db out (Effect.dropped d e) = rw e (
    keep-remove (is_mirror h r.connector r.external_id) (is_outside h) db.events
      (is_mirror-inside h r.connector r.external_id))
Effect-outside h r db out (Effect.passed d t e) = rw e refl
Effect-outside h r db out (Effect.landed d t p v e) = rw e (
    keep-save (is_mirror h r.connector r.external_id) (is_outside h)
      (new_mirror db.next_id h r.connector r.external_id p) (set_fields p) db.events
      (is_mirror-inside h r.connector r.external_id)
      (new_mirror-is_mirror h db.next_id r.connector r.external_id p)
      (set_fields-is_mirror h r.connector r.external_id p))
Effect-outside h r db out (Effect.refused d t x v e) = rw e refl
Effect-outside h r db out (Effect.rejected d t p v x e) = rw e refl

apply_from-outside :
    (h : ℕ) (report : MirrorApplyReport) (records : List ExternalRecord) (db : CalendarDb)
    → keep (is_outside h) (apply_from h report records db).1.events ≡ keep (is_outside h) db.events
unfolding apply_from
apply_from-outside h report [] db = refl
apply_from-outside h report (r ∷ rs) db =
    let once = Effect-outside h r db _ (apply_record-Effect h report r db) in
    elim (Result-cases (apply_record h report r db).0) [
      | inl (next, e) ↦ rw e (apply_from-outside h next rs (apply_record h report r db).1 ∙ once)
      | inr (x, e) ↦ rw e once
    ]

-- Whatever the batch, and also where it stops half way, the events of other
-- households and the household's events without an external identity stay as they are, in order.
pub apply_leaves_others :
    (h : ℕ) (records : List ExternalRecord) (db : CalendarDb)
    → keep (is_outside h) (apply_external_records h records db).1.events
      ≡ keep (is_outside h) db.events
unfolding apply_external_records
apply_leaves_others h records db = apply_from-outside h no_changes records db

-- A record says the same whatever held before, or nothing at all.
said_decides :
    (c x : String) (r : ExternalRecord)
    → ((a b : Option EventPayload) → said c x a r ≡ said c x b r)
      ⊎ ((a : Option EventPayload) → said c x a r ≡ a)
unfolding said
said_decides c x r = elim (Bool-cases (str_eq r.connector c && str_eq r.external_id x)) [
  | inr n ↦ inr (λ a. rw n refl)
  | inl y ↦ elim (Bool-cases r.deleted) [
    | inl d ↦ inl (λ a b. rw (y, d) refl)
    | inr l ↦ elim (Bool-cases (str_eq r.external_type calendar_event)) [
      | inl t ↦ inl (λ a b. rw (y, l, t) refl)
      | inr o ↦ inr (λ a. rw (y, l, o) refl)
    ]
  ]
]

said_all_decides :
    (c x : String) (rs : List ExternalRecord)
    → ((a b : Option EventPayload) → said_all c x a rs ≡ said_all c x b rs)
      ⊎ ((a : Option EventPayload) → said_all c x a rs ≡ a)
unfolding said_all
said_all_decides c x [] = inr (λ a. refl)
said_all_decides c x (r ∷ rs) = elim (said_all_decides c x rs) [
  | inl const ↦ inl (λ a b. const (said c x a r) (said c x b r))
  | inr same ↦ elim (said_decides c x r) [
    | inl const ↦ inl (λ a b. ap (λ o. said_all c x o rs) (const a b))
    | inr skip ↦ inr (λ a. same (said c x a r) ∙ skip a)
  ]
]

said_all-twice :
    (c x : String) (a : Option EventPayload) (rs : List ExternalRecord)
    → said_all c x (said_all c x a rs) rs ≡ said_all c x a rs
said_all-twice c x a rs = elim (said_all_decides c x rs) [
  | inl const ↦ const (said_all c x a rs) a
  | inr same ↦ same (said_all c x a rs)
]

-- Landing a batch of acceptable records that fit, for a known household, a second time succeeds and
-- changes nothing that is shown of any external item of the household.
pub apply_idempotent :
    (h : ℕ) (records : List ExternalRecord) (db : CalendarDb)
    → IsUnique db
    → All Accepted records
    → All Fits records
    → knows h db ≡ true
    → let once = (apply_external_records h records db).1 in
      (report : MirrorApplyReport) × ((apply_external_records h records once).0 ≡ ok report)
      × ((c x : String)
          → mirrored h c x (apply_external_records h records once).1 ≡ mirrored h c x once)
apply_idempotent h records db u a f known =
    let (_, _, _, first, unique) = apply_complete h records db u a f known in
    let (report, k, _, second, _) =
      apply_complete h records (apply_external_records h records db).1 unique a f
        (apply-knows h records db known) in
    (
      report,
      k,
      λ c x.
          second c x
          ∙ ap (λ o. said_all c x o records) (first c x)
          ∙ said_all-twice c x (mirrored h c x db) records
          ∙ sym (first c x),
    )
