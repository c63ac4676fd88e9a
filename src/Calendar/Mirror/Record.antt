-- ===== src/Calendar/Mirror/Record.antt =====
-- What one record does to the mirrors of a household, and what it says of them.
use mathlib.Core.Option
use mathlib.Core.Path.{subst₃}
use nidaro.Base.{
  holds_text-ne, ℕ, ◌≤◌, String, ◌≡◌, refl, ap, Bool, true, false, ◌&&◌, List, [], ◌∷◌, Option,
  none, some, arith, str_eq, eq_iff, ◌==◌, if◌then◌else◌, ok, Bool-cases, inl, inr,
}
use nidaro.Base.Table.{
  find, count, find-save_self, find-save_ne, count-save_self, count-save_ne, find-remove_self,
  find-remove_ne, count-remove, written,
}
use nidaro.Calendar.Models.{
  Event, EventPayload, ExternalRecord, is_mirror, model_validate, fields, foreign, Payload,
}
use nidaro.Calendar.Repository.{
  CalendarDb, with_mirror, remove_mirror, set_fields, new_mirror, get_by_external_identity,
}
use nidaro.Calendar.Service.{get_mirror, calendar_event}

-- The partial unique index on (household, connector, external id).
abbrev pub IsUnique : CalendarDb → Type 0
IsUnique db = (h : ℕ) (c x : String) → count (is_mirror h c x) db.events ≤ 1

-- The content that an event shows, in the fields that a payload carries.
unfoldable pub content : Event → EventPayload
content e = record {
  title = e.title;
  starts_at = e.starts_at;
  ends_at = e.ends_at;
  description = e.description;
  location = e.location;
  is_all_day = e.is_all_day;
  recurrence_weekdays = e.recurrence_weekdays;
}

-- What is mirrored of one external item.
unfoldable pub mirrored : ℕ → String → String → CalendarDb → Option EventPayload
unfolding content
mirrored h c x db = Option.map content (get_mirror h c x db)

abbrev pub content_of : Payload → Option EventPayload
content_of (fields p) = some p
content_of foreign = none

-- What one record says of the item (c, x), given what held before: a tombstone says that it is
-- gone, a calendar record says its content, and a record of another type or item says nothing.
unfoldable pub said : String → String → Option EventPayload → ExternalRecord → Option EventPayload
said c x before r =
    if str_eq r.connector c && str_eq r.external_id x
    then (if r.deleted
        then none
        else if str_eq r.external_type calendar_event
        then content_of r.payload
        else before)
    else before

-- What a batch says, record by record.
unfoldable pub said_all :
    String → String → Option EventPayload → List ExternalRecord → Option EventPayload
said_all c x before [] = before
said_all c x before (r ∷ rs) = said_all c x (said c x before r) rs

-- Whether two identities, household first, are the same.
abbrev pub same : ℕ → ℕ → String → String → String → String → Bool
same h k c d x y = h == k && (str_eq c d && str_eq x y)

is_mirror-disjoint :
    (h k : ℕ) (c d x y : String)
    → same h k c d x y ≡ false
    → (e : Event) → is_mirror h c x e ≡ true
    → is_mirror k d y e ≡ false
unfolding is_mirror
is_mirror-disjoint h k c d x y ne e m =
    ground (arith, holds_text-ne e.external_connector c d, holds_text-ne e.external_id x y)

same-true : (h k : ℕ) (c d x y : String) → same h k c d x y ≡ true → (h ≡ k) × (c ≡ d) × (x ≡ y)
same-true h k c d x y e =
    (ground arith, (eq_iff c d).0 (ground arith), (eq_iff x y).0 (ground arith))

pub new_mirror-is_mirror :
    (h i : ℕ) (c x : String) (p : EventPayload) → is_mirror h c x (new_mirror i h c x p) ≡ true
unfolding is_mirror new_mirror
new_mirror-is_mirror h i c x p = ground (arith, eq_iff c c, eq_iff x x)

pub set_fields-is_mirror :
    (h : ℕ) (c x : String) (p : EventPayload) (e : Event)
    → is_mirror h c x (set_fields p e) ≡ is_mirror h c x e
unfolding is_mirror set_fields
set_fields-is_mirror h c x p e = refl

pub upsert-IsUnique :
    (h : ℕ) (c x : String) (p : EventPayload) (db : CalendarDb)
    → IsUnique db
    → IsUnique (with_mirror h c x p db)
unfolding with_mirror
upsert-IsUnique h c x p db u k d y = elim (Bool-cases (same h k c d x y)) [
  | inl e ↦
      let (e1, e2, e3) = same-true h k c d x y e in
      subst₃ (λ k d y. count (is_mirror k d y) (with_mirror h c x p db).events ≤ 1) e1 e2 e3
        (count-save_self (is_mirror h c x) (new_mirror db.next_id h c x p) (set_fields p) db.events
          (set_fields-is_mirror h c x p) (u h c x))
  | inr n ↦
      rw
        (count-save_ne (is_mirror h c x) (is_mirror k d y) (new_mirror db.next_id h c x p)
          (set_fields p) db.events (is_mirror-disjoint h k c d x y n)
          (new_mirror-is_mirror h db.next_id c x p) (set_fields-is_mirror h c x p))
        (u k d y)
]

pub remove-IsUnique :
    (h : ℕ) (c x : String) (db : CalendarDb) → IsUnique db → IsUnique (remove_mirror h c x db).1
unfolding remove_mirror
remove-IsUnique h c x db u k d y =
    omega (arith, count-remove (is_mirror h c x) (is_mirror k d y) db.events, u k d y)

content-written :
    (i h : ℕ) (c x : String) (p : EventPayload) (o : Option Event)
    → content (written (new_mirror i h c x p) (set_fields p) o) ≡ p
unfolding content new_mirror set_fields
content-written i h c x p none = refl
content-written i h c x p (some e) = refl

pub mirrored-upsert_self :
    (h : ℕ) (c x : String) (p : EventPayload) (db : CalendarDb)
    → mirrored h c x (with_mirror h c x p db) ≡ some p
unfolding mirrored with_mirror get_mirror get_by_external_identity
mirrored-upsert_self h c x p db =
    rw
      (find-save_self (is_mirror h c x) (new_mirror db.next_id h c x p) (set_fields p) db.events
        (new_mirror-is_mirror h db.next_id c x p) (set_fields-is_mirror h c x p))
      (ap some (content-written db.next_id h c x p (find (is_mirror h c x) db.events)))

pub mirrored-upsert_ne :
    (h k : ℕ) (c d x y : String) (p : EventPayload) (db : CalendarDb)
    → same h k c d x y ≡ false
    → mirrored k d y (with_mirror h c x p db) ≡ mirrored k d y db
unfolding mirrored with_mirror get_mirror get_by_external_identity
mirrored-upsert_ne h k c d x y p db n = ap (Option.map content) (
    find-save_ne (is_mirror h c x) (is_mirror k d y) (new_mirror db.next_id h c x p) (set_fields p)
      db.events (is_mirror-disjoint h k c d x y n) (new_mirror-is_mirror h db.next_id c x p)
      (set_fields-is_mirror h c x p))

pub mirrored-remove_self :
    (h : ℕ) (c x : String) (db : CalendarDb)
    → IsUnique db
    → mirrored h c x (remove_mirror h c x db).1 ≡ none
unfolding mirrored remove_mirror get_mirror get_by_external_identity
mirrored-remove_self h c x db u =
    ap (Option.map content) (find-remove_self (is_mirror h c x) db.events (u h c x))

pub mirrored-remove_ne :
    (h k : ℕ) (c d x y : String) (db : CalendarDb)
    → same h k c d x y ≡ false
    → mirrored k d y (remove_mirror h c x db).1 ≡ mirrored k d y db
unfolding mirrored remove_mirror get_mirror get_by_external_identity
mirrored-remove_ne h k c d x y db n = ap (Option.map content) (
    find-remove_ne (is_mirror h c x) (is_mirror k d y) db.events (is_mirror-disjoint h k c d x y n))

-- A validated payload is what the record carries.
pub model_validate-eq-ok :
    (q : Payload) (p : EventPayload) → model_validate q ≡ ok p → content_of q ≡ some p
unfolding model_validate
model_validate-eq-ok (fields q) p h = ground arith
model_validate-eq-ok foreign p h = cc

pub same_self : (h : ℕ) (c d x y : String) → same h h c d x y ≡ (str_eq c d && str_eq x y)
same_self h c d x y = ground arith
