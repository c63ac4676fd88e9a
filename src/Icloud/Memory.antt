-- ===== src/Icloud/Memory.antt =====
-- What a run reports of one calendar, and what it remembers of each of its resources.
use nidaro.Base.{
  ℕ, String, ◌≡◌, refl, sym, ap, ◌∙◌, inl, inr, false, Option, none, some, List, [], ◌∷◌, ◌++◌, map,
  str_eq, eq_iff, if◌then◌else◌, Bool-cases, All, flat_map, Result, ok,
}
use nidaro.Base.Assoc.{
  drop_key, lookup, lookup-drop_key_ne, lookup-drop_key_self, lookup-put_ne, lookup-put_self, put,
}
use mathlib.Core.Path.{ap₂}
use mathlib.Core.List.{append_assoc, append-nil}
use nidaro.Calendar.Models.{ExternalRecord}
use nidaro.Calendar.Zones.{Zones}
use nidaro.Connectors.Store.{ConnectorContext}
use nidaro.Icloud.Ics.{Component, IcsEvent, Texts, parse_events}
use nidaro.Icloud.Events.{Projection, text_in}
use nidaro.Icloud.Session.{CalDav, FetchedIcs, SyncChanges, sync_changes}
use nidaro.Icloud.Connector.{
  CalendarEntry, Items, fetched, forget, ids_in, mirrored_ids, records_of, sync_calendar,
  take_resources, tombstone,
}

-- No text stands twice in the list.
abbrev pub Distinct : List String → Type 0
Distinct [] = Unit
Distinct (x ∷ xs) = All (λ y. str_eq x y ≡ false) xs × Distinct xs

-- The tombstones of everything that is remembered of these resources
abbrev pub tombstones_of : ℕ → Items → List String → List ExternalRecord
tombstones_of now items hrefs =
    flat_map (λ href. map (tombstone now) (ids_in (lookup href items))) hrefs

tombstones_of-drop_key :
    (now : ℕ) (k : String) (items : Items) (hrefs : List String)
    → All (λ y. str_eq k y ≡ false) hrefs
    → tombstones_of now (drop_key k items) hrefs ≡ tombstones_of now items hrefs
tombstones_of-drop_key now k items [] h = refl
tombstones_of-drop_key now k items (y ∷ hrefs) (h, hs) =
    ap₂ (λ o rest. map (tombstone now) (ids_in o) ++ rest) (lookup-drop_key_ne k y items h)
      (tombstones_of-drop_key now k items hrefs hs)

forget-records :
    (now : ℕ) (hrefs : List String) (records : List ExternalRecord) (items : Items)
    → Distinct hrefs
    → (forget now hrefs (records, items)).0 ≡ records ++ tombstones_of now items hrefs
unfolding forget
forget-records now [] records items d = sym (append-nil records)
forget-records now (href ∷ hrefs) records items (d, ds) =
    forget-records now hrefs (records ++ map (tombstone now) (ids_in (lookup href items)))
      (drop_key href items) ds
    ∙ append_assoc records (map (tombstone now) (ids_in (lookup href items)))
        (tombstones_of now (drop_key href items) hrefs)
    ∙ ap (λ rest. records ++ (map (tombstone now) (ids_in (lookup href items)) ++ rest))
        (tombstones_of-drop_key now href items hrefs d)

forget-items :
    (now : ℕ) (hrefs : List String) (records : List ExternalRecord) (items : Items) (href : String)
    → lookup href (forget now hrefs (records, items)).1
      ≡ (if text_in href hrefs then none else lookup href items)
unfolding forget
forget-items now [] records items href = refl
forget-items now (k ∷ hrefs) records items href =
    forget-items now hrefs (records ++ map (tombstone now) (ids_in (lookup k items)))
      (drop_key k items) href
    ∙ elim (Bool-cases (text_in href hrefs)) [
      | inl y ↦ rw y (elim (Bool-cases (str_eq k href)) [ inl m ↦ rw m refl | inr m ↦ rw m refl ])
      | inr n ↦ rw n (elim (Bool-cases (str_eq k href)) [
        | inl m ↦ rw m (
            ap (λ x. lookup x (drop_key k items)) (sym ((eq_iff k href).0 m))
            ∙ lookup-drop_key_self k items)
        | inr m ↦ rw m (lookup-drop_key_ne k href items m)
      ])
    ]

module _ (texts : Texts) (zones : Zones) (digest : Projection texts zones → String)
    (from_ical : String → Result (List Component)) (now : ℕ) where
  abbrev pub Parsed : Type 0
  Parsed = List (String × List (IcsEvent texts zones))

  -- The fetched resources have these events.
  abbrev pub ParsesTo : String → List FetchedIcs → Parsed → Type 0
  ParsesTo timezone [] [] = Unit
  ParsesTo timezone [] (p ∷ ps) = ⊥
  ParsesTo timezone (r ∷ rs) [] = ⊥
  ParsesTo timezone (r ∷ rs) (p ∷ ps) =
      (r.href ≡ p.0)
      × (parse_events texts zones from_ical r.ics timezone ≡ ok p.1)
      × ParsesTo timezone rs ps

  -- What is remembered of a resource once these were fetched: its events that are not cancelled
  abbrev pub remembered : String → Option (List String) → Parsed → Option (List String)
  remembered href before [] = before
  remembered href before (p ∷ ps) =
      remembered href
        (if str_eq p.0 href
          then some (mirrored_ids texts zones digest from_ical now p.1)
          else before)
        ps

  abbrev pub all_records : Parsed → List ExternalRecord
  all_records parsed = flat_map (λ p. records_of texts zones digest from_ical now p.1) parsed

  lookup-put_if :
      (k href : String) (ids : List String) (items : Items)
      → lookup href (put k ids items) ≡ (if str_eq k href then some ids else lookup href items)
  lookup-put_if k href ids items = elim (Bool-cases (str_eq k href)) [
    | inl y ↦ rw y (
        ap (λ x. lookup x (put k ids items)) (sym ((eq_iff k href).0 y))
        ∙ lookup-put_self k ids items)
    | inr n ↦ rw n (lookup-put_ne k href ids items n)
  ]

  take_resources-Parsed :
      (context : ConnectorContext) (rs : List FetchedIcs) (parsed : Parsed)
      (records : List ExternalRecord) (items : Items)
      → ParsesTo context.timezone rs parsed
      → (out : Items) × (take_resources texts zones digest from_ical now context rs (records, items)
          ≡ ok (records ++ all_records parsed, out))
        × ((href : String) → lookup href out ≡ remembered href (lookup href items) parsed)
  unfolding take_resources
  take_resources-Parsed context [] [] records items p =
      (items, ap (λ l. ok (l, items)) (sym (append-nil records)), (λ href. refl))
  take_resources-Parsed context [] (q ∷ qs) records items p = elim p [ ]
  take_resources-Parsed context (r ∷ rs) [] records items p = elim p [ ]
  take_resources-Parsed context (r ∷ rs) (q ∷ qs) records items (named, parsed, rest) =
      let ids = mirrored_ids texts zones digest from_ical now q.1 in
      let fresh = records_of texts zones digest from_ical now q.1 in
      let (out, done, keeps) =
        take_resources-Parsed context rs qs (records ++ fresh) (put r.href ids items) rest in
      rw parsed (
        out,
        done ∙ ap (λ l. ok (l, out)) (append_assoc records fresh (all_records qs)),
        (λ href.
            keeps href
            ∙ ap (λ o. remembered href o qs)
                (ap (λ k. lookup href (put k ids items)) named ∙ lookup-put_if q.0 href ids items)),
      )

  module _ {W : Type 0} (caldav : CalDav W) where
    -- Where the server answers with changes, no deleted resource named twice, and the changed ones are
    -- fetched and parse, the run of the calendar completes. It reports a tombstone for each event that
    -- was remembered of a deleted resource, and then the events of the fetched ones, nothing else; and
    -- it remembers of each resource the events of its last fetch that are not cancelled, nothing if it
    -- was deleted, and what it did before otherwise. So of an event that a changed resource no longer
    -- has it reports nothing, and forgets it.
    pub sync_calendar-memory :
        (context : ConnectorContext) (url : String) (entry : CalendarEntry) (w w₁ w₂ : W)
        (changes : SyncChanges) (resources : List FetchedIcs) (parsed : Parsed)
        → sync_changes caldav url entry.token w ≡ (ok changes, w₁)
        → fetched texts zones digest from_ical now caldav url changes.changed w₁
          ≡ (ok resources, w₂)
        → ParsesTo context.timezone resources parsed
        → Distinct changes.deleted
        → (items : Items) × (sync_calendar texts zones digest from_ical now caldav context url entry
              w
            ≡ (
              ok (
                tombstones_of now entry.items changes.deleted ++ all_records parsed,
                record { token = changes.token; items = items },
              ),
              w₂,
            ))
          × ((href : String)
              → lookup href items
                ≡ remembered href
                    (if text_in href changes.deleted then none else lookup href entry.items)
                    parsed)
    unfolding sync_calendar
    sync_calendar-memory context url entry w w₁ w₂ changes resources parsed answered got parses
          distinct =
        let gone = forget now changes.deleted ([], entry.items) in
        let (items, took, keeps) =
          take_resources-Parsed context resources parsed gone.0 gone.1 parses in
        (
          items,
          rw (answered, got, took)
              (ap
                (λ l. (
                  ok (l ++ all_records parsed, record { token = changes.token; items = items }),
                  w₂,
                ))
                (forget-records now changes.deleted [] entry.items distinct)),
          (λ href.
              keeps href
              ∙ ap (λ o. remembered href o parsed)
                  (forget-items now changes.deleted [] entry.items href)),
        )
