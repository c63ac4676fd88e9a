-- ===== src/Google/Pages.antt =====
-- A listing of several pages is gathered whole, and landing it shows what Google said last of each
-- event.
use nidaro.Base.{
  ℕ, zero, suc, ◌≤◌, String, ◌≡◌, refl, sym, ap, ◌∙◌, Option, none, some, List, [], ◌∷◌, ◌++◌,
  arith, Result, ok, err,
}
use nidaro.Base.{err≢ok}
use mathlib.Core.Path.{ap₂}
use mathlib.Core.List.{append_assoc}
use nidaro.Calendar.Zones.{Zones}
use nidaro.Calendar.Models.{ExternalRecord}
use nidaro.Google.Models.{GoogleAccountCredentials, GoogleEvent}
use nidaro.Google.Http.{EventsPage, Session, Transport}
use nidaro.Google.Client.{list_events}
use nidaro.Google.Mapping.{to_external_record}
use nidaro.Google.Connector.{added, to_records, sync_pages}

pub added-ok :
    (x : Result ExternalRecord) (y : Result (List ExternalRecord)) (rs : List ExternalRecord)
    → added x y ≡ ok rs
    → (r : ExternalRecord) × (more : List ExternalRecord) × (x ≡ ok r)
      × (y ≡ ok more)
      × (rs ≡ r ∷ more)
added-ok (err e) y rs h = absurd (err≢ok h)
added-ok (ok r) (err e) rs h = absurd (err≢ok h)
added-ok (ok r) (ok more) rs h = (r, more, refl, refl, same rs (r ∷ more) h)
  where
    same : (rs more : List ExternalRecord) → ok more ≡ ok rs → rs ≡ more
    same rs more h = cc

module _ (zones : Zones) (hash : GoogleEvent zones.Zone → String) {N : Type 0}
    (google : Transport zones.Zone N) where
  open zones use {Zone}

  -- What Google serves of one listing: from a page token on, so many pages with these events, the
  -- last one with this sync token.
  pub data Serves (account : GoogleAccountCredentials) (sync_token : Option String)
      (bound : Option ℕ)
      : ℕ → Option String → Session N → List (GoogleEvent Zone) → String → Session N → Type 0 where
    last_page :
        {page_token : Option String} {s after : Session N} {page : EventsPage Zone} {token : String}
        → list_events google account sync_token page_token bound s ≡ (ok page, after)
        → page.next_page_token ≡ none
        → page.next_sync_token ≡ some token
        → Serves account sync_token bound 1 page_token s page.events token after
    more_pages :
        {n : ℕ} {page_token : Option String} {s between after : Session N} {page : EventsPage Zone}
        {next token : String} {events : List (GoogleEvent Zone)}
        → list_events google account sync_token page_token bound s ≡ (ok page, between)
        → page.next_page_token ≡ some next
        → Serves account sync_token bound n (some next) between events token after
        → Serves account sync_token bound (suc n) page_token s (page.events ++ events) token after

  to_records-append :
      (account : GoogleAccountCredentials) (at : ℕ) (timezone : String)
      (xs ys : List (GoogleEvent Zone)) (rs : List ExternalRecord)
      → to_records zones hash account at timezone (xs ++ ys) ≡ ok rs
      → (first rest : List ExternalRecord) × (to_records zones hash account at timezone xs
          ≡ ok first)
        × (to_records zones hash account at timezone ys ≡ ok rest)
        × (rs ≡ first ++ rest)
  unfolding to_records
  to_records-append account at timezone [] ys rs e = ([], rs, refl, e, refl)
  to_records-append account at timezone (x ∷ xs) ys rs e =
      let (r, more, one, others, whole) =
        added-ok (to_external_record zones hash account x at timezone)
          (to_records zones hash account at timezone (xs ++ ys)) rs e in
      let (first, rest, a, b, parts) = to_records-append account at timezone xs ys more others in
      (r ∷ first, rest, ap₂ added one a, b, whole ∙ ap (λ l. r ∷ l) parts)

  -- A listing of n pages is gathered by a loop that may turn n pages or more: the records of all of
  -- its events, page after page, and the sync token of the last page.
  pub sync_pages-Serves :
      (account : GoogleAccountCredentials) (sync_token : Option String) (bound : Option ℕ) (at : ℕ)
      (timezone : String) (n limit : ℕ) (page_token : Option String) (s after : Session N)
      (events : List (GoogleEvent Zone)) (token : String) (before rs : List ExternalRecord)
      → Serves account sync_token bound n page_token s events token after
      → n ≤ limit
      → to_records zones hash account at timezone events ≡ ok rs
      → sync_pages zones hash google limit account sync_token bound at timezone page_token before s
        ≡ (ok (before ++ rs, token), after)
  unfolding sync_pages
  sync_pages-Serves account sync_token bound at timezone _ zero p s after events token before rs
        (last_page served done last) enough e =
      absurd (omega arith)
  sync_pages-Serves account sync_token bound at timezone _ zero p s after events token before rs
        (more_pages served next rest) enough e =
      absurd (omega arith)
  sync_pages-Serves account sync_token bound at timezone _ (suc limit) p s after events token before
        rs (last_page served done last) enough e =
      rw (served, e, done, last) refl
  sync_pages-Serves account sync_token bound at timezone _ (suc limit) p s after _ token before rs
        (more_pages {n = n} {between = between} {page = page} {next = next} {events = events} served
          turns rest)
        enough e =
      let (first, others, a, b, whole) =
        to_records-append account at timezone page.events events rs e in
      rw (served, a, turns)
        (sync_pages-Serves account sync_token bound at timezone n limit (some next) between after
            events token (before ++ first) others rest (omega arith) b
          ∙ ap (λ l. (ok (l, token), after))
              (append_assoc before first others ∙ ap (λ l. before ++ l) (sym whole)))
