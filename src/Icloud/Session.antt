-- ===== src/Icloud/Session.antt =====
-- The CalDAV session of icloud_calendar.py: `CaldavIcloudClient` over the package caldav, whose
-- replies are parameters, and what the connector's requests make of them.
use nidaro.Base.{
  ℕ, zero, suc, ◌-◌, String, Option, none, some, List, [], ◌∷◌, ◌++◌, if◌then◌else◌, Result, ok,
  err, Exec, pure, ◌>>=◌,
}
use nidaro.Base.{stale_cursor, sync_unsupported, other_error, is_truthy}

-- What a call of the package ends with
pub data Reply (A : Type 0) : Type 0 where
  replied : A → Reply A
  authorization_error report_error transport_error : Reply A

-- `_translate_auth_errors`
unfoldable pub translated : {A : Type 0} → Reply A → Result A
translated (replied a) = ok a
translated authorization_error = err stale_cursor
translated report_error = err sync_unsupported
translated transport_error = err other_error

-- A parsed sync-collection reply: changed resources with their etags, if any
pub record ParsedSync : Type 0 where
  pub changed : List (String × Option String)
  pub deleted : List String
  pub sync_token : Option String

pub record SyncChanges : Type 0 where
  pub changed : List (String × String)
  pub deleted : List String
  pub token : Option String

pub record FetchedIcs : Type 0 where
  pub href : String
  pub ics : String

-- A resource of a reply may come without its data.
pub record CalDav (W : Type 0) : Type 0 where
  pub calendars : W → Reply (List String) × W
  pub sync_report : String → Option String → W → Reply ParsedSync × W
  pub multiget_report : String → List String → W → Reply (List (String × Option String)) × W
  pub query_report : String → W → Reply (List (String × Option String)) × W

abbrev with_etag : Option String → String → List (String × String) → List (String × String)
with_etag none href rest = rest
with_etag (some etag) href rest = (href, etag) ∷ rest

abbrev without_etag : Option String → String → List String → List String
without_etag none href rest = href ∷ rest
without_etag (some etag) href rest = rest

abbrev changes_in : List (String × Option String) → List (String × String)
changes_in [] = []
changes_in ((href, etag) ∷ rest) = with_etag etag href (changes_in rest)

abbrev gone_in : List (String × Option String) → List String
gone_in [] = []
gone_in ((href, etag) ∷ rest) = without_etag etag href (gone_in rest)

unfoldable pub merge_tombstones : ParsedSync → SyncChanges
merge_tombstones parsed = record {
  changed = changes_in parsed.changed;
  deleted = parsed.deleted ++ gone_in parsed.changed;
  token = parsed.sync_token;
}

abbrev pub fetch_chunk : ℕ
fetch_chunk = 100

-- The slices of `fetch`; so many hrefs still go into the slice that is being filled.
abbrev slices_from : ℕ → List String → List String → List (List String)
slices_from room slice [] = slice ∷ []
slices_from zero slice (href ∷ hrefs) = slice ∷ slices_from (fetch_chunk - 1) (href ∷ []) hrefs
slices_from (suc room) slice (href ∷ hrefs) = slices_from room (slice ++ href ∷ []) hrefs

unfoldable pub slices : List String → List (List String)
slices [] = []
slices (href ∷ hrefs) = slices_from (fetch_chunk - 1) (href ∷ []) hrefs

abbrev with_data : Option String → String → List FetchedIcs → List FetchedIcs
with_data none href rest = rest
with_data (some ics) href rest =
    if is_truthy ics then record { href = href; ics = ics } ∷ rest else rest

abbrev pub fetched_in : List (String × Option String) → List FetchedIcs
fetched_in [] = []
fetched_in ((href, ics) ∷ rest) = with_data ics href (fetched_in rest)

module _ {W : Type 0} (caldav : CalDav W) where
  abbrev asked : {A : Type 0} → (W → Reply A × W) → Exec W A
  unfolding translated
  asked call w = (translated (call w).0, (call w).1)

  unfoldable pub calendar_urls : Exec W (List String)
  unfolding translated
  calendar_urls = asked caldav.calendars

  unfoldable pub sync_changes : String → Option String → Exec W SyncChanges
  unfolding translated
  sync_changes url token =
      asked (caldav.sync_report url token) >>= λ parsed. pure (merge_tombstones parsed)

  abbrev fetch_slices : String → List (List String) → Exec W (List FetchedIcs)
  unfolding translated
  fetch_slices url [] = pure []
  fetch_slices url (slice ∷ rest) = do
    items ← asked (caldav.multiget_report url slice)
    more ← fetch_slices url rest
    pure (fetched_in items ++ more)

  unfoldable pub fetch : String → List String → Exec W (List FetchedIcs)
  unfolding translated slices
  fetch url hrefs = fetch_slices url (slices hrefs)

  unfoldable pub calendar_query : String → Exec W (List FetchedIcs)
  unfolding translated
  calendar_query url = asked (caldav.query_report url) >>= λ items. pure (fetched_in items)
