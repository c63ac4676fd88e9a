-- ===== src/Google/CursorText.antt =====
-- A text for cursors that reads back as the cursor: every character of a field stands behind a
-- comma, and a full stop ends the field.
use nidaro.Base.{
  ℕ, zero, suc, ◌≤◌, ◌<◌, String, ◌≡◌, refl, ap, ◌∙◌, Option, none, some, [], ◌∷◌, arith, ◌==◌,
  if◌then◌else◌, length,
}
use Prim.Native.Char.{Char, code}
use Prim.Native.String as S
use nidaro.Google.Connector.{CursorJson, GoogleSyncCursor}

abbrev comma : Char
comma = ","

abbrev stop : Char
stop = "."

abbrev write_field : String → String → String
write_field S.[] rest = S.◌∷◌ stop rest
write_field (S.◌∷◌ c s) rest = S.◌∷◌ comma (S.◌∷◌ c (write_field s rest))

abbrev behind : Char → Option (String × String) → Option (String × String)
behind c none = none
behind c (some (s, rest)) = some (S.◌∷◌ c s, rest)

abbrev read_field : String → Option (String × String)
read_field S.[] = none
read_field (S.◌∷◌ m S.[]) = if code m == code stop then some (S.[], S.[]) else none
read_field (S.◌∷◌ m (S.◌∷◌ c t)) =
    let rest = read_field t in if code m == code stop then some (S.[], S.◌∷◌ c t) else behind c rest

read-write_field : (s rest : String) → read_field (write_field s rest) ≡ some (s, rest)
read-write_field S.[] S.[] = refl
read-write_field S.[] (S.◌∷◌ c rest) = refl
read-write_field (S.◌∷◌ c s) rest = ap (behind c) (read-write_field s rest)

abbrev write_cursor : GoogleSyncCursor → String
write_cursor [] = S.[]
write_cursor ((email, entry) ∷ c) =
    write_field email
      (write_field entry.calendar_id (write_field entry.sync_token (write_cursor c)))

abbrev with_entry : String → String → String → Option GoogleSyncCursor → Option GoogleSyncCursor
with_entry email calendar_id sync_token none = none
with_entry email calendar_id sync_token (some c) =
    some ((email, record { calendar_id = calendar_id; sync_token = sync_token }) ∷ c)

abbrev third :
    (String → Option GoogleSyncCursor)
    → String
    → String
    → Option (String × String)
    → Option GoogleSyncCursor
third read a b none = none
third read a b (some (c, rest)) = with_entry a b c (read rest)

abbrev second :
    (String → Option GoogleSyncCursor) → String → Option (String × String) → Option GoogleSyncCursor
second read a none = none
second read a (some (b, rest)) = third read a b (read_field rest)

abbrev first :
    (String → Option GoogleSyncCursor) → Option (String × String) → Option GoogleSyncCursor
first read none = none
first read (some (a, rest)) = second read a (read_field rest)

abbrev read_cursor : ℕ → String → Option GoogleSyncCursor
read_cursor n S.[] = some []
read_cursor zero (S.◌∷◌ m t) = none
read_cursor (suc n) (S.◌∷◌ m t) = first (read_cursor n) (read_field (S.◌∷◌ m t))

abbrev size : String → ℕ
size S.[] = 0
size (S.◌∷◌ c t) = suc (size t)

size-write_field : (s rest : String) → size rest < size (write_field s rest)
size-write_field S.[] rest = omega arith
size-write_field (S.◌∷◌ c s) rest = omega (arith, size-write_field s rest)

size-write_cursor : (c : GoogleSyncCursor) → length c ≤ size (write_cursor c)
size-write_cursor [] = omega arith
size-write_cursor ((email, entry) ∷ c) = omega (
  arith,
  size-write_cursor c,
  size-write_field email
      (write_field entry.calendar_id (write_field entry.sync_token (write_cursor c))),
  size-write_field entry.calendar_id (write_field entry.sync_token (write_cursor c)),
  size-write_field entry.sync_token (write_cursor c),
)

read_cursor-field :
    (n : ℕ) (s rest : String)
    → read_cursor (suc n) (write_field s rest)
      ≡ first (read_cursor n) (read_field (write_field s rest))
read_cursor-field n S.[] rest = refl
read_cursor-field n (S.◌∷◌ c s) rest = refl

read-write_cursor :
    (c : GoogleSyncCursor) (n : ℕ) → length c ≤ n → read_cursor n (write_cursor c) ≡ some c
read-write_cursor [] n h = refl
read-write_cursor ((email, entry) ∷ c) zero h = absurd (omega arith)
read-write_cursor ((email, entry) ∷ c) (suc n) h =
    let token = write_field entry.sync_token (write_cursor c) in
    let calendar = write_field entry.calendar_id token in
    read_cursor-field n email calendar
    ∙ ap (first (read_cursor n)) (read-write_field email calendar)
    ∙ ap (second (read_cursor n) email) (read-write_field entry.calendar_id token)
    ∙ ap (third (read_cursor n) email entry.calendar_id)
        (read-write_field entry.sync_token (write_cursor c))
    ∙ ap (with_entry email entry.calendar_id entry.sync_token)
        (read-write_cursor c n (omega (arith, h)))

abbrev pub plain_json : CursorJson
plain_json = record { dump = write_cursor; validate = λ t. read_cursor (size t) t }

pub plain_json-faithful : (c : GoogleSyncCursor) → plain_json.validate (plain_json.dump c) ≡ some c
plain_json-faithful c = read-write_cursor c (size (write_cursor c)) (size-write_cursor c)
