-- ===== src/Google/Identity.antt =====
-- `external_id` and `split_external_id` of mapping.py, on the characters of the texts, and that they
-- are inverse to each other.
use nidaro.Base.{
  String, ◌≡◌, refl, sym, ap, ◌∙◌, inl, inr, Bool, true, false, ◌&&◌, ◌||◌, Option, none, some,
  ◌==◌, if◌then◌else◌, Bool-cases, Result, ok, err, is_truthy, str_eq, eq_iff,
}
use Prim.Native.Char.{Char, code}
use Prim.Native.String.{◌++◌ as concat}
use Prim.Native.String as S
use Prim.Native.String.append
use nidaro.Base.{is_truthy, err≢ok, ==_iff}
use mathlib.Core.Path.{ap₂}
use text.Mathlib.TextEquality.{Char-path}
use mathlib.Core.Bool.{true≢false}
use nidaro.Base.{value_error}

abbrev slash : Char
slash = "/"

abbrev is_slash : Char → Bool
is_slash c = code c == code slash

abbrev extended : Char → Option (String × String) → Option (String × String)
extended c none = none
extended c (some (a, b)) = some (S.◌∷◌ c a, b)

-- The text before the first "/" and the text behind it
unfoldable pub cut : String → Option (String × String)
cut S.[] = none
cut (S.◌∷◌ c s) = let rest = cut s in if is_slash c then some ("", s) else extended c rest

unfoldable pub external_id : String → String → String → String
external_id email calendar_id google_event_id =
    concat email (S.◌∷◌ slash (concat calendar_id (S.◌∷◌ slash google_event_id)))

abbrev parts_of : String → Option (String × String) → Result (String × (String × String))
parts_of email none = err value_error
parts_of email (some (calendar_id, google_event_id)) =
    if is_truthy email && (is_truthy calendar_id && is_truthy google_event_id)
    then ok (email, (calendar_id, google_event_id))
    else err value_error

abbrev split_rest : Option (String × String) → Result (String × (String × String))
split_rest none = err value_error
split_rest (some (email, rest)) = parts_of email (cut rest)

-- `composite.split("/", 2)` into three parts that are not empty
unfoldable pub split_external_id : String → Result (String × (String × String))
unfolding cut
split_external_id composite = split_rest (cut composite)

abbrev pub has_slash : String → Bool
has_slash S.[] = false
has_slash (S.◌∷◌ c s) = is_slash c || has_slash s

cut-concat : (a b : String) → has_slash a ≡ false → cut (concat a (S.◌∷◌ slash b)) ≡ some (a, b)
unfolding cut
cut-concat S.[] b h = rw (append.nil (S.◌∷◌ slash b)) refl
cut-concat (S.◌∷◌ c a) b h = elim (Bool-cases (is_slash c)) [
  | inl y ↦ absurd (true≢false (rw y at h))
  | inr n ↦ rw (append.cons c a (S.◌∷◌ slash b), n, cut-concat a b (rw n at h)) refl
]

abbrev default : {A : Type 0} → A → Option A → A
default a none = a
default a (some b) = b

same_pair : {A B : Type 0} (p q : A × B) → some p ≡ some q → (p.0 ≡ q.0) × (p.1 ≡ q.1)
same_pair p q e = (ap (λ o. (default p o).0) e, ap (λ o. (default p o).1) e)

extended-inverse :
    (c : Char) (o : Option (String × String)) (a b : String)
    → extended c o ≡ some (a, b)
    → (x : String) × (S.◌∷◌ c x ≡ a) × (o ≡ some (x, b))
extended-inverse c none a b e = cc
extended-inverse c (some (x, y)) a b e =
    let (first, second) = same_pair (S.◌∷◌ c x, y) (a, b) e in
    (x, first, ap (λ z. some (x, z)) second)

cut-inverse : (s a b : String) → cut s ≡ some (a, b) → concat a (S.◌∷◌ slash b) ≡ s
unfolding cut
cut-inverse S.[] a b e = cc
cut-inverse (S.◌∷◌ c s) a b e = elim (Bool-cases (is_slash c)) [
  | inl y ↦
      let (first, second) = same_pair ("", s) (a, b) (rw y at e) in
      ap₂ (λ x z. concat x (S.◌∷◌ slash z)) (sym first) (sym second)
      ∙ append.nil (S.◌∷◌ slash s)
      ∙ ap (λ d. S.◌∷◌ d s) (sym (Char-path c slash ((==_iff (code c) (code slash)).0 y)))
  | inr n ↦
      let (x, first, rest) = extended-inverse c (cut s) a b (rw n at e) in
      ap (λ z. concat z (S.◌∷◌ slash b)) (sym first)
      ∙ append.cons c x (S.◌∷◌ slash b)
      ∙ ap (λ z. S.◌∷◌ c z) (cut-inverse s x b rest)
]

parts_of-inverse :
    (a : String) (o : Option (String × String)) (p : String × (String × String))
    → parts_of a o ≡ ok p
    → (p.0 ≡ a) × (o ≡ some p.1)
parts_of-inverse a none p e = absurd (err≢ok e)
parts_of-inverse a (some (b, d)) p e =
    elim (Bool-cases (is_truthy a && (is_truthy b && is_truthy d))) [
      | inl y ↦ same p (rw y at e)
      | inr n ↦ absurd (err≢ok (rw n at e))
    ]
  where
    same :
        (p : String × (String × String))
        → ok (a, (b, d)) ≡ ok p
        → (p.0 ≡ a) × (some (b, d) ≡ some p.1)
    same p e = (cc, cc)

split-inverse :
    (s : String) (o : Option (String × String)) (p : String × (String × String))
    → cut s ≡ o
    → split_rest o ≡ ok p
    → external_id p.0 p.1.0 p.1.1 ≡ s
unfolding external_id
split-inverse s none p e k = absurd (err≢ok k)
split-inverse s (some (a, r)) p e k =
    let (first, rest) = parts_of-inverse a (cut r) p k in
    ap₂ (λ x z. concat x (S.◌∷◌ slash z)) first (cut-inverse r p.1.0 p.1.1 rest)
    ∙ cut-inverse s a r e

pub cut-external_id :
    (a b d : String)
    → has_slash a ≡ false
    → has_slash b ≡ false
    → split_external_id (external_id a b d) ≡ parts_of a (some (b, d))
unfolding split_external_id external_id
cut-external_id a b d x y = rw (cut-concat a (concat b (S.◌∷◌ slash d)) x, cut-concat b d y) refl

-- An external identifier of parts that are not empty, the first two without a slash, is split into
-- these parts; and whatever text is split gives back that text when its parts are put together.
pub split-external_id :
    (email calendar_id event_id : String)
    → has_slash email ≡ false
    → has_slash calendar_id ≡ false
    → is_truthy email ≡ true
    → is_truthy calendar_id ≡ true
    → is_truthy event_id ≡ true
    → (split_external_id (external_id email calendar_id event_id)
        ≡ ok (email, (calendar_id, event_id)))
      × ((composite a b d : String)
          → split_external_id composite ≡ ok (a, (b, d))
          → external_id a b d ≡ composite)
unfolding split_external_id
split-external_id email calendar_id event_id x y p q r = (
  cut-external_id email calendar_id event_id x y ∙ rw (p, q, r) refl,
  (λ composite a b d e. split-inverse composite (cut composite) (a, (b, d)) refl e),
)

concat-cancel : (a x y : String) → concat a x ≡ concat a y → x ≡ y
concat-cancel S.[] x y e = sym (append.nil x) ∙ e ∙ append.nil y
concat-cancel (S.◌∷◌ c a) x y e =
    concat-cancel a x y (tail_same c (sym (append.cons c a x) ∙ e ∙ append.cons c a y))
  where
    tail_same : (c : Char) {x y : String} → S.◌∷◌ c x ≡ S.◌∷◌ c y → x ≡ y
    tail_same c e = cc

-- The identifiers of one calendar's events tell the events apart.
pub same-external_id :
    (a b x y : String) → str_eq (external_id a b x) (external_id a b y) ≡ str_eq x y
unfolding external_id
same-external_id a b x y = elim (Bool-cases (str_eq x y)) [
  | inl e ↦
      (eq_iff (external_id a b x) (external_id a b y)).1 (ap (external_id a b) ((eq_iff x y).0 e))
      ∙ sym e
  | inr n ↦ elim (Bool-cases (str_eq (external_id a b x) (external_id a b y))) [
    | inr m ↦ m ∙ sym n
    | inl e ↦ absurd (
        true≢false (
          sym (
            (eq_iff x y).1 (
              tail (
                concat-cancel b _ _ (
                  tail
                    (concat-cancel a _ _ ((eq_iff (external_id a b x) (external_id a b y)).0 e))))))
          ∙ n))
  ]
]
  where
    tail : {x y : String} → S.◌∷◌ slash x ≡ S.◌∷◌ slash y → x ≡ y
    tail e = cc
