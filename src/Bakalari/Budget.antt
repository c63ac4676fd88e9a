-- ===== src/Bakalari/Budget.antt =====
-- Requests by their kind, and the actions that make at most so many of each.
use nidaro.Base.{
  ℕ, suc, ◌+◌, ◌≤◌, ◌≡◌, sym, subst, inl, inr, arith, Exn, Exec, try_except, ◌>>=◌, Result-cases,
}
use nidaro.Bakalari.Client.{Form, School, Session, password_grant, refresh_grant}

-- The requests so far, by their kind
pub record Counts : Type 0 where
  pub gets : ℕ
  pub passwords : ℕ
  pub refreshes : ℕ

abbrev pub one_more : Form → Counts → Counts
one_more (password_grant user word) c = record c { passwords = suc c.passwords }
one_more (refresh_grant token) c = record c { refreshes = suc c.refreshes }

-- A server that also counts the requests it gets
abbrev pub counted : {Json W : Type 0} → School Json W → School Json (W × Counts)
counted school = record {
  get = λ path params token w.
      let r = school.get path params token w.0 in (r.0, (r.1, record w.1 { gets = suc w.1.gets }));
  post = λ form w. let r = school.post form w.0 in (r.0, (r.1, one_more form w.1));
}

abbrev pub budget : ℕ → ℕ → ℕ → Counts
budget g p r = record { gets = g; passwords = p; refreshes = r }

abbrev pub plus : Counts → Counts → Counts
plus b c = budget (b.gets + c.gets) (b.passwords + c.passwords) (b.refreshes + c.refreshes)

-- No more requests of each kind
abbrev pub AtMost : Counts → Counts → Type 0
AtMost c d = (c.gets ≤ d.gets) × (c.passwords ≤ d.passwords) × (c.refreshes ≤ d.refreshes)

AtMost-plus_trans :
    (b c : Counts) (x y z : Counts)
    → AtMost y (plus x b)
    → AtMost z (plus y c)
    → AtMost z (plus x (plus b c))
AtMost-plus_trans b c x y z (l, m, n) (u, v, w) = (omega arith, omega arith, omega arith)

AtMost-plus_more :
    (b c : Counts) (x y : Counts) → AtMost y (plus x b) → AtMost y (plus x (plus b c))
AtMost-plus_more b c x y (l, m, n) = (omega arith, omega arith, omega arith)

pub AtMost-plus_same : (x b : Counts) → AtMost x (plus x b)
AtMost-plus_same x b = (omega arith, omega arith, omega arith)

module _ {W : Type 0} where
  -- At most so many more requests of each kind, however the action ends
  abbrev pub Costs : {A : Type 0} → Counts → Exec (Session (W × Counts)) A → Type 0
  Costs b m = (s : Session (W × Counts)) → AtMost (m s).1.net.1 (plus s.net.1 b)

  pub Costs-bind :
      {A B : Type 0} (b c : Counts) (m : Exec (Session (W × Counts)) A)
      (f : A → Exec (Session (W × Counts)) B)
      → Costs b m
      → ((a : A) → Costs c (f a))
      → Costs (plus b c) (m >>= f)
  Costs-bind b c m f h k s = elim (Result-cases (m s).0) [
    | inl (a, done) ↦
        rw done
          (AtMost-plus_trans b c s.net.1 (m s).1.net.1 (f a (m s).1).1.net.1 (h s) (k a (m s).1))
    | inr (e, failed) ↦ rw failed (AtMost-plus_more b c s.net.1 (m s).1.net.1 (h s))
  ]

  pub Costs-try :
      {A : Type 0} (b : Counts) (m : Exec (Session (W × Counts)) A)
      (f : Exn → Exec (Session (W × Counts)) A)
      → Costs b m
      → ((e : Exn) (s : Session (W × Counts)) → (f e s).1 ≡ s)
      → Costs b (try_except m f)
  Costs-try b m f h k s = elim (Result-cases (m s).0) [
    | inl (a, done) ↦ rw done (h s)
    | inr (e, failed) ↦
        rw failed (subst (λ t. AtMost t.net.1 (plus s.net.1 b)) (sym (k e (m s).1)) (h s))
  ]
