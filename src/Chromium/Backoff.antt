-- ===== src/Chromium/Backoff.antt =====
-- How long a supervisor waits for a browser that is down, and that it attaches once it is back.
use nidaro.Base.{
  ℕ, zero, suc, ◌+◌, ◌*◌, ◌^◌, min, ◌≤◌, ◌≡◌, refl, sym, ap, ◌∙◌, true, none, some, List, [], ◌∷◌,
  arith, Exn, ok, err,
}
use native.Mathlib.Nat.{pow-suc, mul_assoc}
use nidaro.Base.{sym, ◌∙◌, ap}
use nidaro.Chromium.Supervisor.{
  Environment, Call, slept, attached, Supervised, attaching, watching, attempt, step, run, started,
}

capped : (a m b : ℕ) → b ≡ a * 2 → min (min a m * 2) m ≡ min b m
capped a m b e = omega (arith, e)

module _ {W Client : Type 0} (env : Environment W Client) where
  -- The wait after the attempt with this index: the polling interval, doubled each time and capped
  abbrev pub wait : ℕ → ℕ
  wait i = min (env.poll_seconds * 2 ^ i) env.max_backoff_seconds

  -- The world after failed attempts, from the one with the first index on
  abbrev pub waited : ℕ → ℕ → W → W
  waited i zero w = w
  waited i (suc k) w = waited (suc i) k (env.sleep (wait i) (attempt env w).1)

  -- So many attempts are made and fail, from the one with the first index on.
  abbrev pub Down : ℕ → ℕ → W → Type 0
  Down i zero w = Unit
  Down i (suc k) w =
      (env.is_running w ≡ true)
      × (((e : Exn) × ((attempt env w).0 ≡ err e))
          × Down (suc i) k (env.sleep (wait i) (attempt env w).1))

  -- The waits of the attempts before the one with this index, the newest first
  abbrev pub waits : ℕ → List (Call Client)
  waits zero = []
  waits (suc i) = slept (wait i) ∷ waits i

  wait-suc : (i : ℕ) → min (wait i * 2) env.max_backoff_seconds ≡ wait (suc i)
  wait-suc i = rw (pow-suc) (
      capped (env.poll_seconds * 2 ^ i) env.max_backoff_seconds (env.poll_seconds * (2 ^ i * 2))
        (sym (mul_assoc env.poll_seconds (2 ^ i) 2)))

  wait-zero : env.poll_seconds ≤ env.max_backoff_seconds → wait 0 ≡ env.poll_seconds
  wait-zero h = omega arith

  abbrev waiting : ℕ → W → Supervised W Client
  waiting i w = record { client = none; world = w; calls = waits i }

  step-down :
      (i : ℕ) (w : W) (e : Exn)
      → env.is_running w ≡ true
      → (attempt env w).0 ≡ err e
      → step env (attaching (wait i)) (waiting i w)
        ≡ (attaching (wait (suc i)), waiting (suc i) (env.sleep (wait i) (attempt env w).1))
  unfolding step
  step-down i w e up failed = rw (up, failed, sym (wait-suc i)) refl

  step-up :
      (i : ℕ) (w : W) (c : Client)
      → env.is_running w ≡ true
      → (attempt env w).0 ≡ ok c
      → step env (attaching (wait i)) (waiting i w) ≡ (
        watching c,
        record {
          client = some c;
          world = (env.on_attach c (attempt env w).1).1;
          calls = attached c ∷ waits i;
        },
      )
  unfolding step
  step-up i w c up back = rw (up, back) refl

  add_zero : (i : ℕ) → i + 0 ≡ i
  add_zero i = omega arith

  run-up :
      (i k : ℕ) (w : W) (c : Client)
      → Down i k w
      → env.is_running (waited i k w) ≡ true
      → (attempt env (waited i k w)).0 ≡ ok c
      → run env (suc k) (attaching (wait i)) (waiting i w) ≡ (
        watching c,
        record {
          client = some c;
          world = (env.on_attach c (attempt env (waited i k w)).1).1;
          calls = attached c ∷ waits (i + k);
        },
      )
  unfolding run
  run-up i zero w c down up back = rw (step-up i w c up back, add_zero i) refl
  run-up i (suc k) w c (running, ((e, failed), down)) up back =
      rw (step-down i w e running failed) (
        run-up (suc i) k _ c down up back
        ∙ ap
            (λ n. (
              watching c,
              record {
                client = some c;
                world = (env.on_attach c (attempt env (waited i (suc k) w)).1).1;
                calls = attached c ∷ waits n;
              },
            ))
            (omega arith))

  -- While the browser is down each attempt is followed by a wait, of the polling interval after the
  -- first one, doubled each time and never above the longest back-off; the attempt after it has come
  -- back attaches its client, and the consumer is told of it. The flag stands throughout, and the
  -- polling interval is at most the longest back-off.
  pub reattaches :
      (k : ℕ) (w : W) (c : Client)
      → env.poll_seconds ≤ env.max_backoff_seconds
      → Down 0 k w
      → env.is_running (waited 0 k w) ≡ true
      → (attempt env (waited 0 k w)).0 ≡ ok c
      → run env (suc k) (attaching env.poll_seconds) (started env w) ≡ (
        watching c,
        record {
          client = some c;
          world = (env.on_attach c (attempt env (waited 0 k w)).1).1;
          calls = attached c ∷ waits k;
        },
      )
  reattaches k w c ordered down up back =
      ap (λ b. run env (suc k) (attaching b) (started env w)) (sym (wait-zero ordered))
      ∙ run-up 0 k w c down up back
      ∙ ap
          (λ n. (
            watching c,
            record {
              client = some c;
              world = (env.on_attach c (attempt env (waited 0 k w)).1).1;
              calls = attached c ∷ waits n;
            },
          ))
          (omega arith)
