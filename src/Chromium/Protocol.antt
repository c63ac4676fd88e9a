-- ===== src/Chromium/Protocol.antt =====
-- The calls of a supervisor as an abstract protocol, and that every run keeps to it.
use nidaro.Base.{
  subst, ℕ, zero, suc, ◌≤◌, ◌≡◌, refl, subst, inl, inr, Option, none, some, List, [], ◌∷◌, arith,
  Bool-cases, Result, ok, err, Exec,
}
use nidaro.Chromium.Supervisor.{
  Environment, Call, slept, attached, closed, detached, Supervised, Phase, attaching, watching,
  returned, finish, attach_outcome, lose, tell, watch_outcome, step, run, started,
}

-- Nobody attached, a client attached, or the supervision over
pub data Holding (Client : Type 0) : Type 0 where
  nobody : Holding Client
  holds : Client → Holding Client
  over : Holding Client

-- The sequences of calls that a consumer may see, the newest first. Without a client it waits between
-- the polling interval and the longest back-off; a client is attached only when there is none,
-- closed when it is lost or at the end, and the consumer is told of a loss and not of the end.
pub data Allowed {W Client : Type 0} (env : Environment W Client)
    : List (Call Client) → Holding Client → Type 0 where
  begins : Allowed env [] nobody
  waits :
      {calls : List (Call Client)} (n : ℕ)
      → env.poll_seconds ≤ n
      → n ≤ env.max_backoff_seconds
      → Allowed env calls nobody
      → Allowed env (slept n ∷ calls) nobody
  attaches :
      {calls : List (Call Client)} (c : Client)
      → Allowed env calls nobody
      → Allowed env (attached c ∷ calls) (holds c)
  pings :
      {calls : List (Call Client)} {c : Client}
      → Allowed env calls (holds c)
      → Allowed env (slept env.ping_seconds ∷ calls) (holds c)
  loses :
      {calls : List (Call Client)} {c : Client} (told : Exec W (Unit {0}))
      → env.on_detach ≡ some told
      → Allowed env calls (holds c)
      → Allowed env (detached ∷ closed c ∷ calls) nobody
  loses_silently :
      {calls : List (Call Client)} {c : Client}
      → env.on_detach ≡ none
      → Allowed env calls (holds c)
      → Allowed env (closed c ∷ calls) nobody
  ends : {calls : List (Call Client)} → Allowed env calls nobody → Allowed env calls over
  ends_holding :
      {calls : List (Call Client)} {c : Client}
      → Allowed env calls (holds c)
      → Allowed env (closed c ∷ calls) over

module _ {W Client : Type 0} (env : Environment W Client) where
  -- What the calls so far leave, by where the supervisor stands
  abbrev pub Refines : Phase Client → Supervised W Client → Type 0
  Refines (attaching backoff) s =
      (s.client ≡ none)
      × (Allowed env s.calls nobody
          × ((env.poll_seconds ≤ backoff) × (backoff ≤ env.max_backoff_seconds)))
  Refines (watching c) s = (s.client ≡ some c) × Allowed env s.calls (holds c)
  Refines returned s = (s.client ≡ none) × Allowed env s.calls over

  module _ (ordered : env.poll_seconds ≤ env.max_backoff_seconds) where
    attach_outcome-Refines :
        (b : ℕ) (s : Supervised W Client) (r : Result Client) (w : W)
        → Refines (attaching b) s
        → Refines (attach_outcome env b s r w).0 (attach_outcome env b s r w).1
    attach_outcome-Refines b s (ok c) w (idle, (calls, (low, high))) = (refl, attaches c calls)
    attach_outcome-Refines b s (err e) w (idle, (calls, (low, high))) =
        (idle, (waits b low high calls, (omega arith, omega arith)))

    tell-Allowed :
        (o : Option (Exec W (Unit {0}))) (c : Client) (calls : List (Call Client))
        → env.on_detach ≡ o
        → Allowed env calls (holds c)
        → Allowed env (tell env o (closed c ∷ calls)) nobody
    tell-Allowed none c calls e a = loses_silently e a
    tell-Allowed (some f) c calls e a = loses f e a

    finish_idle :
        (o : Option Client) (s : Supervised W Client)
        → o ≡ none
        → s.client ≡ none
        → Allowed env s.calls nobody
        → Refines (finish env o s).0 (finish env o s).1
    finish_idle none s e idle a = (idle, ends a)
    finish_idle (some c) s e idle a = cc

    finish_held :
        (o : Option Client) (c : Client) (s : Supervised W Client)
        → o ≡ some c
        → Allowed env s.calls (holds c)
        → Refines (finish env o s).0 (finish env o s).1
    finish_held none c s e a = cc
    finish_held (some d) c s e a =
        (refl, ends_holding (subst (λ x. Allowed env s.calls (holds x)) (same d c e) a))
      where
        same : (d c : Client) → some d ≡ some c → c ≡ d
        same d c e = cc

    watch_outcome-Refines :
        (c : Client) (s : Supervised W Client) (r : Result (Unit {0}))
        → Refines (watching c) s
        → Refines (watch_outcome env c s r).0 (watch_outcome env c s r).1
    unfolding lose
    watch_outcome-Refines c s (ok x) h = h
    watch_outcome-Refines c s (err e) (held, calls) =
        (refl, (tell-Allowed env.on_detach c s.calls refl calls, (omega arith, ordered)))

    step-Refines :
        (phase : Phase Client) (s : Supervised W Client)
        → Refines phase s
        → Refines (step env phase s).0 (step env phase s).1
    unfolding step
    step-Refines (attaching b) s h = elim (Bool-cases (env.is_running s.world)) [
      | inl y ↦ rw y (attach_outcome-Refines b s _ _ h)
      | inr n ↦ rw n (finish_idle s.client s h.0 h.0 h.1.0)
    ]
    step-Refines (watching c) s h = elim (Bool-cases (env.is_running s.world)) [
      | inl y ↦ rw y (watch_outcome-Refines c _ _ (h.0, pings h.1))
      | inr n ↦ rw n (finish_held s.client c s h.0 h.1)
    ]
    step-Refines returned s h = h

    run_from-Refines :
        (n : ℕ) (phase : Phase Client) (s : Supervised W Client)
        → Refines phase s
        → Refines (run env n phase s).0 (run env n phase s).1
    unfolding run
    run_from-Refines zero phase s h = h
    run_from-Refines (suc n) phase s h =
        run_from-Refines n (step env phase s).0 (step env phase s).1 (step-Refines phase s h)

    -- Whatever the browser, the consumer and other tasks do, and however long it runs, the calls of a
    -- supervisor keep to the protocol, the client it stores is the one that is attached, and once
    -- it has returned no client is left open. The polling interval is at most the longest back-off.
    pub run-Refines :
        (n : ℕ) (w : W)
        → let out = run env n (attaching env.poll_seconds) (started env w) in Refines out.0 out.1
    run-Refines n w =
        run_from-Refines n (attaching env.poll_seconds) (started env w)
          (refl, (begins, (omega arith, ordered)))
