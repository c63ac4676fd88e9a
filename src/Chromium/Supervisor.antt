-- ===== src/Chromium/Supervisor.antt =====
-- `ChromiumSupervisor`. The package chrome_agent and the two callbacks are actions on a world, which
-- may raise; `stop()` is called by other tasks, so the running flag is read from the world. The
-- loops go on for as long as the flag stands: a step is one round of a loop, and `run` makes any
-- number of them. A cancellation from outside, and the texts that are logged, are left out.
use nidaro.Base.{
  ℕ, zero, suc, ◌*◌, min, String, Bool, Option, none, some, List, [], ◌∷◌, if◌then◌else◌, Result,
  ok, err, Exec, ◌>>=◌,
}

pub record Environment (W Client : Type 0) : Type 0 where
  pub is_running : W → Bool
  pub resolve_ws_url : Exec W String
  pub connect_client : String → Exec W Client
  pub on_attach : Client → Exec W (Unit {0})
  pub on_detach : Option (Exec W (Unit {0}))
  pub send_get_version : Client → Exec W (Unit {0})
  pub close : Client → Exec W (Unit {0})
  pub sleep : ℕ → W → W
  pub poll_seconds : ℕ
  pub ping_seconds : ℕ
  pub max_backoff_seconds : ℕ

-- The calls that the supervisor makes of its consumer, its client and the clock
pub data Call (Client : Type 0) : Type 0 where
  slept : ℕ → Call Client
  attached closed : Client → Call Client
  detached : Call Client

-- `_client`, the world, and the calls so far, the newest first
pub record Supervised (W Client : Type 0) : Type 0 where
  pub client : Option Client
  pub world : W
  pub calls : List (Call Client)

-- Where `run` stands: in the loop of `_attach` with this back-off, in that of `_watch`, or returned.
pub data Phase (Client : Type 0) : Type 0 where
  attaching : ℕ → Phase Client
  watching : Client → Phase Client
  returned : Phase Client

module _ {W Client : Type 0} (env : Environment W Client) where
  -- The `finally` of `run`
  abbrev pub finish : Option Client → Supervised W Client → Phase Client × Supervised W Client
  finish none s = (returned, s)
  finish (some c) s = (
    returned,
    record s { client = none; world = (env.close c s.world).1; calls = closed c ∷ s.calls },
  )

  -- One round of `_attach`, after the attempt to connect
  abbrev pub attach_outcome :
      ℕ → Supervised W Client → Result Client → W → Phase Client × Supervised W Client
  attach_outcome backoff s (err e) w = (
    attaching (min (backoff * 2) env.max_backoff_seconds),
    record s { world = env.sleep backoff w; calls = slept backoff ∷ s.calls },
  )
  attach_outcome backoff s (ok c) w = (
    watching c,
    record { client = some c; world = (env.on_attach c w).1; calls = attached c ∷ s.calls },
  )

  abbrev pub attempt : Exec W Client
  attempt = env.resolve_ws_url >>= env.connect_client

  -- The consumer that `_lose` tells, where there is one
  abbrev pub told : Option (Exec W (Unit {0})) → W → W
  told none w = w
  told (some on_detach) w = (on_detach w).1

  abbrev pub tell : Option (Exec W (Unit {0})) → List (Call Client) → List (Call Client)
  tell none calls = calls
  tell (some on_detach) calls = detached ∷ calls

  unfoldable pub lose : Client → Supervised W Client → Supervised W Client
  lose c s = record {
    client = none;
    world = told env.on_detach (env.close c s.world).1;
    calls = tell env.on_detach (closed c ∷ s.calls);
  }

  -- One round of `_watch`, after the ping
  abbrev pub watch_outcome :
      Client → Supervised W Client → Result (Unit {0}) → Phase Client × Supervised W Client
  watch_outcome c s (ok x) = (watching c, s)
  watch_outcome c s (err e) = (attaching env.poll_seconds, lose c s)

  abbrev pub pinged : Client → Supervised W Client → Phase Client × Supervised W Client
  pinged c s =
      let out = env.send_get_version c (env.sleep env.ping_seconds s.world) in
      watch_outcome c (record s { world = out.1; calls = slept env.ping_seconds ∷ s.calls }) out.0

  unfoldable pub step : Phase Client → Supervised W Client → Phase Client × Supervised W Client
  step (attaching backoff) s =
      if env.is_running s.world
      then attach_outcome backoff s (attempt s.world).0 (attempt s.world).1
      else finish s.client s
  step (watching c) s = if env.is_running s.world then pinged c s else finish s.client s
  step returned s = (returned, s)

  -- `run`, from the first round on
  unfoldable pub run : ℕ → Phase Client → Supervised W Client → Phase Client × Supervised W Client
  run zero phase s = (phase, s)
  run (suc n) phase s = let next = step phase s in run n next.0 next.1

  abbrev pub started : W → Supervised W Client
  started w = record { client = none; world = w; calls = [] }
