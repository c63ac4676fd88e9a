-- ===== src/Chromium/Tests.antt =====
-- The theorems of the supervisor on a browser that is down for two attempts.
use nidaro.Base.{ℕ, suc, ◌≡◌, refl, true, some, [], ◌∷◌, arith, ltb, if◌then◌else◌, ok, err}
use nidaro.Base.{other_error}
use nidaro.Chromium.Supervisor.{Environment, attaching, watching, slept, attached, run, started}
use nidaro.Chromium.Protocol.{Refines, run-Refines}
use nidaro.Chromium.Backoff.{wait, reattaches}

-- The world counts the attempts and the pings. The browser answers from the third attempt on, and
-- is lost at the first ping.
abbrev flaky : Environment ℕ ℕ
flaky = record {
  is_running = λ w. true;
  resolve_ws_url = λ w. (ok "ws://browser", w);
  connect_client = λ url w. (if ltb w 2 then err other_error else ok w, suc w);
  on_attach = λ c w. (ok tt, w);
  on_detach = some (λ w. (err other_error, w));
  send_get_version = λ c w. (err other_error, suc w);
  close = λ c w. (ok tt, w);
  sleep = λ n w. w;
  poll_seconds = 5;
  ping_seconds = 10;
  max_backoff_seconds = 60;
}

run-Refines_example :
    let out = run flaky 7 (attaching 5) (started flaky 0) in Refines flaky out.0 out.1
run-Refines_example = run-Refines flaky (omega arith) 7 0

reattaches_example : run flaky 3 (attaching 5) (started flaky 0) ≡ (
  watching 2,
  record {
    client = some 2;
    world = 3;
    calls = attached 2 ∷ slept (wait flaky 1) ∷ slept (wait flaky 0) ∷ [];
  },
)
reattaches_example =
    reattaches flaky 2 0 2 (omega arith)
      (refl, ((other_error, refl), (refl, ((other_error, refl), tt)))) refl refl
