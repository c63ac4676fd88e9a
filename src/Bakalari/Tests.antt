-- ===== src/Bakalari/Tests.antt =====
-- The theorems of the client on a server that refuses the token "old".
use nidaro.Base.{ℕ, suc, String, ◌≡◌, refl, inl, none, some, [], str_eq, if◌then◌else◌, ok}
use nidaro.Base.{ℕ, suc, String, ◌≡◌, refl, none, some, [], str_eq, if◌then◌else◌, ok}
use nidaro.Bakalari.Client.{
  BakalariTokens, Response, School, Session, TokenReply, Form, get_json, password_grant,
  refresh_grant, read_reply,
}
use nidaro.Bakalari.Budget.{AtMost, Counts, budget, counted, plus}
use nidaro.Bakalari.Requests.{get_json-Costs}
use nidaro.Bakalari.Recovery.{get_json-recovers}

abbrev answer_for : String → Response ℕ
answer_for token =
    if str_eq token "old"
    then record { status_code = 401; json = 0 }
    else record { status_code = 200; json = 42 }

abbrev grant_for : Form → TokenReply
grant_for (refresh_grant t) = record { token_status = 200; access = some "new"; renewed = none }
grant_for (password_grant u v) = record { token_status = 200; access = some "next"; renewed = none }

abbrev strict : School ℕ ℕ
strict = record {
  get = λ path params token w. (ok (answer_for token), suc w);
  post = λ form w. (ok (grant_for form), suc w);
}

abbrev expired_tokens : BakalariTokens
expired_tokens = record { access_token = "old"; refresh_token = some "r" }

abbrev new_tokens : BakalariTokens
new_tokens = record { access_token = "new"; refresh_token = none }

abbrev parent : Session ℕ
parent = record { username = "eva"; password = "secret"; tokens = none; net = 0 }

abbrev parent_counted : Session (ℕ × Counts)
parent_counted = record {
  username = "eva";
  password = "secret";
  tokens = none;
  net = (0, budget 0 0 0);
}

get_json-Costs_example :
    AtMost
      (get_json (counted strict) "/api/3/marks" [] parent_counted).1.net.1
      (plus (budget 0 0 0) (budget 2 2 1))
get_json-Costs_example = get_json-Costs strict "/api/3/marks" [] parent_counted

get_json-recovers_example :
    get_json strict "/api/3/marks" [] (record parent { tokens = some expired_tokens })
    ≡ (ok 42, record parent { tokens = some new_tokens; net = 3 })
unfolding read_reply
get_json-recovers_example =
    get_json-recovers strict "/api/3/marks" [] parent expired_tokens new_tokens "r"
      (answer_for "old") (answer_for "new") (grant_for (refresh_grant "r")) 1 2 2 3 refl refl refl
      refl (inl (refl, refl)) refl refl
