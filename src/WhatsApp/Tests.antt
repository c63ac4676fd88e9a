-- ===== src/WhatsApp/Tests.antt =====
-- The theorem of the staging at a small input.
use nidaro.Base.{String, ◌≡◌, refl, true, none, some, [], arith, any, text_length, Option, ok, ◌∷◌}
use nidaro.WhatsApp.Staging.{WhatsAppEvent, Incoming, State, has_wamid, stage}
use nidaro.WhatsApp.Once.{WamidsUnique, stage_once}

abbrev hello : Incoming String
hello = record {
  household_id = 7;
  wamid = "wamid.1";
  source = "webhook";
  type = "text";
  body = some "hello";
  from_user_id = none;
  wa_id = none;
  group_id = none;
  context_id = none;
  forwarded = none;
  payload = none;
  observed_at = 0;
}

abbrev retried : Incoming String
retried = record hello { source = "web_bridge"; body = none }

abbrev nothing_staged : State String
nothing_staged = record { households = 7 ∷ []; events = []; next_id = 1 }

nothing_staged-WamidsUnique : WamidsUnique nothing_staged
nothing_staged-WamidsUnique = ((λ w. omega arith), refl)

stage_once_example :
    let out = stage "{}" hello nothing_staged in
    WamidsUnique out.1
    × ((o : Option (WhatsAppEvent String)) × (out.0 ≡ ok o))
    × (any (has_wamid "wamid.1") out.1.events ≡ true)
    × ((stage "{}" retried out.1).0 ≡ ok none)
    × ((stage "{}" retried out.1).1.events ≡ out.1.events)
unfolding text_length
stage_once_example =
    stage_once "{}" hello retried nothing_staged nothing_staged-WamidsUnique refl refl refl refl
