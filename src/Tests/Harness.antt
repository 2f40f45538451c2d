-- ===== src/Tests/Harness.antt =====
-- Runs of packages/harness/src/operating-profile.mjs.
use wendkeep.Prelude.{◌≡◌, refl, some}
use wendkeep.Prelude.Text.{text, text_eq, trim, is_space, to_upper}
use wendkeep.Prelude.Json.{Json, str, obj, end, field}
use wendkeep.Prelude.Result.{ok}
use wendkeep.Sync.Event.Create.{get_field}
use wendkeep.Harness.Profile.{harness_of, set_operating_profile}
use wendkeep.Harness.Profile.Laws.{resolve-set_operating_profile}
use wendkeep.Harness.Lease.{
  ProfileLease, ProfileLeaseInput, TurnContext, create_profile_lease, evaluate_profile_lease,
  stored, task_sequence, is_lease,
}
use wendkeep.Harness.Lease.Laws.{evaluate-create_profile_lease}
use wendkeep.Tests.Platform.{toy}

abbrev config : Json
config = obj (
    field (text "name") (str (text "v")) (
      field (text "harness")
        (obj (field (text "profile") (str (text "OFF")) (field (text "mode") (str (text "x")) end)))
        end))

abbrev flow_config : Json
flow_config = obj (
    field (text "name") (str (text "v")) (
      field (text "harness")
        (obj
          (field (text "profile") (str (text "FLOW")) (field (text "mode") (str (text "x")) end)))
        end))

sets : set_operating_profile config (str (text " flow ")) ≡ ok flow_config
unfolding set_operating_profile text_eq trim is_space to_upper
sets = refl

resolve-set_operating_profile_example :
    get_field (text "mode") (harness_of flow_config) ≡ get_field (text "mode") (harness_of config)
resolve-set_operating_profile_example =
    (resolve-set_operating_profile config flow_config (str (text " flow ")) (text "mode") sets).3
      (λ e. cc)

abbrev request : ProfileLeaseInput
request = record {
  profile = text "guide";
  reason = text " risk ";
  session_id = text "s";
  turn_id = text "t";
  turn_sequence = some 4;
  lease_id = text "l";
  issued_at = text "now";
}

abbrev guide_lease : ProfileLease
guide_lease = record {
  lease_id = text "l";
  state = text "active";
  profile = text "GUIDE";
  requested_by = text "llm-harness";
  reason = text "risk";
  session_id = text "s";
  request_turn_id = text "t";
  request_turn_sequence = some 4;
  issued_at = text "now";
  expires_on = text "request-stop";
}

creates : create_profile_lease toy request ≡ ok guide_lease
unfolding create_profile_lease text_eq trim is_space to_upper
creates = refl

abbrev at_turn : TurnContext
at_turn = record { session_id = text "s"; turn_id = text " t "; turn_sequence = some 4 }

evaluate-create_profile_lease_example :
    evaluate_profile_lease toy (stored guide_lease) at_turn ≡ is_lease guide_lease
unfolding trim is_space task_sequence
evaluate-create_profile_lease_example =
    (evaluate-create_profile_lease toy request guide_lease at_turn 4 creates (refl, refl, refl)
        refl).1
      (refl, refl)
