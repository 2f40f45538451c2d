-- ===== src/Tests/Tdd.antt =====
-- Runs of packages/contracts/src/tdd-attestation.mjs.
use wendkeep.Prelude.{◌≡◌, refl, true, false, none, some, [], ◌∷◌, sort}
use wendkeep.Prelude.Text.{Text, text, text_eq, text_leb, trim, is_space, dedupe}
use wendkeep.Prelude.Result.{Result, ok, err}
use wendkeep.Contracts.Tdd.Paths.{TddError}
use wendkeep.Contracts.Tdd.Observe.{Causal, RepoSnapshot, command_observation, raw_output}
use wendkeep.Contracts.Tdd.Machine.{
  RedInput, GreenInput, create_red_attestation, complete_green_attestation,
  evaluate_tdd_attestation, history_of,
}
use wendkeep.Contracts.Tdd.Attestation.{Attestation, invalid, green_observed, Green}
use wendkeep.Contracts.Tdd.History.{Reached-IsValid, IsCausal}
use wendkeep.Contracts.Tdd.Bounds.{command_observation_bounds, IsTailOf}
use wendkeep.Contracts.Tdd.Valid.{Reached, last_green, observed_red, completed_green, IsValid}
use wendkeep.Contracts.Tdd.Green.{complete_green_causal, evaluate_tdd_green}
use wendkeep.Tests.Platform.{toy}

abbrev identity : Causal
identity = record {
  project_id = text "p";
  repository_id = text "r";
  worktree_id = text "w";
  work_session_id = text "s";
  change_slug = text "c";
  task_id = text "1";
  requirement_id = text "R1";
}

abbrev snapshot_at : Text → Text → RepoSnapshot
snapshot_at head hash = record {
  branch = text "b";
  head_sha = head;
  index_tree_sha = text "i";
  worktree_digest = text "d";
  change_manifest = (text "src/a.mjs", hash) ∷ (text "tests/a.mjs", hash) ∷ [];
}

abbrev red_input : RedInput
red_input = record {
  identity = identity;
  test_paths = text "./tests" ∷ [];
  snapshot = snapshot_at (text "h1") (text "1");
  command = text "npm test";
  result = record { status = some 1; stdout = text "fail"; stderr = []; error_message = [] };
  observed_at = text "2026";
}

abbrev green_input : GreenInput
green_input = record {
  identity = identity;
  snapshot = snapshot_at (text "h2") (text "2");
  command = text "npm test";
  result = record { status = some 0; stdout = text "pass"; stderr = []; error_message = [] };
  is_ancestor = true;
  test_paths = [];
  committed_paths = [];
  observed_at = text "2026";
}

abbrev sanitize : Text → Text
sanitize t = t

or_empty : Result TddError Attestation → Attestation
or_empty (ok a) = a
or_empty (err e) = record {
  attestation_id = [];
  causal = identity;
  state = invalid;
  test_paths = [];
  red = none;
  green = none;
  green_history = [];
  waiver = none;
  test_paths_changed = false;
  invalid_reason = none;
}

red : Attestation
unfolding or_empty create_red_attestation
red = or_empty (create_red_attestation toy sanitize red_input)

red_made : create_red_attestation toy sanitize red_input ≡ ok red
unfolding red trim is_space dedupe text_eq
red_made = refl

green : Attestation
unfolding or_empty complete_green_attestation
green = or_empty (complete_green_attestation toy sanitize red green_input)

green_made : complete_green_attestation toy sanitize red green_input ≡ ok green
unfolding green red text_eq trim is_space dedupe sort text_leb
green_made = refl

green_is_green : green.state ≡ green_observed
unfolding green red text_eq trim is_space dedupe sort text_leb
green_is_green = refl

reaches : Reached toy sanitize green
reaches = completed_green green_input (observed_red red_input red_made) green_made

Reached-IsValid_example :
    IsValid green × (green.state ≡ green_observed → IsCausal (last_green reaches) green)
Reached-IsValid_example = Reached-IsValid toy sanitize green reaches

complete_green_causal_example : green.green_history ≡ history_of red
complete_green_causal_example =
    (complete_green_causal toy sanitize red green green_input green_made green_is_green).6

abbrev recorded : Green
recorded = record {
  snapshot = snapshot_at (text "h2") (text "2");
  execution = command_observation toy sanitize (text "npm test") green_input.result (text "2026");
  production_paths = text "src/a.mjs" ∷ [];
}

abbrev settled : Attestation
settled = record {
  attestation_id = text "a";
  causal = identity;
  state = green_observed;
  test_paths = text "tests" ∷ [];
  red = none;
  green = some recorded;
  green_history = [];
  waiver = none;
  test_paths_changed = false;
  invalid_reason = none;
}

evaluate_tdd_green_example :
    (evaluate_tdd_attestation settled (snapshot_at (text "h2") (text "3")) false).state
    ≡ green_observed
evaluate_tdd_green_example =
    (evaluate_tdd_green settled recorded (snapshot_at (text "h2") (text "3")) false refl).1
      (refl, refl, refl, refl, refl)

command_observation_bounds_example :
    IsTailOf
      (command_observation toy sanitize
        (text "npm test")
        green_input.result
        (text "2026")).output_tail
      (sanitize (raw_output green_input.result))
command_observation_bounds_example =
    (command_observation_bounds toy sanitize (text "npm test") green_input.result (text "2026")).2
