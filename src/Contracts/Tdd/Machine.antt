-- ===== src/Contracts/Tdd/Machine.antt =====
-- `createRedAttestation`, `completeGreenAttestation`, `evaluateTddAttestation` and
-- `waiveTddAttestation` of packages/contracts/src/tdd-attestation.mjs.
use wendkeep.Prelude.{
  Bool, true, false, not, ◌&&◌, ◌||◌, Option, none, some, List, [], ◌∷◌, ◌++◌, if◌then◌else◌, take,
  sort,
}
use wendkeep.Prelude.Text.{Text, text_eq, text_leb}
use wendkeep.Prelude.Result.{Result, ok, ◌>>=◌, ◌>>◌, guard}
use wendkeep.Platform.{Platform}
use wendkeep.Contracts.Strings.{filled, unique_strings}
use wendkeep.Contracts.Evaluate.{is_empty}
use wendkeep.Contracts.Tdd.Paths.{
  TddError, waiver_authority_required, normalized_paths, test_paths_of, changed_manifest_paths,
  undeclared_paths,
}
use wendkeep.Contracts.Tdd.Observe.{
  RunResult, raw_output, command_observation, RepoSnapshot, Causal, texts_eq, same_identity,
  is_infrastructure_failure, succeeded,
}
use wendkeep.Contracts.Tdd.Attestation.{
  TddState, InvalidReason, Red, Green, Attestation, base_attestation, invalidate, red_observed,
  green_observed, waived, red_already_green, red_infrastructure_failure, causal_identity_mismatch,
  red_required, green_failed, green_not_causal_successor, implementation_not_after_red,
  mutation_survivor, green_stale_after_refactor,
}

pub record RedInput : Type 0 where
  pub identity : Causal
  pub test_paths : List Text
  pub snapshot : RepoSnapshot
  pub command : Text
  pub result : RunResult
  pub observed_at : Text

-- `classifyTddRedResult`: why the result is no observation of a failing test, if so.
unfoldable pub classify_red : RunResult → Option InvalidReason
unfolding succeeded is_infrastructure_failure raw_output
classify_red result =
    if succeeded result
    then some red_already_green
    else if is_infrastructure_failure (raw_output result)
    then some red_infrastructure_failure
    else none

-- The state after a red run that was classified.
unfoldable pub judged_red : Option InvalidReason → Attestation → Attestation
unfolding invalidate
judged_red none a = record a { state = red_observed; invalid_reason = none }
judged_red (some reason) a = invalidate a reason

unfoldable pub create_red_attestation :
    Platform → (Text → Text) → RedInput → Result TddError Attestation
unfolding base_attestation command_observation classify_red judged_red
create_red_attestation p sanitize i = do
  base ← base_attestation p i.identity i.test_paths
  ok (
      judged_red (classify_red i.result) (record base {
        red = some (record {
          snapshot = i.snapshot;
          execution = command_observation p sanitize i.command i.result i.observed_at;
        });
      }))

pub record GreenInput : Type 0 where
  pub identity : Causal
  pub snapshot : RepoSnapshot
  pub command : Text
  pub result : RunResult
  pub is_ancestor : Bool
  pub test_paths : List Text
  pub committed_paths : List Text
  pub observed_at : Text

-- String(current.red?.branch || '')
unfoldable pub red_branch : Option Red → Text
red_branch none = []
red_branch (some r) = r.snapshot.branch

unfoldable pub is_observed : TddState → Bool
is_observed red_observed = true
is_observed green_observed = true
is_observed _ = false

-- The checks that come before any path is looked at: the reason to refuse, if there is one.
unfoldable pub green_refusal : Attestation → GreenInput → Option InvalidReason
unfolding same_identity red_branch is_observed succeeded
green_refusal a i =
    if not (same_identity a.causal i.identity) || not (text_eq (red_branch a.red) i.snapshot.branch)
    then some causal_identity_mismatch
    else if elim a.red [ none ↦ true | some r ↦ not (is_observed a.state) ]
    then some red_required
    else if not (succeeded i.result)
    then some green_failed
    else if not i.is_ancestor
    then some green_not_causal_successor
    else none

-- The changed paths since the red snapshot that are no declared test paths.
unfoldable pub production_paths_of :
    Red → Attestation → GreenInput → List Text → Result TddError (List Text)
unfolding normalized_paths unique_strings changed_manifest_paths undeclared_paths
production_paths_of red a i next_test_paths = do
  all_test_paths ← normalized_paths (unique_strings (a.test_paths ++ next_test_paths))
  changed ← normalized_paths (
      unique_strings (
        changed_manifest_paths red.snapshot.change_manifest i.snapshot.change_manifest
        ++ i.committed_paths))
  undeclared_paths all_test_paths (sort text_leb changed)

-- The history, with the green observation that is about to be replaced.
unfoldable pub history_of : Attestation → List Green
history_of a = elim a.green [ none ↦ a.green_history | some g ↦ a.green_history ++ g ∷ [] ]

-- The state after a green run, by the paths outside the tests that changed.
unfoldable pub settle_green :
    Platform → (Text → Text) → Attestation → GreenInput → List Text → List Text → Attestation
unfolding command_observation invalidate history_of texts_eq
settle_green p sanitize a i next_test_paths [] = invalidate a implementation_not_after_red
settle_green p sanitize a i next_test_paths (path ∷ paths) = record a {
  state = green_observed;
  invalid_reason = none;
  test_paths = next_test_paths;
  green = some (record {
    snapshot = i.snapshot;
    execution = command_observation p sanitize i.command i.result i.observed_at;
    production_paths = path ∷ paths;
  });
  green_history = history_of a;
  test_paths_changed = not (texts_eq a.test_paths next_test_paths);
}

-- The end of `completeGreenAttestation`, for an attestation with a red observation.
unfoldable pub observe_green :
    Platform → (Text → Text) → Red → Attestation → GreenInput → Result TddError Attestation
unfolding production_paths_of test_paths_of settle_green is_empty
observe_green p sanitize red a i = do
  next_test_paths ← test_paths_of (if is_empty i.test_paths then a.test_paths else i.test_paths)
  production_paths ← production_paths_of red a i next_test_paths
  ok (settle_green p sanitize a i next_test_paths production_paths)

unfoldable pub complete_green_attestation :
    Platform → (Text → Text) → Attestation → GreenInput → Result TddError Attestation
unfolding green_refusal observe_green invalidate
complete_green_attestation p sanitize a i = elim (green_refusal a i) [
  | some reason ↦ ok (invalidate a reason)
  | none ↦ elim a.red [
    | none ↦ ok (invalidate a red_required)
    | some red ↦ observe_green p sanitize red a i
  ]
]

-- Is the repository another one than the green observation saw?
unfoldable pub is_stale_green : Option Green → RepoSnapshot → Bool
is_stale_green none now =
    filled now.head_sha || filled now.index_tree_sha || filled now.worktree_digest
is_stale_green (some g) now =
    not (text_eq g.snapshot.head_sha now.head_sha)
    || not (text_eq g.snapshot.index_tree_sha now.index_tree_sha)
    || not (text_eq g.snapshot.worktree_digest now.worktree_digest)

-- `evaluateTddAttestation` of an attestation that there is, by its state; `survivors` says that
-- there are mutants that survived.
unfoldable pub evaluate_in : TddState → Attestation → RepoSnapshot → Bool → Attestation
unfolding is_stale_green invalidate
evaluate_in green_observed a now survivors =
    if survivors
    then invalidate a mutation_survivor
    else if is_stale_green a.green now
    then invalidate a green_stale_after_refactor
    else a
evaluate_in _ a now survivors = a

unfoldable pub evaluate_tdd_attestation : Attestation → RepoSnapshot → Bool → Attestation
unfolding evaluate_in
evaluate_tdd_attestation a now survivors = evaluate_in a.state a now survivors

pub record WaiverInput : Type 0 where
  pub identity : Causal
  pub test_paths : List Text
  pub authority : Text
  pub reason : Text
  pub observed_at : Text

unfoldable pub waive_tdd_attestation :
    Platform → (Text → Text) → WaiverInput → Result TddError Attestation
unfolding base_attestation
waive_tdd_attestation p sanitize i = do
  let authority = sanitize i.authority
  let reason = sanitize i.reason
  guard (filled authority && filled reason) waiver_authority_required
  base ← base_attestation p i.identity i.test_paths
  ok (record base {
    state = waived;
    invalid_reason = none;
    waiver = some (record {
      authority = take 200 authority;
      reason = take 1000 reason;
      observed_at = i.observed_at;
    });
  })
