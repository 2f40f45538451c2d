-- ===== src/Contracts/Tdd/Attestation.antt =====
-- The attestation and its states (packages/contracts/src/tdd-attestation.mjs).
use wendkeep.Prelude.{Bool, false, Option, none, some, List, []}
use wendkeep.Prelude.Text.{Text}
use wendkeep.Prelude.Result.{Result, ok, ◌>>=◌}
use wendkeep.Platform.{Platform}
use wendkeep.Contracts.Strings.{canonical_json}
use wendkeep.Contracts.Tdd.Paths.{TddError, test_paths_of}
use wendkeep.Contracts.Tdd.Observe.{
  Execution, RepoSnapshot, Causal, attestation_identity, causal_json,
}

pub data TddState : Type 0 where
  invalid red_observed green_observed waived : TddState

pub data InvalidReason : Type 0 where
  red_already_green red_infrastructure_failure causal_identity_mismatch red_required : InvalidReason
  green_failed green_not_causal_successor implementation_not_after_red : InvalidReason
  mutation_survivor green_stale_after_refactor : InvalidReason

pub record Red : Type 0 where
  pub snapshot : RepoSnapshot
  pub execution : Execution

pub record Green : Type 0 where
  pub snapshot : RepoSnapshot
  pub execution : Execution
  pub production_paths : List Text

pub record Waiver : Type 0 where
  pub authority : Text
  pub reason : Text
  pub observed_at : Text

-- The profile, which is stored and not read here, is left out.
pub record Attestation : Type 0 where
  pub attestation_id : Text
  pub causal : Causal
  pub state : TddState
  pub test_paths : List Text
  pub red : Option Red
  pub green : Option Green
  pub green_history : List Green
  pub waiver : Option Waiver
  pub test_paths_changed : Bool
  pub invalid_reason : Option InvalidReason

unfoldable pub base_attestation : Platform → Causal → List Text → Result TddError Attestation
unfolding attestation_identity causal_json canonical_json test_paths_of
base_attestation p identity test_paths = do
  causal ← attestation_identity identity
  paths ← test_paths_of test_paths
  ok (record {
    attestation_id = p.sha256_hex (canonical_json (causal_json causal));
    causal = causal;
    state = invalid;
    test_paths = paths;
    red = none;
    green = none;
    green_history = [];
    waiver = none;
    test_paths_changed = false;
    invalid_reason = none;
  })

-- invalid(attestation, reason)
unfoldable pub invalidate : Attestation → InvalidReason → Attestation
invalidate a reason = record a { state = invalid; invalid_reason = some reason }
