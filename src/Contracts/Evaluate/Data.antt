-- ===== src/Contracts/Evaluate/Data.antt =====
-- What an evaluation reads and returns (packages/contracts/src/task-contracts.mjs).
use wendkeep.Prelude.{Bool, true, false, Option, List, [], ◌∷◌}
use wendkeep.Prelude.Text.{Text, text}
use wendkeep.Prelude.Json.{Json}
use wendkeep.Contracts.Task.Data.{Binding}

pub data FindingCode : Type 0 where
  stale_context stale_head stale_tasks stale_spec stale_artifact_manifest : FindingCode
  checkbox_open requirement_missing sensor_missing_or_red artifact_missing : FindingCode
  dependency_open tdd_attestation_missing_or_invalid : FindingCode

-- finding.code.startsWith('TASK_CONTRACT_STALE_')
unfoldable pub is_stale_code : FindingCode → Bool
is_stale_code stale_context = true
is_stale_code stale_head = true
is_stale_code stale_tasks = true
is_stale_code stale_spec = true
is_stale_code stale_artifact_manifest = true
is_stale_code _ = false

-- The recovery hint, which is the same in each finding, is left out.
pub record Finding : Type 0 where
  pub code : FindingCode
  pub field : Text
  pub expected : Json
  pub observed : Json

pub record BindingField : Type 0 where
  pub name : Text
  pub code : FindingCode
  pub read : Binding → Text

abbrev pub binding_fields : List BindingField
binding_fields =
    record {
      name = text "active_context_id";
      code = stale_context;
      read = λ (b : Binding). b.active_context_id;
    }
    ∷ record { name = text "head_sha"; code = stale_head; read = λ (b : Binding). b.head_sha }
    ∷ record {
      name = text "tasks_sha256";
      code = stale_tasks;
      read = λ (b : Binding). b.tasks_sha256;
    }
    ∷ record {
      name = text "effective_spec_sha256";
      code = stale_spec;
      read = λ (b : Binding). b.effective_spec_sha256;
    }
    ∷ record {
      name = text "artifact_manifest_sha256";
      code = stale_artifact_manifest;
      read = λ (b : Binding). b.artifact_manifest_sha256;
    }
    ∷ []

pub record SensorResult : Type 0 where
  pub id : Text
  pub status : Text

pub record ArtifactResult : Type 0 where
  pub name : Text
  pub satisfied : Bool

-- `completed_task_ids` is the argument of evaluateTaskContract below.
pub record Options : Type 0 where
  pub current_binding : Option Binding
  pub available_requirement_ids : List Text
  pub sensor_results : List SensorResult
  pub artifact_results : List ArtifactResult

pub data EvaluationStatus : Type 0 where
  completed stale blocked : EvaluationStatus

pub record Evaluation : Type 0 where
  pub task_id : Text
  pub contract_id : Text
  pub phase : Text
  pub can_complete : Bool
  pub status : EvaluationStatus
  pub missing_requirements : List Text
  pub missing_sensors : List Text
  pub missing_artifacts : List Text
  pub open_dependencies : List Text
  pub blocking_findings : List Finding
