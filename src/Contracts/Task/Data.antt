-- ===== src/Contracts/Task/Data.antt =====
-- What deriveTaskContracts reads and returns (packages/contracts/src/task-contracts.mjs).
use wendkeep.Prelude.{Bool, Option, List}
use wendkeep.Prelude.Text.{Text}
use wendkeep.Prelude.Table.{Table}
use wendkeep.Prelude.Json.{Json}

pub data ContractError : Type 0 where
  identity_missing phase_invalid external_artifact_invalid handoff_invalid : ContractError
  handoff_structured_required capability_unavailable : ContractError

pub record Binding : Type 0 where
  pub project_id : Text
  pub active_context_id : Text
  pub head_sha : Text
  pub tasks_sha256 : Text
  pub effective_spec_sha256 : Text
  pub artifact_manifest_sha256 : Text

-- A task as `parseTasks` reads it; an empty `phase` is one that is missing.
pub record Task : Type 0 where
  pub id : Text
  pub title : Text
  pub done : Bool
  pub phase : Text
  pub reqs : List Text
  pub dependencies : List Text
  pub artifacts : List Text
  pub sensors : Option (List Text)
  pub sensor : Option Text
  pub tdd : Bool
  pub inputs : List Text
  pub expected_outputs : List Text
  pub acceptance_criteria : Option (List Text)

pub record TaskLease : Type 0 where
  pub state : Text
  pub expires_at : Text
  pub owner_session_id : Option Text
  pub owner_work_session_id : Option Text

-- An artifact specification: its name, and the object of artifacts.json.
pub record NamedSpec : Type 0 where
  pub name : Text
  pub value : Json

-- What is read of an attestation of test-driven work.
pub record AttestationRef : Type 0 where
  pub attestation_id : Text
  pub task_id : Text
  pub requirement_id : Text
  pub state : Text

pub record ContractInput : Type 0 where
  pub change_slug : Text
  pub binding : Binding
  pub artifact_specs : List NamedSpec
  pub profile : Text
  pub tdd_attestations : List AttestationRef
  pub tasks : List Task
  pub task_leases : Table TaskLease
  pub evidence_envelope_id : Option Text

pub data TaskStatus : Type 0 where
  pending_evaluation blocked ready : TaskStatus

pub record TaskContract : Type 0 where
  pub contract_id : Text
  pub task_id : Text
  pub change_slug : Text
  pub title : Text
  pub phase : Text
  pub status : TaskStatus
  pub inputs : List Text
  pub expected_outputs : List Text
  pub acceptance_criteria : List Text
  pub requirement_ids : List Text
  pub required_sensors : List Text
  pub required_artifacts : List Text
  pub dependencies : List Text
  pub owner : Option Text
  pub work_session_id : Option Text
  pub evidence_envelope_id : Option Text
  pub tdd_required : Bool
  pub tdd_attestation_id : Option Text
  pub checked : Bool
  pub authored_sha256 : Text
  pub binding : Binding
