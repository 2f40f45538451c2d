-- ===== src/Contracts/Evaluate.antt =====
-- `evaluateTaskContract` and `evaluateTaskContracts` of packages/contracts/src/task-contracts.mjs.
pub mod Laws
pub mod Completable
pub mod Ends
pub mod Refinement
pub mod Data
use wendkeep.Prelude.{
  ℕ, zero, suc, Bool, true, false, not, ◌&&◌, Option, none, some, List, [], ◌∷◌, ◌++◌,
  if◌then◌else◌, any, keep, length, map,
}
use wendkeep.Prelude.Text.{Text, text, text_eq, includes, trim}
use wendkeep.Prelude.Json.{Json, null, bool, str}
use wendkeep.Contracts.Strings.{filled, unique_strings, or_default, last_with}
use wendkeep.Contracts.Task.Data.{Binding, TaskContract}
use wendkeep.Contracts.Evaluate.Data.{
  FindingCode, is_stale_code, Finding, BindingField, binding_fields, SensorResult, ArtifactResult,
  Options, EvaluationStatus, Evaluation, checkbox_open, requirement_missing, sensor_missing_or_red,
  artifact_missing, dependency_open, tdd_attestation_missing_or_invalid, completed, stale, blocked,
}

unfoldable pub stale_findings : List BindingField → Binding → Binding → List Finding
stale_findings [] bound current = []
stale_findings (f ∷ fs) bound current =
    let rest = stale_findings fs bound current in
    if text_eq (f.read bound) (f.read current)
    then rest
    else record {
      code = f.code;
      field = f.name;
      expected = str (f.read bound);
      observed = str (f.read current);
    }
      ∷ rest

unfoldable pub checkbox_findings : Bool → List Finding
checkbox_findings true = []
checkbox_findings false =
    record {
      code = checkbox_open;
      field = text "checked";
      expected = bool true;
      observed = bool false;
    }
    ∷ []

-- One finding for each id, with what was observed of it.
unfoldable pub id_findings : FindingCode → Text → (Text → Json) → List Text → List Finding
id_findings code field observe [] = []
id_findings code field observe (id ∷ ids) =
    record { code = code; field = field; expected = str id; observed = observe id }
    ∷ id_findings code field observe ids

unfoldable pub tdd_findings : Bool → List Finding
tdd_findings false = []
tdd_findings true =
    record {
      code = tdd_attestation_missing_or_invalid;
      field = text "tdd_attestation_id";
      expected = str (text "green-observed or waived");
      observed = null;
    }
    ∷ []

-- sensors.get(id)?.status ?? null
unfoldable pub sensor_status : List SensorResult → Text → Json
unfolding last_with
sensor_status sensors id = elim (last_with (λ (s : SensorResult). s.id) id sensors) [
  | none ↦ null
  | some s ↦ str s.status
]

unfoldable pub is_green : List SensorResult → Text → Bool
unfolding last_with
is_green sensors id = elim (last_with (λ (s : SensorResult). s.id) id sensors) [
  | none ↦ false
  | some s ↦ text_eq s.status (text "green")
]

unfoldable pub is_satisfied : List ArtifactResult → Text → Bool
unfolding last_with
is_satisfied artifacts name = elim (last_with (λ (a : ArtifactResult). a.name) name artifacts) [
  | none ↦ false
  | some a ↦ a.satisfied
]

unfoldable pub tdd_missing : TaskContract → Bool
tdd_missing c =
    c.tdd_required && elim c.tdd_attestation_id [ none ↦ true | some id ↦ not (filled (trim id)) ]

unfoldable pub current_binding_of : Options → TaskContract → Binding
current_binding_of o c = elim o.current_binding [ none ↦ c.binding | some b ↦ b ]

-- uniqueStrings(ids).filter((id) => !test(id))
unfoldable pub failing : (Text → Bool) → List Text → List Text
unfolding unique_strings
failing test ids = keep (λ id. not (test id)) (unique_strings ids)

unfoldable pub is_empty {ℓ} : {A : Type ℓ} → List A → Bool
is_empty [] = true
is_empty (x ∷ xs) = false

unfoldable pub blocking_findings_of : Options → List Text → TaskContract → List Finding
unfolding stale_findings checkbox_findings id_findings tdd_findings sensor_status is_green
    is_satisfied tdd_missing current_binding_of failing unique_strings
blocking_findings_of o completed_task_ids c =
    stale_findings binding_fields c.binding (current_binding_of o c)
    ++ checkbox_findings c.checked
    ++ id_findings requirement_missing (text "requirement_ids") (λ id. null)
        (failing (includes (unique_strings o.available_requirement_ids)) c.requirement_ids)
    ++ id_findings sensor_missing_or_red (text "required_sensors") (sensor_status o.sensor_results)
        (failing (is_green o.sensor_results) c.required_sensors)
    ++ id_findings artifact_missing (text "required_artifacts") (λ id. null)
        (failing (is_satisfied o.artifact_results) c.required_artifacts)
    ++ id_findings dependency_open (text "dependencies") (λ id. null)
        (failing (includes (unique_strings completed_task_ids)) c.dependencies)
    ++ tdd_findings (tdd_missing c)

unfoldable pub evaluation_status : List Finding → EvaluationStatus
unfolding is_stale_code
evaluation_status [] = completed
evaluation_status (f ∷ fs) =
    if any (λ (g : Finding). is_stale_code g.code) (f ∷ fs) then stale else blocked

unfoldable pub evaluate_task_contract : Options → List Text → TaskContract → Evaluation
unfolding blocking_findings_of evaluation_status is_empty failing unique_strings is_green
    is_satisfied or_default
evaluate_task_contract o completed_task_ids c =
    let findings = blocking_findings_of o completed_task_ids c in
    record {
      task_id = c.task_id;
      contract_id = c.contract_id;
      phase = or_default c.phase (text "execute");
      can_complete = is_empty findings;
      status = evaluation_status findings;
      missing_requirements =
          failing (includes (unique_strings o.available_requirement_ids)) c.requirement_ids;
      missing_sensors = failing (is_green o.sensor_results) c.required_sensors;
      missing_artifacts = failing (is_satisfied o.artifact_results) c.required_artifacts;
      open_dependencies = failing (includes (unique_strings completed_task_ids)) c.dependencies;
      blocking_findings = findings;
    }

-- What `evaluateTaskContracts` reads of a snapshot.
pub record Snapshot : Type 0 where
  pub contracts : List TaskContract
  pub options : Options

-- One turn of the inner loop, with the set `completed` and the flag `changed`.
unfoldable pub visit : Options → TaskContract → List Text × Bool → List Text × Bool
unfolding evaluate_task_contract
visit o c (done, changed) =
    if includes done c.task_id
    then (done, changed)
    else if (evaluate_task_contract o done c).can_complete
    then (done ++ c.task_id ∷ [], true)
    else (done, changed)

-- The inner loop.
unfoldable pub sweep : Options → List TaskContract → List Text × Bool → List Text × Bool
unfolding visit
sweep o [] state = state
sweep o (c ∷ cs) state = sweep o cs (visit o c state)

-- The outer loop: sweeps until one changes nothing.
unfoldable pub sweep_loop : ℕ → Snapshot → List Text → List Text
unfolding sweep
sweep_loop zero s done = done
sweep_loop (suc f) s done =
    let (done', changed) = sweep s.options s.contracts (done, false) in
    elim changed [ true ↦ sweep_loop f s done' | false ↦ done' ]

-- Each sweep that changes something completes a contract, so there are no more of them than
-- contracts.
unfoldable pub completed_tasks : Snapshot → List Text
unfolding sweep_loop
completed_tasks s = sweep_loop (suc (length s.contracts)) s []

unfoldable pub final_evaluation : Snapshot → TaskContract → Evaluation
unfolding completed_tasks evaluate_task_contract
final_evaluation s c =
    evaluate_task_contract s.options (keep (λ id. not (text_eq id c.task_id)) (completed_tasks s)) c

unfoldable pub evaluate_task_contracts : Snapshot → List Evaluation
unfolding final_evaluation
evaluate_task_contracts s = map (final_evaluation s) s.contracts
