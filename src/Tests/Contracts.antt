-- ===== src/Tests/Contracts.antt =====
-- Runs of packages/contracts/src/task-contracts.mjs and verdict.mjs.
use wendkeep.Prelude.{◌≡◌, refl, true, false, none, some, List, [], ◌∷◌, Pairwise}
use wendkeep.Prelude.Text.{Text, text, text_eq, trim, is_space, dedupe, to_lower}
use wendkeep.Prelude.Result.{ok, err}
use wendkeep.Contracts.Strings.{unique_strings}
use wendkeep.Contracts.Task.{derive_task_contracts, derive_contract}
use wendkeep.Contracts.Task.Data.{Binding, Task, ContractInput, TaskContract, ready}
use wendkeep.Contracts.Evaluate.{
  Snapshot, evaluate_task_contract, evaluate_task_contracts, sweep, completed_tasks, tdd_missing,
  current_binding_of,
}
use wendkeep.Contracts.Evaluate.Data.{Options}
use wendkeep.Contracts.Evaluate.Laws.{evaluate_task_contract_lem}
use wendkeep.Contracts.Evaluate.Ends.{completed_tasks_settled}
use wendkeep.Contracts.Evaluate.Refinement.{IsRight, evaluate_derived_refines}
use wendkeep.Tests.Platform.{toy}

abbrev binding : Binding
binding = record {
  project_id = text "p";
  active_context_id = text "x";
  head_sha = text "h";
  tasks_sha256 = text "t";
  effective_spec_sha256 = text "s";
  artifact_manifest_sha256 = text "m";
}

abbrev task_at : Text → List Text → Task
task_at id dependencies = record {
  id = id;
  title = text "T";
  done = true;
  phase = [];
  reqs = text "R1" ∷ [];
  dependencies = dependencies;
  artifacts = [];
  sensors = none;
  sensor = none;
  tdd = false;
  inputs = [];
  expected_outputs = [];
  acceptance_criteria = none;
}

-- The second task waits for the first, and the third for itself.
abbrev input : ContractInput
input = record {
  change_slug = text "c";
  binding = binding;
  artifact_specs = [];
  profile = text "GOVERN";
  tdd_attestations = [];
  tasks =
      task_at (text "2") (text "1" ∷ [])
      ∷ task_at (text "1") []
      ∷ task_at (text "3") (text "3" ∷ [])
      ∷ [];
  task_leases = [];
  evidence_envelope_id = none;
}

abbrev options : Options
options = record {
  current_binding = some binding;
  available_requirement_ids = text "R1" ∷ [];
  sensor_results = [];
  artifact_results = [];
}

abbrev contract_at : Text → List Text → TaskContract
contract_at id dependencies = record {
  contract_id = text "k";
  task_id = id;
  change_slug = text "c";
  title = text "T";
  phase = text "execute";
  status = ready;
  inputs = [];
  expected_outputs = [];
  acceptance_criteria = [];
  requirement_ids = text "R1" ∷ [];
  required_sensors = [];
  required_artifacts = [];
  dependencies = dependencies;
  owner = none;
  work_session_id = none;
  evidence_envelope_id = none;
  tdd_required = false;
  tdd_attestation_id = none;
  checked = true;
  authored_sha256 = text "a";
  binding = binding;
}

derived : List TaskContract
unfolding derive_task_contracts
derived = elim (derive_task_contracts toy 0 input) [ ok cs ↦ cs | err e ↦ [] ]

derives : derive_task_contracts toy 0 input ≡ ok derived
unfolding derived derive_task_contracts trim is_space derive_contract text_eq to_lower
derives = refl

evaluate_task_contract_lem_example :
    (evaluate_task_contract options
      (text "1" ∷ [])
      (contract_at (text "2") (text "1" ∷ []))).can_complete
    ≡ true
unfolding unique_strings trim is_space dedupe text_eq tdd_missing current_binding_of
evaluate_task_contract_lem_example =
    (evaluate_task_contract_lem options (text "1" ∷ [])
        (contract_at (text "2") (text "1" ∷ []))).0.1
      (((refl, refl, refl, refl, refl), refl, (refl, tt), tt, tt, refl), (refl, tt))

evaluate_derived_refines_example :
    Pairwise
      (IsRight (record { contracts = derived; options = options }))
      derived
      (evaluate_task_contracts (record { contracts = derived; options = options }))
evaluate_derived_refines_example = evaluate_derived_refines toy 0 input derived options derives

abbrev snapshot : Snapshot
snapshot = record {
  contracts =
      contract_at (text "2") (text "1" ∷ [])
      ∷ contract_at (text "1") []
      ∷ contract_at (text "3") (text "3" ∷ [])
      ∷ [];
  options = options;
}

completed_tasks_settled_example :
    sweep options snapshot.contracts (completed_tasks snapshot, false)
    ≡ (completed_tasks snapshot, false)
completed_tasks_settled_example = completed_tasks_settled snapshot

-- Two sweeps complete both tasks; the one that waits for itself stays open.
completed_tasks_run : completed_tasks snapshot ≡ text "1" ∷ text "2" ∷ []
unfolding completed_tasks text_eq dedupe trim is_space
completed_tasks_run = refl
