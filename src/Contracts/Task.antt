-- ===== src/Contracts/Task.antt =====
-- `bindingFrom` and `deriveTaskContracts` of packages/contracts/src/task-contracts.mjs.
pub mod Data
use wendkeep.Prelude.{
  ℕ, Bool, true, false, ◌&&◌, ◌||◌, ltb, Option, none, some, List, [], ◌∷◌, ◌++◌, if◌then◌else◌,
  any, find,
}
use wendkeep.Prelude.Text.{Text, text, text_eq, includes, trim, to_lower, to_upper}
use wendkeep.Prelude.Table.{Table, lookup}
use wendkeep.Prelude.Json.{Json, bool, str, arr, obj, Items, nil, cons, end, field}
use wendkeep.Prelude.Result.{Result, ok, err, ◌>>=◌, ◌>>◌, guard}
use wendkeep.Platform.{Platform}
use wendkeep.Contracts.Strings.{
  filled, unique_strings, or_default, canonical_json, texts_json, last_with,
}
use wendkeep.Contracts.Task.Data.{
  ContractError, Binding, Task, TaskLease, NamedSpec, AttestationRef, ContractInput, TaskStatus,
  TaskContract, identity_missing, phase_invalid, pending_evaluation, blocked, ready,
}

unfoldable pub binding_json : Binding → Json
binding_json b = obj (
    field (text "project_id") (str b.project_id) (
      field (text "active_context_id") (str b.active_context_id) (
        field (text "head_sha") (str b.head_sha) (
          field (text "tasks_sha256") (str b.tasks_sha256) (
            field (text "effective_spec_sha256") (str b.effective_spec_sha256)
              (field (text "artifact_manifest_sha256") (str b.artifact_manifest_sha256) end))))))

-- artifactSpecs.get(name) ?? { name }
unfoldable pub spec_json : List NamedSpec → Text → Json
unfolding last_with
spec_json specs name = elim (last_with (λ (s : NamedSpec). s.name) name specs) [
  | none ↦ obj (field (text "name") (str name) end)
  | some s ↦ s.value
]

unfoldable pub specs_json : List NamedSpec → List Text → Items
unfolding spec_json
specs_json specs [] = nil
specs_json specs (name ∷ names) = cons (spec_json specs name) (specs_json specs names)

-- task.sensors ?? (task.sensor ? [task.sensor] : [])
unfoldable pub required_sensors_of : Task → List Text
unfolding unique_strings
required_sensors_of task = elim task.sensors [
  | some sensors ↦ unique_strings sensors
  | none ↦ elim task.sensor [ none ↦ [] | some sensor ↦ unique_strings (sensor ∷ []) ]
]

-- uniqueStrings(task.sensors)
unfoldable pub declared_sensors : Task → List Text
unfolding unique_strings
declared_sensors task = elim task.sensors [ none ↦ [] | some sensors ↦ unique_strings sensors ]

-- The lease of the task, while it is active and not expired.
unfoldable pub active_lease : Platform → ℕ → Option TaskLease → Option TaskLease
active_lease p now none = none
active_lease p now (some lease) = elim (p.parse_date lease.expires_at) [
  | none ↦ none
  | some expires ↦
      if text_eq lease.state (text "active") && ltb now expires then some lease else none
]

unfoldable pub tdd_required_of : Text → Task → Text → Bool
unfolding declared_sensors unique_strings
tdd_required_of profile task phase =
    (text_eq profile (text "GOVERN") && task.tdd)
    || (text_eq profile (text "ASSURE")
        && text_eq phase (text "execute")
        && (any (λ r. true) (unique_strings task.reqs) || any (λ s. true) (declared_sensors task)))

-- Is the attestation one for the task and one of its requirements, observed green or waived?
unfoldable pub attests : Text → List Text → AttestationRef → Bool
attests task_id requirement_ids a =
    text_eq a.task_id task_id
    && includes requirement_ids a.requirement_id
    && includes (text "green-observed" ∷ text "waived" ∷ []) a.state

-- String(attestation.attestation_id || '') || null, of the first one that attests.
unfoldable pub attestation_id_of : Text → List Text → List AttestationRef → Option Text
unfolding attests
attestation_id_of task_id requirement_ids attestations =
    elim (find (attests task_id requirement_ids) attestations) [
      | none ↦ none
      | some a ↦ if filled a.attestation_id then some a.attestation_id else none
    ]

-- The object `authored`, by whose hash a contract is told from an edited one.
unfoldable pub authored_json : ContractInput → Text → Task → Text → Text → Json
unfolding binding_json specs_json required_sensors_of tdd_required_of unique_strings texts_json
authored_json a change_slug task task_id phase =
    let artifacts = unique_strings task.artifacts in
    let tdd = tdd_required_of (to_upper (trim a.profile)) task phase in
    obj (
      field (text "change_slug") (str change_slug) (
        field (text "task_id") (str task_id) (
          field (text "title") (str (trim task.title)) (
            field (text "phase") (str phase) (
              field (text "checked") (bool task.done) (
                field (text "requirement_ids") (arr (texts_json (unique_strings task.reqs))) (
                  field (text "required_sensors") (arr (texts_json (required_sensors_of task))) (
                    field (text "required_artifacts") (arr (texts_json artifacts)) (
                      field (text "dependencies")
                        (arr (texts_json (unique_strings task.dependencies)))
                        (field (text "tdd_required") (bool tdd) (
                          field (text "binding") (binding_json a.binding) (
                            field (text "artifact_specs")
                              (arr (specs_json a.artifact_specs artifacts)) end))))))))))))

unfoldable pub status_of : Bool → List Text → TaskStatus
status_of true dependencies = pending_evaluation
status_of false [] = ready
status_of false (d ∷ dependencies) = blocked

-- The contract of one task; `project_id` and `change_slug` are trimmed.
unfoldable pub derive_contract :
    Platform → ℕ → ContractInput → Text → Text → Task → Result ContractError TaskContract
unfolding or_default active_lease tdd_required_of attestation_id_of authored_json canonical_json
    status_of required_sensors_of unique_strings
derive_contract p now a project_id change_slug task = do
  let task_id = trim task.id
  let phase = to_lower (trim (or_default task.phase (text "execute")))
  guard (includes (text "execute" ∷ text "verify" ∷ []) phase) phase_invalid
  let lease = active_lease p now (lookup (change_slug ++ 58 ∷ task_id) a.task_leases)
  let title = trim task.title
  let requirement_ids = unique_strings task.reqs
  let dependencies = unique_strings task.dependencies
  ok (record {
    contract_id = p.sha256_hex (project_id ++ 0 ∷ (change_slug ++ 0 ∷ task_id));
    task_id = task_id;
    change_slug = change_slug;
    title = title;
    phase = phase;
    status = status_of task.done dependencies;
    inputs = unique_strings task.inputs;
    expected_outputs = unique_strings task.expected_outputs;
    acceptance_criteria = elim task.acceptance_criteria [
      | none ↦ unique_strings (title ∷ [])
      | some criteria ↦ unique_strings criteria
    ];
    requirement_ids = requirement_ids;
    required_sensors = required_sensors_of task;
    required_artifacts = unique_strings task.artifacts;
    dependencies = dependencies;
    owner = elim lease [ none ↦ none | some l ↦ l.owner_session_id ];
    work_session_id = elim lease [ none ↦ none | some l ↦ l.owner_work_session_id ];
    evidence_envelope_id = a.evidence_envelope_id;
    tdd_required = tdd_required_of (to_upper (trim a.profile)) task phase;
    tdd_attestation_id = attestation_id_of task_id requirement_ids a.tdd_attestations;
    checked = task.done;
    authored_sha256 =
        p.sha256_hex (canonical_json (authored_json a change_slug task task_id phase));
    binding = a.binding;
  })

unfoldable pub derive_each :
    Platform
    → ℕ
    → ContractInput
    → Text
    → Text
    → List Task
    → Result ContractError (List TaskContract)
derive_each p now a project_id change_slug [] = ok []
derive_each p now a project_id change_slug (task ∷ tasks) = do
  contract ← derive_contract p now a project_id change_slug task
  contracts ← derive_each p now a project_id change_slug tasks
  ok (contract ∷ contracts)

unfoldable pub derive_task_contracts :
    Platform → ℕ → ContractInput → Result ContractError (List TaskContract)
unfolding derive_each
derive_task_contracts p now a =
    let change_slug = trim a.change_slug in
    let project_id = trim a.binding.project_id in
    if filled project_id && filled change_slug
    then derive_each p now a project_id change_slug a.tasks
    else err identity_missing
