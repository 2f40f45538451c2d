-- ===== src/Contracts/Evaluate/Laws.antt =====
-- When a task contract can be completed (packages/contracts/src/task-contracts.mjs).
use wendkeep.Prelude.{
  ◌≡◌, ◌↔◌, refl, Bool, true, false, not, List, [], ◌∷◌, ◌++◌, arith, keep, All, inl, inr,
  Bool-cases, any, any-append, sym, ◌∙◌,
}
use wendkeep.Prelude.Text.{Text, text, text_eq_iff, includes}
use wendkeep.Prelude.Json.{Json, null}
use wendkeep.Contracts.Strings.{unique_strings}
use wendkeep.Contracts.Task.Data.{Binding, TaskContract}
use wendkeep.Contracts.Evaluate.{
  stale_findings, checkbox_findings, id_findings, tdd_findings, sensor_status, is_green,
  is_satisfied, tdd_missing, current_binding_of, failing, is_empty, blocking_findings_of,
  evaluation_status, evaluate_task_contract,
}
use wendkeep.Contracts.Evaluate.Data.{
  FindingCode, requirement_missing, sensor_missing_or_red, artifact_missing, dependency_open,
  Finding, Options, completed, stale, is_stale_code, binding_fields,
}

-- The bindings agree on every field that the evaluation compares.
abbrev pub SameBinding : Binding → Binding → Type 0
SameBinding b d =
    (b.active_context_id ≡ d.active_context_id)
    × (b.head_sha ≡ d.head_sha)
    × (b.tasks_sha256 ≡ d.tasks_sha256)
    × (b.effective_spec_sha256 ≡ d.effective_spec_sha256)
    × (b.artifact_manifest_sha256 ≡ d.artifact_manifest_sha256)

-- What a contract asks for apart from its dependencies.
abbrev pub MeetsOwn : Options → TaskContract → Type 0
MeetsOwn o c =
    SameBinding c.binding (current_binding_of o c)
    × (c.checked ≡ true)
    × All (λ id. includes (unique_strings o.available_requirement_ids) id ≡ true)
        (unique_strings c.requirement_ids)
    × All (λ id. is_green o.sensor_results id ≡ true) (unique_strings c.required_sensors)
    × All (λ name. is_satisfied o.artifact_results name ≡ true)
        (unique_strings c.required_artifacts)
    × (tdd_missing c ≡ false)

is_empty-append {ℓ κ ι} :
    {A : Type ℓ} {P : Type κ} {Q : Type ι} (xs ys : List A)
    → (is_empty xs ≡ true) ↔ P
    → (is_empty ys ≡ true) ↔ Q
    → (is_empty (xs ++ ys) ≡ true) ↔ (P × Q)
unfolding is_empty
is_empty-append [] ys h k = (λ e. (h.0 refl, k.0 e), λ both. k.1 both.1)
is_empty-append (x ∷ xs) ys h k = (λ e. cc, λ both. h.1 both.0)

SameBinding-iff :
    (b d : Binding) → (is_empty (stale_findings binding_fields b d) ≡ true) ↔ SameBinding b d
unfolding is_empty stale_findings
SameBinding-iff b d = ground (
  arith,
  text_eq_iff b.active_context_id d.active_context_id,
  text_eq_iff b.head_sha d.head_sha,
  text_eq_iff b.tasks_sha256 d.tasks_sha256,
  text_eq_iff b.effective_spec_sha256 d.effective_spec_sha256,
  text_eq_iff b.artifact_manifest_sha256 d.artifact_manifest_sha256,
)

module _ (code : FindingCode) (field : Text) (observe : Text → Json) (test : Text → Bool) where
  none_failing_iff :
      (ids : List Text)
      → (is_empty (id_findings code field observe (keep (λ id. not (test id)) ids)) ≡ true)
        ↔ All (λ id. test id ≡ true) ids
  unfolding is_empty id_findings
  none_failing_iff [] = ground arith
  none_failing_iff (id ∷ ids) = ground (arith, none_failing_iff ids)

failing_iff :
    (code : FindingCode) (field : Text) (observe : Text → Json) (test : Text → Bool)
    (ids : List Text)
    → (is_empty (id_findings code field observe (failing test ids)) ≡ true)
      ↔ All (λ id. test id ≡ true) (unique_strings ids)
unfolding failing
failing_iff code field observe test ids =
    none_failing_iff code field observe test (unique_strings ids)

checkbox_iff : (b : Bool) → (is_empty (checkbox_findings b) ≡ true) ↔ (b ≡ true)
unfolding is_empty checkbox_findings
checkbox_iff true = ground arith
checkbox_iff false = ground arith

tdd_iff : (b : Bool) → (is_empty (tdd_findings b) ≡ true) ↔ (b ≡ false)
unfolding is_empty tdd_findings
tdd_iff true = ground arith
tdd_iff false = ground arith

-- No finding blocks a contract exactly if it meets what it asks for, its dependencies included.
no_findings_iff :
    (o : Options) (done : List Text) (c : TaskContract)
    → (is_empty (blocking_findings_of o done c) ≡ true) ↔ (
        MeetsOwn o c
        × All (λ id. includes (unique_strings done) id ≡ true) (unique_strings c.dependencies))
unfolding blocking_findings_of
no_findings_iff o done c =
    let bound =
      is_empty-append _ _ (SameBinding-iff c.binding (current_binding_of o c))
        (checkbox_iff c.checked) in
    let covered = is_empty-append _ _ bound (
      failing_iff requirement_missing (text "requirement_ids") (λ id. null)
        (includes (unique_strings o.available_requirement_ids)) c.requirement_ids) in
    let sensed = is_empty-append _ _ covered (
      failing_iff sensor_missing_or_red (text "required_sensors") (sensor_status o.sensor_results)
        (is_green o.sensor_results) c.required_sensors) in
    let supplied = is_empty-append _ _ sensed (
      failing_iff artifact_missing (text "required_artifacts") (λ id. null)
        (is_satisfied o.artifact_results) c.required_artifacts) in
    let ordered = is_empty-append _ _ supplied (
      failing_iff dependency_open (text "dependencies") (λ id. null)
        (includes (unique_strings done)) c.dependencies) in
    let (to, from) = is_empty-append _ _ ordered (tdd_iff (tdd_missing c)) in
    (
      λ e.
          let ((((((same, checked), reqs), sensors), artifacts), dependencies), tdd) = to e in
          ((same, checked, reqs, sensors, artifacts, tdd), dependencies),
      λ h.
          let ((same, checked, reqs, sensors, artifacts, tdd), dependencies) = h in
          from ((((((same, checked), reqs), sensors), artifacts), dependencies), tdd),
    )

any_stale : List Finding → Bool
any_stale fs = any (λ (f : Finding). is_stale_code f.code) fs

any_stale-stale_findings :
    (b d : Binding)
    → any_stale (stale_findings binding_fields b d)
      ≡ not (is_empty (stale_findings binding_fields b d))
unfolding any_stale is_stale_code stale_findings is_empty
any_stale-stale_findings b d = ground arith

any_stale-checkbox : (b : Bool) → any_stale (checkbox_findings b) ≡ false
unfolding any_stale is_stale_code checkbox_findings
any_stale-checkbox true = refl
any_stale-checkbox false = refl

any_stale-tdd : (b : Bool) → any_stale (tdd_findings b) ≡ false
unfolding any_stale is_stale_code tdd_findings
any_stale-tdd true = refl
any_stale-tdd false = refl

any_stale-id :
    (code : FindingCode) (field : Text) (observe : Text → Json)
    → is_stale_code code ≡ false
    → (ids : List Text) → any_stale (id_findings code field observe ids) ≡ false
unfolding any_stale id_findings
any_stale-id code field observe h [] = refl
any_stale-id code field observe h (id ∷ ids) = rw h (any_stale-id code field observe h ids)

any_stale-append :
    (xs ys : List Finding) {b : Bool}
    → any_stale xs ≡ b
    → any_stale ys ≡ false
    → any_stale (xs ++ ys) ≡ b
unfolding any_stale
any_stale-append xs ys h k =
    ground (arith, any-append (λ (f : Finding). is_stale_code f.code) xs ys)

-- Only a binding that differs makes a finding whose code is a stale one.
any_stale-blocking :
    (o : Options) (done : List Text) (c : TaskContract)
    → any_stale (blocking_findings_of o done c)
      ≡ not (is_empty (stale_findings binding_fields c.binding (current_binding_of o c)))
unfolding blocking_findings_of is_stale_code
any_stale-blocking o done c =
    let bound =
      any_stale-append _ _ (any_stale-stale_findings c.binding (current_binding_of o c))
        (any_stale-checkbox c.checked) in
    let covered = any_stale-append _ _ bound (any_stale-id requirement_missing _ _ refl _) in
    let sensed = any_stale-append _ _ covered (any_stale-id sensor_missing_or_red _ _ refl _) in
    let supplied = any_stale-append _ _ sensed (any_stale-id artifact_missing _ _ refl _) in
    let ordered = any_stale-append _ _ supplied (any_stale-id dependency_open _ _ refl _) in
    any_stale-append _ _ ordered (any_stale-tdd (tdd_missing c))

evaluation_status-cases :
    (fs : List Finding)
    → ((evaluation_status fs ≡ completed) ↔ (is_empty fs ≡ true))
      × ((evaluation_status fs ≡ stale) ↔ (any_stale fs ≡ true))
unfolding evaluation_status is_empty any_stale
evaluation_status-cases [] = ((λ e. refl, λ e. refl), (λ e. cc, λ e. cc))
evaluation_status-cases (f ∷ fs) = elim (Bool-cases (any_stale (f ∷ fs))) [
  | inl e ↦ rw e ((λ q. cc, λ q. cc), (λ q. refl, λ q. refl))
  | inr e ↦ rw e ((λ q. cc, λ q. cc), (λ q. cc, λ q. cc))
]

not_same_iff :
    (b d : Binding)
    → (not (is_empty (stale_findings binding_fields b d)) ≡ true) ↔ ¬ SameBinding b d
not_same_iff b d =
    let same = SameBinding-iff b d in
    elim (Bool-cases (is_empty (stale_findings binding_fields b d))) [
      | inl e ↦ rw e (λ q. cc, λ differs. absurd (differs (same.0 e)))
      | inr e ↦
          let differs : ¬ SameBinding b d = λ q. cc (same.1 q, e) in rw e (λ q. differs, λ q. refl)
    ]

-- Evaluating a task contract. It can be completed exactly if the bindings agree on the context, the
-- head, the tasks, the specification and the artifact manifest, its checkbox is set, every
-- requirement is available, every sensor green, every artifact satisfied, an attestation present
-- where one is required, and every dependency among the completed tasks. The status is `completed`
-- exactly if it can be completed, and `stale` exactly if the bindings differ.
pub evaluate_task_contract_lem :
    (o : Options) (done : List Text) (c : TaskContract)
    → (((evaluate_task_contract o done c).can_complete ≡ true) ↔ (
        MeetsOwn o c
        × All (λ id. includes (unique_strings done) id ≡ true) (unique_strings c.dependencies)))
      × (((evaluate_task_contract o done c).status ≡ completed)
          ↔ ((evaluate_task_contract o done c).can_complete ≡ true))
      × (((evaluate_task_contract o done c).status ≡ stale)
          ↔ ¬ SameBinding c.binding (current_binding_of o c))
unfolding evaluate_task_contract
evaluate_task_contract_lem o done c =
    let (whole, partial) = evaluation_status-cases (blocking_findings_of o done c) in
    let (to, from) = not_same_iff c.binding (current_binding_of o c) in
    let same = any_stale-blocking o done c in
    (
      no_findings_iff o done c,
      whole,
      (λ e. to (sym same ∙ partial.0 e), λ differs. partial.1 (same ∙ from differs)),
    )
