-- ===== src/Contracts/Evaluate/Refinement.antt =====
-- `evaluateTaskContracts` finds the tasks that can be completed at all
-- (packages/contracts/src/task-contracts.mjs).
use wendkeep.Prelude.{
  ℕ, suc, ◌≡◌, ◌≢◌, ◌↔◌, refl, true, false, not, ◌&&◌, List, [], ◌∷◌, arith, keep, All, All-keep,
  inl, inr, Bool-cases, length, ◌∙◌, subst, Pairwise, Pairwise-map,
}
use wendkeep.Prelude.Text.{Text, text_eq, text_eq_iff, text_eq_ne, includes, trim, text, to_lower}
use wendkeep.Prelude.Text.Trim.{trim-trim}
use wendkeep.Prelude.Result.{ok, guard, >>=-eq-ok, ok-injective, err-ne-ok}
use wendkeep.Contracts.Strings.{filled, unique_strings, or_default}
use wendkeep.Contracts.Strings.Laws.{AreTrimmed, unique_strings-filled, includes-keep_ne}
use wendkeep.Platform.{Platform}
use wendkeep.Contracts.Task.{derive_contract, derive_each, derive_task_contracts}
use wendkeep.Contracts.Task.Data.{ContractInput, Task, TaskContract, phase_invalid}
use wendkeep.Contracts.Evaluate.{
  Snapshot, completed_tasks, final_evaluation, evaluate_task_contracts,
}
use wendkeep.Contracts.Evaluate.Data.{Options, Evaluation}
use wendkeep.Contracts.Evaluate.Laws.{MeetsOwn, evaluate_task_contract_lem}
use wendkeep.Contracts.Evaluate.Completable.{
  Completable, completable, AllCompletable, none_left, one_more, HasTrimmedIds,
  AreTrimmed-of_Completable, sweep_loop_sound, includes-unique_trimmed, All-includes,
}
use wendkeep.Contracts.Evaluate.Ends.{completed_tasks-IsSettled}

module _ (s : Snapshot) (trimmed : HasTrimmedIds s.contracts) where
  completed_tasks_sound : All (Completable s) (completed_tasks s)
  unfolding completed_tasks
  completed_tasks_sound = sweep_loop_sound s trimmed (suc (length s.contracts)) [] tt

  completed_tasks-AreTrimmed : AreTrimmed (completed_tasks s)
  completed_tasks-AreTrimmed =
      AreTrimmed-of_Completable s trimmed (completed_tasks s) completed_tasks_sound

  includes_unique_completed :
      (id : Text)
      → filled id ≡ true
      → includes (completed_tasks s) id ≡ true
      → includes (unique_strings (completed_tasks s)) id ≡ true
  includes_unique_completed id full h =
      rw (includes-unique_trimmed (completed_tasks s) id completed_tasks-AreTrimmed, full, h) refl

  mutual
    completed_tasks_complete :
        (id : Text) → Completable s id → includes (completed_tasks s) id ≡ true
    completed_tasks_complete _ (completable c i own deps) =
        let ready = (evaluate_task_contract_lem s.options (completed_tasks s) c).0.1 (
          own,
          completed_tasks-All (unique_strings c.dependencies) (unique_strings-filled c.dependencies)
              deps,
        ) in
        elim (completed_tasks-IsSettled s c i) [
          | inl there_is ↦ there_is
          | inr cannot ↦ cc (ready, cannot)
        ]

    completed_tasks-All :
        (ids : List Text)
        → All (λ id. filled id ≡ true) ids
        → AllCompletable s ids
        → All (λ id. includes (unique_strings (completed_tasks s)) id ≡ true) ids
    completed_tasks-All [] full none_left = tt
    completed_tasks-All (id ∷ ids) full (one_more now later) = (
      includes_unique_completed id full.0 (completed_tasks_complete id now),
      completed_tasks-All ids full.1 later,
    )

  -- The set without the contract's own task, as the last evaluation is given it.
  includes_others_iff :
      (own id : Text)
      → filled id ≡ true
      → (includes (unique_strings (keep (λ t. not (text_eq t own)) (completed_tasks s))) id ≡ true)
        ↔ (Completable s id × (id ≢ own))
  includes_others_iff own id full =
      let others = keep (λ t. not (text_eq t own)) (completed_tasks s) in
      let here = includes-unique_trimmed others id (
        All-keep (λ t. trim t ≡ t) (λ t. not (text_eq t own)) (completed_tasks s)
          completed_tasks-AreTrimmed) in
      let kept = includes-keep_ne (completed_tasks s) own id in
      (
        λ e.
            let both : (includes (completed_tasks s) id ≡ true) × (text_eq id own ≡ false) =
              ground (arith, e, here, kept, full) in
            (
              All-includes (Completable s) (completed_tasks s) id completed_tasks_sound both.0,
              λ same. cc ((text_eq_iff id own).1 same, both.1),
            ),
        λ h.
            let there_is = completed_tasks_complete id h.0 in
            let other = text_eq_ne id own h.1 in here ∙ rw (full, kept, there_is, other) refl,
      )

  All-others_iff :
      (own : Text) (ids : List Text)
      → All (λ id. filled id ≡ true) ids
      → All
          (λ id.
            includes (unique_strings (keep (λ t. not (text_eq t own)) (completed_tasks s))) id
            ≡ true)
          ids
        ↔ All (λ id. Completable s id × (id ≢ own)) ids
  All-others_iff own [] full = (λ h. tt, λ h. tt)
  All-others_iff own (id ∷ ids) full =
      let (to, from) = includes_others_iff own id full.0 in
      let (to', from') = All-others_iff own ids full.1 in
      (λ h. (to h.0, to' h.1), λ h. (from h.0, from' h.1))

  final_evaluation_iff :
      (c : TaskContract)
      → ((final_evaluation s c).can_complete ≡ true) ↔ (
          MeetsOwn s.options c
          × All (λ id. Completable s id × (id ≢ c.task_id)) (unique_strings c.dependencies))
  unfolding final_evaluation
  final_evaluation_iff c =
      let (to, from) =
        (evaluate_task_contract_lem s.options
          (keep (λ id. not (text_eq id c.task_id)) (completed_tasks s)) c).0 in
      let (to', from') =
        All-others_iff c.task_id (unique_strings c.dependencies)
          (unique_strings-filled c.dependencies) in
      (λ e. ((to e).0, to' (to e).1), λ h. from (h.0, from' h.1))

-- What the specification says of a contract and its evaluation.
abbrev pub IsRight : Snapshot → TaskContract → Evaluation → Type 0
IsRight s c e = (e.can_complete ≡ true) ↔ (
    MeetsOwn s.options c
    × All (λ id. Completable s id × (id ≢ c.task_id)) (unique_strings c.dependencies))

evaluate_task_contracts-IsRight :
    (s : Snapshot)
    → HasTrimmedIds s.contracts
    → Pairwise (IsRight s) s.contracts (evaluate_task_contracts s)
unfolding evaluate_task_contracts
evaluate_task_contracts-IsRight s trimmed =
    Pairwise-map (IsRight s) (final_evaluation s) (final_evaluation_iff s trimmed) s.contracts

derive_contract-trim :
    (p : Platform) (now : ℕ) (a : ContractInput) (project_id change_slug : Text) (task : Task)
    (c : TaskContract)
    → derive_contract p now a project_id change_slug task ≡ ok c
    → trim c.task_id ≡ c.task_id
unfolding derive_contract
derive_contract-trim p now a project_id change_slug task c h =
    let phase = to_lower (trim (or_default task.phase (text "execute"))) in
    let known = includes (text "execute" ∷ text "verify" ∷ []) phase in
    let (_, _, built) = >>=-eq-ok (guard known phase_invalid) _ h in
    subst (λ (d : TaskContract). trim d.task_id ≡ d.task_id) (ok-injective built)
      (trim-trim task.id)

derive_each-HasTrimmedIds :
    (p : Platform) (now : ℕ) (a : ContractInput) (project_id change_slug : Text) (tasks : List Task)
    (cs : List TaskContract)
    → derive_each p now a project_id change_slug tasks ≡ ok cs
    → HasTrimmedIds cs
unfolding derive_each
derive_each-HasTrimmedIds p now a project_id change_slug [] cs h =
    subst HasTrimmedIds (ok-injective h) tt
derive_each-HasTrimmedIds p now a project_id change_slug (task ∷ tasks) cs h =
    let (c, ec, h1) = >>=-eq-ok (derive_contract p now a project_id change_slug task) _ h in
    let (ds, ed, h2) = >>=-eq-ok (derive_each p now a project_id change_slug tasks) _ h1 in
    subst HasTrimmedIds (ok-injective h2) (
      derive_contract-trim p now a project_id change_slug task c ec,
      derive_each-HasTrimmedIds p now a project_id change_slug tasks ds ed,
    )

derive_task_contracts-HasTrimmedIds :
    (p : Platform) (now : ℕ) (a : ContractInput) (cs : List TaskContract)
    → derive_task_contracts p now a ≡ ok cs
    → HasTrimmedIds cs
unfolding derive_task_contracts
derive_task_contracts-HasTrimmedIds p now a cs h =
    elim (Bool-cases (filled (trim a.binding.project_id) && filled (trim a.change_slug))) [
      | inl e ↦
          derive_each-HasTrimmedIds p now a (trim a.binding.project_id) (trim a.change_slug) a.tasks
            cs (rw e at h)
      | inr e ↦ absurd (err-ne-ok (rw e at h))
    ]

-- The loops refine the specification `Completable`. For the contracts that deriveTaskContracts
-- returns there is one evaluation each, in order, and it says that the task can be completed exactly
-- if the contract meets what it asks for and each task that it depends on is another one and is
-- completable: has a contract that meets what it asks for, and whose dependencies are completable
-- in turn.
pub evaluate_derived_refines :
    (p : Platform) (now : ℕ) (a : ContractInput) (cs : List TaskContract) (o : Options)
    → derive_task_contracts p now a ≡ ok cs
    → Pairwise
        (IsRight (record { contracts = cs; options = o }))
        cs
        (evaluate_task_contracts (record { contracts = cs; options = o }))
evaluate_derived_refines p now a cs o h =
    evaluate_task_contracts-IsRight (record { contracts = cs; options = o })
      (derive_task_contracts-HasTrimmedIds p now a cs h)
