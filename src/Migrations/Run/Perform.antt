-- ===== src/Migrations/Run/Perform.antt =====
-- The step of a run, and what a run before may have left of it
-- (packages/migrations/src/runner.mjs).
use wendkeep.Prelude.{true, false, ◌&&◌, none, some, List, ◌∷◌, ◌++◌, find}
use wendkeep.Prelude.Text.{Text, text_eq}
use wendkeep.Prelude.Result.{Result, ok, err, guard}
use wendkeep.Platform.{Platform}
use wendkeep.Migrations.Data.{
  MigrationError, resource_invalid, precondition_failed, journal_mismatch, state_diverged,
  is_version, is_integer, Resource, hash_state, is_text_json, is_object,
}
use wendkeep.Migrations.Registry.{MigrationStep, Plan, apply_step}
use wendkeep.Migrations.Journal.{writing, completed, JournalStep, Journal, same_hash}
use wendkeep.Migrations.Machine.{
  Run, ◌>>=◌, ◌>>◌, return, throw, try, fault, write_journal, write_resource,
}

-- `assertResourcePreconditions`
unfoldable pub assert_resource : Resource → Text → Result MigrationError (Unit {0})
assert_resource s resource =
    guard (is_text_json s.resource resource && is_object s.authority) precondition_failed

-- The first checks of a run.
unfoldable pub check_resource : Resource → Text → Result MigrationError (Unit {0})
unfolding assert_resource
check_resource s resource = elim (is_integer s.format_version) [
  | true ↦ assert_resource s resource
  | false ↦ err resource_invalid
]

-- What a run does not change.
pub record Context : Type 0 where
  pub platform : Platform
  pub journal : Journal
  pub plan : Plan

-- The journal with the steps that were gone through, the one at work, and the rest.
unfoldable pub with_steps : Journal → List JournalStep → JournalStep → List JournalStep → Journal
with_steps journal past j later = record journal { steps = past ++ j ∷ later }

unfoldable pub find_step : Plan → Text → Result MigrationError MigrationStep
find_step plan id = elim (find (λ s. text_eq s.id id) plan.steps) [
  | none ↦ err journal_mismatch
  | some step ↦ ok step
]

-- The resource is at the version after the step: the process stopped behind the write.
unfoldable pub recover_step :
    Context
    → List JournalStep
    → JournalStep
    → List JournalStep
    → Resource
    → Run (JournalStep × Resource)
unfolding with_steps same_hash
recover_step c past j later s =
    elim (same_hash j.expected_after_sha256 (some (hash_state c.platform s))) [
      | false ↦ throw state_diverged
      | true ↦
          let done : JournalStep = record j {
            status = completed;
            recovered_after_write = true;
            after_sha256 = some (hash_state c.platform s);
          } in
          do write_journal (with_steps c.journal past done later); fault; return (done, s)
    ]

-- The writes of a step that is bound to its result.
unfoldable pub finish_step :
    Context
    → List JournalStep
    → JournalStep
    → List JournalStep
    → Resource
    → Run (JournalStep × Resource)
unfolding with_steps
finish_step c past bound later next =
    let done : JournalStep = record bound {
      after_sha256 = some (hash_state c.platform next);
      status = completed;
    } in
    do
      write_resource next
      fault
      write_journal (with_steps c.journal past done later)
      fault
      return (done, next)

unfoldable pub bind_step :
    Context
    → List JournalStep
    → JournalStep
    → List JournalStep
    → MigrationStep
    → Resource
    → Run (JournalStep × Resource)
unfolding with_steps finish_step
bind_step c past begun later step s = do
  next ← try (apply_step step s)
  let bound : JournalStep = record begun {
    expected_after_sha256 = some (hash_state c.platform next);
  }
  write_journal (with_steps c.journal past bound later)
  finish_step c past bound later next

-- The resource is at the version before the step.
unfoldable pub perform_step :
    Context
    → List JournalStep
    → JournalStep
    → List JournalStep
    → MigrationStep
    → Resource
    → Run (JournalStep × Resource)
unfolding with_steps bind_step
perform_step c past j later step s =
    let begun : JournalStep = record j {
      before_sha256 = some (hash_state c.platform s);
      status = writing;
    } in
    do write_journal (with_steps c.journal past begun later); bind_step c past begun later step s

-- What is done by the version of the resource.
unfoldable pub choose_step :
    Context
    → List JournalStep
    → JournalStep
    → List JournalStep
    → MigrationStep
    → Resource
    → Run (JournalStep × Resource)
unfolding recover_step perform_step
choose_step c past j later step s = elim (is_version s.format_version step.to_version) [
  | true ↦ recover_step c past j later s
  | false ↦ elim (is_version s.format_version step.from_version) [
    | true ↦ perform_step c past j later step s
    | false ↦ throw state_diverged
  ]
]

-- The body of the loop for a step that is not completed.
unfoldable pub run_step :
    Context
    → List JournalStep
    → JournalStep
    → List JournalStep
    → Resource
    → Run (JournalStep × Resource)
unfolding find_step choose_step
run_step c past j later s = do
  step ← try (find_step c.plan j.id)
  fault
  choose_step c past j later step s
