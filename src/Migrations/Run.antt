-- ===== src/Migrations/Run.antt =====
-- `runMigration` of packages/migrations/src/runner.mjs.
pub mod Progress
pub mod Shown
pub mod Step
pub mod Loop
pub mod Check
pub mod Plans
pub mod Opening
pub mod Ending
pub mod Recovery
pub mod Perform
use mathlib.Core.Option
use wendkeep.Prelude.{
  ℕ, Bool, true, false, not, ◌&&◌, ◌==◌, Option, none, some, List, [], ◌∷◌, ◌++◌, find,
}
use wendkeep.Prelude.Text.{Text, text_eq}
use wendkeep.Prelude.Result.{Result, ok, err, guard}
use wendkeep.Platform.{Platform}
use wendkeep.Migrations.Data.{
  MigrationError, resource_invalid, precondition_failed, journal_invalid, journal_mismatch,
  journal_corrupt, state_diverged, incomplete, resource_corrupt, receipt_corrupt, backup_corrupt,
  backup_checksum_mismatch, rollback_unavailable, rollback_diverged, repair_not_required, Version,
  natural, is_version, is_integer, Resource, hash_state, is_text_json, is_object,
}
use wendkeep.Migrations.Registry.{MigrationStep, Registry, Plan, plan_migration, apply_step}
use wendkeep.Migrations.Journal.{
  StepStatus, waiting, writing, completed, finished, JournalStep, Journal, same_hash,
  assert_journal, create_journal, rebuild_journal,
}
use wendkeep.Migrations.Receipt.{
  ReceiptStatus, rolled_back, Receipt, build_receipt, assert_receipt, is_complete,
}
use wendkeep.Migrations.Machine.{
  File, missing, corrupt, stored, Disk, Run, ◌>>=◌, ◌>>◌, return, throw, try, fault, get_disk,
  read_json, exists, write_journal, write_resource, write_receipt, backup_resource, remove_journal,
}
use wendkeep.Migrations.Run.Perform.{check_resource, Context, run_step}

unfoldable pub is_completed : StepStatus → Bool
is_completed completed = true
is_completed _ = false

-- The loop over the steps of the journal.
unfoldable pub run_steps :
    Context → List JournalStep → List JournalStep → Resource → Run (List JournalStep × Resource)
unfolding is_completed
run_steps c past [] s = return (past, s)
run_steps c past (j ∷ later) s = elim (is_completed j.status) [
  | true ↦ run_steps c (past ++ j ∷ []) later s
  | false ↦ run_step c past j later s >>= λ (done, next). run_steps c (past ++ done ∷ []) later next
]

-- The journal to go on with, and the plan it stands for.
unfoldable pub resume_journal :
    Registry → Text → Version → File Journal → Result MigrationError Journal
resume_journal registry resource target file = elim (read_json journal_corrupt file) [
  | err e ↦ err e
  | ok journal ↦ elim (plan_migration registry resource (natural journal.from_version) target) [
    | err e ↦ err e
    | ok plan ↦ elim (assert_journal journal resource target plan) [
      | err e ↦ err e
      | ok _ ↦ ok journal
    ]
  ]
]

-- A new journal, whose first write follows the backup.
unfoldable pub begin_journal : Platform → Registry → Text → Version → Resource → Run Journal
begin_journal p registry resource target s = do
  plan ← try (plan_migration registry resource s.format_version target)
  backup_resource
  write_journal (create_journal plan (hash_state p s))
  return (create_journal plan (hash_state p s))

unfoldable pub open_journal : Platform → Registry → Text → Version → Resource → Disk → Run Journal
open_journal p registry resource target s d = elim (exists d.journal) [
  | true ↦ try (resume_journal registry resource target d.journal)
  | false ↦ begin_journal p registry resource target s
]

pub record Migrated : Type 0 where
  pub receipt : Receipt
  pub state : Resource

unfoldable pub at_target : Version → Version → Bool
at_target version (natural n) = is_version version n
at_target version _ = false

-- The receipt is written before the journal goes.
unfoldable pub close_run : Receipt → Resource → Run Migrated
close_run receipt s = do
  fault
  write_receipt receipt
  remove_journal
  return (record { receipt = receipt; state = s })

unfoldable pub finish_run :
    Platform → Version → Journal → List JournalStep → Resource → Run Migrated
unfolding at_target close_run
finish_run p target journal steps s = elim (at_target s.format_version target) [
  | false ↦ throw incomplete
  | true ↦ close_run (build_receipt p (record journal { status = finished; steps = steps }) s) s
]

-- A run with its journal: the loop, and the end.
unfoldable pub continue_run :
    Platform → Registry → Text → Version → Journal → Resource → Run Migrated
unfolding run_steps finish_run
continue_run p registry resource target journal s = do
  plan ← try (plan_migration registry resource (natural journal.from_version) target)
  fault
  (steps, final) ←
      run_steps (record { platform = p; journal = journal; plan = plan }) [] journal.steps s
  finish_run p target journal steps final

-- `runMigration`
unfoldable pub run_migration : Platform → Registry → Text → Version → Run Migrated
unfolding check_resource open_journal continue_run
run_migration p registry resource target = do
  d ← get_disk
  s ← try (read_json resource_corrupt d.resource)
  try (check_resource s resource)
  journal ← open_journal p registry resource target s d
  continue_run p registry resource target journal s
