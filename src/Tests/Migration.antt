-- ===== src/Tests/Migration.antt =====
-- A migration of a vault that is interrupted, finished and rolled back.
use wendkeep.Prelude.{ℕ, ◌≡◌, ◌≢◌, refl, Option, none, some, [], ◌∷◌, ◌⊎◌, inl, arith}
use mathlib.Core.Bool.{false≢true}
use wendkeep.Prelude.Text.{text, text_eq, text_eq_iff, decimal, decimal_from}
use wendkeep.Prelude.Table.{lookup}
use wendkeep.Prelude.Json.{null, str, obj, end}
use wendkeep.Prelude.Result.{ok, err}
use wendkeep.Migrations.Data.{
  Resource, natural, hash_state, resource_json, version_json, is_version, is_integer, is_text_json,
  is_object, history_items, has_item, push_item, note_item, rollback_diverged,
  backup_checksum_mismatch,
}
use wendkeep.Migrations.Registry.{
  control_plane, control_plane_targets, create_step, step_id, migrated, apply_step, steps_from,
  step_at, collect_steps, source_number, or_unknown, plan_migration,
}
use wendkeep.Migrations.Registry.Laws.{plan_migration-control_plane}
use wendkeep.Migrations.Journal.{
  same_hash, is_hash_or_unset, is_set, follows, has_fields, is_valid_step, next_prior,
  are_valid_steps, is_running, assert_journal, waiting_step, create_journal,
}
use wendkeep.Migrations.Receipt.{receipt_step, build_receipt}
use wendkeep.Migrations.Machine.{
  missing, corrupt, stored, Disk, Machine, interrupted, thrown, fault, commit, read_json, exists,
  write_journal, write_resource, write_receipt, keep_backup, backup_resource, remove_journal,
}
use wendkeep.Migrations.Run.{
  Migrated, is_completed, run_steps, resume_journal, begin_journal, open_journal, at_target,
  close_run, finish_run, continue_run, run_migration,
}
use wendkeep.Migrations.Run.Perform.{
  assert_resource, check_resource, with_steps, find_step, recover_step, finish_step, bind_step,
  perform_step, choose_step, run_step,
}
use wendkeep.Migrations.Run.Check.{IsKind}
use wendkeep.Migrations.Run.Opening.{IsFresh, IsRecoverable, IsFinal, final_state, final_receipt}
use wendkeep.Migrations.Run.Progress.{project, next_state}
use wendkeep.Migrations.Run.Recovery.{
  unbroken, alive, attempts, AreInterrupted, run_migration_steps, run_migration_survives,
}
use wendkeep.Migrations.Repair.{repair_migration}
use wendkeep.Migrations.Repair.Laws.{repair-run}
use wendkeep.Migrations.Rollback.{rollback_migration}
use wendkeep.Migrations.Rollback.Laws.{
  undone_receipt, rollback-run, rollback_refuses, rollback_after_rerun,
}
use wendkeep.Tests.Platform.{toy, toy-IsDocumented}
use wendkeep.Tests.Open.{all_open}

-- Naming this one on an `unfolding` line opens the runs.
unfoldable runs_open : Unit {0}
unfolding all_open decimal decimal_from lookup hash_state resource_json version_json is_version
    is_integer is_text_json is_object history_items has_item push_item note_item control_plane
    create_step step_id migrated apply_step steps_from step_at collect_steps source_number
    or_unknown plan_migration same_hash is_hash_or_unset is_set follows has_fields is_valid_step
    next_prior are_valid_steps is_running assert_journal waiting_step create_journal receipt_step
    build_receipt fault commit read_json exists write_journal write_resource write_receipt
    keep_backup backup_resource remove_journal assert_resource check_resource with_steps find_step
    recover_step finish_step bind_step perform_step choose_step run_step is_completed run_steps
    resume_journal begin_journal open_journal at_target close_run finish_run continue_run
    run_migration
runs_open = tt

abbrev vault : Resource
vault = record {
  format_version = natural 0;
  resource = str (text "vault");
  authority = obj end;
  migration_history = null;
  rest = end;
}

abbrev start : Disk
start = record { resource = stored vault; journal = missing; receipt = missing; backup = missing }

vault_target : lookup (text "vault") control_plane_targets ≡ some 2
unfolding lookup text_eq
vault_target = refl

vault-IsKind : IsKind (text "vault") vault
unfolding IsKind is_text_json is_object text_eq
vault-IsKind = (refl, refl)

start-IsFresh : IsFresh toy (text "vault") 0 2 vault vault start
start-IsFresh = record { no_journal = refl; has_source = refl; has_backup = inl (refl, refl) }

-- The first run stops before its first step is bound, the second one behind the write of the resource.
stops :
    AreInterrupted (run_migration toy control_plane (text "vault") (natural 2)) (4 ∷ 4 ∷ []) start
unfolding runs_open AreInterrupted
stops = (refl, (refl, tt))

run_migration_survives_example :
    (x : Migrated) × (w : Machine) × (run_migration toy control_plane (text "vault") (natural 2) (
        unbroken (
          attempts (run_migration toy control_plane (text "vault") (natural 2)) (4 ∷ 4 ∷ []) start))
      ≡ (w, ok x))
    × IsFinal toy (text "vault") 0 2 vault vault x w.disk
run_migration_survives_example =
    run_migration_survives toy (text "vault") 0 2 vault vault toy-IsDocumented vault_target
      (omega arith) vault-IsKind refl start (4 ∷ 4 ∷ []) start-IsFresh stops

start-IsRecoverable : IsRecoverable toy (text "vault") 0 2 vault vault start
unfolding IsRecoverable
start-IsRecoverable = inl start-IsFresh

run_migration_steps_example :
    ((x : Migrated) × (w : Machine) × (run_migration toy control_plane
          (text "vault")
          (natural 2)
          (alive 3 start)
        ≡ (w, ok x))
      × IsFinal toy (text "vault") 0 2 vault vault x w.disk)
    ⊎ ((w : Machine) × (run_migration toy control_plane (text "vault") (natural 2) (alive 3 start)
          ≡ (w, err interrupted))
        × (◌≢◌ {A = Option ℕ} (some 3) none)
        × IsRecoverable toy (text "vault") 0 2 vault vault w.disk)
run_migration_steps_example =
    run_migration_steps toy (text "vault") 0 2 vault vault toy-IsDocumented vault_target
      (omega arith) vault-IsKind refl start (some 3) start-IsRecoverable

abbrev completed_run : Migrated
completed_run = record {
  receipt = final_receipt toy (text "vault") 0 2 vault vault;
  state = final_state toy (text "vault") 0 2 vault vault;
}

abbrev completed_disk : Disk
completed_disk = record {
  resource = stored completed_run.state;
  journal = missing;
  receipt = stored completed_run.receipt;
  backup = stored vault;
}

completed-IsFinal : IsFinal toy (text "vault") 0 2 vault vault completed_run completed_disk
completed-IsFinal = record {
  state_is = refl;
  receipt_is = refl;
  resource_is = refl;
  journal_is = refl;
  stored_is = refl;
  backup_is = refl;
}

rollback-run_example : rollback_migration toy (unbroken completed_disk) ≡ (
  unbroken (record completed_disk {
    resource = stored vault;
    receipt = stored (undone_receipt toy (text "vault") 0 2 vault);
  }),
  ok (record { receipt = undone_receipt toy (text "vault") 0 2 vault; state = vault }),
)
rollback-run_example =
    rollback-run toy (text "vault") 0 2 vault toy-IsDocumented vault_target (omega arith)
      completed_run completed_disk completed-IsFinal

-- The two resources have different digests.
vault-ne : hash_state toy vault ≢ hash_state toy (final_state toy (text "vault") 0 2 vault vault)
unfolding runs_open final_state project next_state
vault-ne q = false≢true ((text_eq_iff _ _).1 q)

rollback_refuses_example :
    rollback_migration toy (unbroken (record completed_disk { resource = stored vault }))
    ≡ (unbroken (record completed_disk { resource = stored vault }), err (thrown rollback_diverged))
rollback_refuses_example =
    rollback_refuses toy (text "vault") 0 2 vault toy-IsDocumented vault_target (omega arith)
      completed_run completed_disk vault none completed-IsFinal vault-ne

rollback_after_rerun_example :
    (y : Migrated) × (w : Machine) × (run_migration toy control_plane
        (text "vault")
        (natural 2)
        (unbroken completed_disk)
      ≡ (w, ok y))
    × ((rollback_migration toy (unbroken w.disk)).1 ≡ err (thrown backup_checksum_mismatch))
rollback_after_rerun_example =
    rollback_after_rerun toy (text "vault") 0 2 vault completed_run completed_disk toy-IsDocumented
      vault_target (omega arith) vault-IsKind refl completed-IsFinal vault-ne

plan_migration-control_plane_example :
    plan_migration control_plane (text "vault") (natural 1) (natural 2)
    ≡ ok (record {
      resource = text "vault";
      from_version = 1;
      to_version = 2;
      steps = create_step (text "vault") 1 ∷ [];
    })
unfolding steps_from
plan_migration-control_plane_example =
    plan_migration-control_plane (text "vault") 1 2 vault_target (omega arith)

-- The journal is lost behind the first of two steps.
abbrev damaged_disk : Disk
damaged_disk = record {
  resource = stored (project (text "vault") 0 1 vault);
  journal = corrupt;
  receipt = missing;
  backup = stored vault;
}

repair-run_example :
    (repaired : Disk) × (x : Migrated) × (w : Machine) × (repair_migration toy control_plane
        (text "vault")
        (natural 2)
        (unbroken damaged_disk)
      ≡ (unbroken repaired, ok (natural 0)))
    × (run_migration toy control_plane (text "vault") (natural 2) (unbroken repaired) ≡ (w, ok x))
    × IsFinal toy (text "vault") 0 2 vault vault x w.disk
repair-run_example =
    repair-run toy (text "vault") 0 2 1 vault toy-IsDocumented vault_target (omega arith)
      vault-IsKind refl (omega arith) damaged_disk refl refl refl
