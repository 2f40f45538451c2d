-- ===== src/Migrations/Rollback.antt =====
-- `rollbackMigration` of packages/migrations/src/runner.mjs.
pub mod Laws
use mathlib.Core.Option
use wendkeep.Prelude.{Bool, true, false, ◌&&◌, ◌≡◌, List, [], ◌∷◌}
use wendkeep.Prelude.Text.{Text, text_eq}
use wendkeep.Prelude.Result.{Result, ok, err, guard}
use wendkeep.Platform.{Platform}
use wendkeep.Migrations.Data.{
  MigrationError, backup_corrupt, resource_corrupt, receipt_corrupt, rollback_unavailable,
  rollback_diverged, backup_checksum_mismatch, Resource, hash_state,
}
use wendkeep.Migrations.Receipt.{Receipt, rolled_back, assert_receipt, is_complete}
use wendkeep.Migrations.Machine.{
  Disk, Run, ◌>>=◌, ◌>>◌, return, throw, try, get_disk, read_json, write_resource, write_receipt,
}

pub record RolledBack : Type 0 where
  pub receipt : Receipt
  pub state : Resource

unfoldable pub fits_backup : Platform → Receipt → Resource → Bool
fits_backup p receipt backup =
    text_eq (hash_state p backup) receipt.backup_sha256
    && text_eq (hash_state p backup) receipt.before_sha256

-- `rollbackMigration`, which digests the resource that it reads again.
unfoldable pub rollback_migration : Platform → Run RolledBack
unfolding fits_backup
rollback_migration p = do
  d ← get_disk
  receipt ← try (read_json receipt_corrupt d.receipt)
  try (assert_receipt receipt)
  try (guard (is_complete receipt.status) rollback_unavailable)
  current ← try (read_json resource_corrupt d.resource)
  try (guard (text_eq (hash_state p current) receipt.after_sha256) rollback_diverged)
  backup ← try (read_json backup_corrupt d.backup)
  try (guard (fits_backup p receipt backup) backup_checksum_mismatch)
  write_resource backup
  now ← get_disk
  restored ← try (read_json resource_corrupt now.resource)
  let undone : Receipt = record receipt {
    status = rolled_back;
    restored_sha256 = hash_state p restored;
  }
  write_receipt undone
  return (record { receipt = undone; state = backup })
