-- ===== src/Migrations/Repair.antt =====
-- `repairMigration` of packages/migrations/src/runner.mjs.
pub mod Laws
use mathlib.Core.Option
use wendkeep.Prelude.{true, false, ◌≡◌, List, [], ◌∷◌}
use wendkeep.Prelude.Text.{Text}
use wendkeep.Prelude.Result.{Result, ok, err}
use wendkeep.Platform.{Platform}
use wendkeep.Migrations.Data.{
  MigrationError, backup_corrupt, resource_corrupt, journal_corrupt, repair_not_required, Version,
  natural, is_integer, Resource,
}
use wendkeep.Migrations.Registry.{Registry, plan_migration}
use wendkeep.Migrations.Journal.{Journal, rebuild_journal}
use wendkeep.Migrations.Machine.{
  missing, corrupt, stored, Disk, Run, ◌>>=◌, ◌>>◌, return, throw, try, get_disk, read_json,
  write_journal, remove_journal,
}
use wendkeep.Migrations.Run.{resume_journal}
use wendkeep.Migrations.Run.Perform.{assert_resource}

unfoldable pub check_backup_version : Version → Result MigrationError (Unit {0})
check_backup_version version = elim (is_integer version) [
  | true ↦ ok tt
  | false ↦ err backup_corrupt
]

-- The version that a repaired run started from.
unfoldable pub rebuild_and_write : Platform → Registry → Text → Version → Disk → Run Version
unfolding check_backup_version
rebuild_and_write p registry resource target d = do
  s ← try (read_json resource_corrupt d.resource)
  backup ← try (read_json backup_corrupt d.backup)
  try (check_backup_version backup.format_version)
  try (assert_resource backup resource)
  plan ← try (plan_migration registry resource backup.format_version target)
  journal ← try (rebuild_journal p plan backup s)
  write_journal journal
  return backup.format_version

-- A journal that JSON.parse accepts is checked, and nothing is repaired.
unfoldable pub repair_migration : Platform → Registry → Text → Version → Run Version
unfolding rebuild_and_write
repair_migration p registry resource target = do
  d ← get_disk
  elim d.journal [
    | missing ↦ throw repair_not_required
    | stored j ↦ do
      _ ← try (resume_journal registry resource target (stored j))
      throw repair_not_required
    | corrupt ↦ do remove_journal; rebuild_and_write p registry resource target d
  ]
