-- ===== src/Migrations/Registry.antt =====
-- packages/migrations/src/registry.mjs: the steps of the control plane, and plans of them.
pub mod Laws
use mathlib.Core.Option
use wendkeep.Prelude.{
  ℕ, zero, suc, ◌+◌, ◌-◌, leb, ◌==◌, Option, none, some, List, [], ◌∷◌, ◌++◌, find,
}
use wendkeep.Prelude.Text.{Text, text, decimal}
use wendkeep.Prelude.Json.{arr}
use wendkeep.Prelude.Table.{Table, lookup}
use wendkeep.Prelude.Result.{Result, ok, err, ◌>>=◌, ◌>>◌, guard}
use wendkeep.Migrations.Data.{
  MigrationError, version_invalid, resource_unknown, target_unsupported, future_version,
  path_unsupported, step_version_mismatch, Version, natural, is_version, is_integer, Resource,
  history_items, note_item,
}

pub record MigrationStep : Type 0 where
  pub id : Text
  pub resource : Text
  pub from_version : ℕ
  pub to_version : ℕ

abbrev pub control_plane_targets : Table ℕ
control_plane_targets =
    (text "vault", 2)
    ∷ (text "ledger", 2)
    ∷ (text "active-contexts", 3)
    ∷ (text "observer", 6)
    ∷ (text "portable", 2)
    ∷ []

-- `${resource}:${fromVersion}->${fromVersion + 1}`
unfoldable pub step_id : Text → ℕ → Text
step_id r v = r ++ (text ":" ++ (decimal v ++ (text "->" ++ decimal (v + 1))))

unfoldable pub create_step : Text → ℕ → MigrationStep
create_step r v = record { id = step_id r v; resource = r; from_version = v; to_version = v + 1 }

-- What `apply` returns for a resource of its version.
unfoldable pub migrated : MigrationStep → Resource → Resource
migrated step source = record source {
  format_version = natural (step.from_version + 1);
  migration_history = arr (note_item (history_items source.migration_history) step.id);
}

-- `apply` of a step; the resource is an object.
unfoldable pub apply_step : MigrationStep → Resource → Result MigrationError Resource
apply_step step source = do
  guard (is_version source.format_version step.from_version) step_version_mismatch
  ok (migrated step source)

-- The steps of one resource; the step from a version is found by that version.
abbrev pub Registry : Type 0
Registry = Text → Option (List MigrationStep)

-- Array.from({ length: count }, (_, from) => createStep(resource, from)), from a version on
unfoldable pub steps_from : Text → ℕ → ℕ → List MigrationStep
unfolding create_step
steps_from r v zero = []
steps_from r v (suc count) = create_step r v ∷ steps_from r (v + 1) count

-- `createControlPlaneMigrationRegistry`
unfoldable pub control_plane : Registry
control_plane r = Option.map (steps_from r 0) (lookup r control_plane_targets)

pub record Plan : Type 0 where
  pub resource : Text
  pub from_version : ℕ
  pub to_version : ℕ
  pub steps : List MigrationStep

unfoldable pub step_at : List MigrationStep → ℕ → Result MigrationError MigrationStep
step_at steps v = elim (find (λ s. s.from_version == v) steps) [
  | none ↦ err path_unsupported
  | some step ↦ ok step
]

-- The loop of `planMigration` from a version on, for `count` versions.
unfoldable pub collect_steps :
    List MigrationStep → ℕ → ℕ → Result MigrationError (List MigrationStep)
collect_steps steps v zero = ok []
collect_steps steps v (suc count) = do
  step ← step_at steps v
  later ← collect_steps steps (v + 1) count
  ok (step ∷ later)

unfoldable pub source_number : Version → Result MigrationError ℕ
source_number (natural n) = ok n
source_number _ = err version_invalid

unfoldable pub or_unknown {ℓ} : {A : Type ℓ} → Option A → Result MigrationError A
or_unknown none = err resource_unknown
or_unknown (some a) = ok a

-- `planMigration`
unfoldable pub plan_migration : Registry → Text → Version → Version → Result MigrationError Plan
plan_migration registry r source_version target_version = do
  source ← source_number source_version
  guard (is_integer target_version) version_invalid
  resource_steps ← or_unknown (registry r)
  target ← or_unknown (lookup r control_plane_targets)
  guard (is_version target_version target) target_unsupported
  guard (leb source target) future_version
  steps ← collect_steps resource_steps source (target - source)
  ok (record { resource = r; from_version = source; to_version = target; steps = steps })
