-- ===== src/Migrations/Registry/Laws.antt =====
-- Plans over the control plane are the steps from the source to the target
-- (packages/migrations/src/registry.mjs).
use wendkeep.Prelude.{ℕ, zero, suc, ◌+◌, ◌-◌, ◌≤◌, ◌<◌, ◌≡◌, refl, ◌==◌, some, find, arith}
use wendkeep.Prelude.Text.{Text}
use wendkeep.Prelude.Table.{lookup}
use wendkeep.Prelude.Result.{ok}
use wendkeep.Migrations.Data.{natural, is_version, is_integer}
use wendkeep.Migrations.Registry.{
  control_plane_targets, create_step, steps_from, control_plane, step_at, collect_steps,
  source_number, or_unknown, plan_migration,
}

-- The step from a version stands among the steps of its resource.
step_at-steps_from :
    (r : Text) (w v count : ℕ)
    → v ≤ w
    → w < v + count
    → find (λ s. s.from_version == w) (steps_from r v count) ≡ some (create_step r w)
unfolding steps_from create_step
step_at-steps_from r w v zero h k = absurd (omega arith)
step_at-steps_from r w v (suc count) h k = ground (arith, step_at-steps_from r w (v + 1) count)

collect_steps-steps_from :
    (r : Text) (total v count : ℕ)
    → v + count ≤ total
    → collect_steps (steps_from r 0 total) v count ≡ ok (steps_from r v count)
unfolding collect_steps step_at steps_from
collect_steps-steps_from r total v zero h = refl
collect_steps-steps_from r total v (suc count) h =
    let found = step_at-steps_from r v 0 total (omega arith) (omega arith) in
    let later = collect_steps-steps_from r total (v + 1) count (omega arith) in
    ground (arith, found, later)

-- A plan for a resource of the control plane holds the steps from the version of the source to the
-- target, one for each version, in order.
pub plan_migration-control_plane :
    (r : Text) (v t : ℕ)
    → lookup r control_plane_targets ≡ some t
    → v ≤ t
    → plan_migration control_plane r (natural v) (natural t)
      ≡ ok (record {
        resource = r;
        from_version = v;
        to_version = t;
        steps = steps_from r v (t - v);
      })
unfolding plan_migration source_number is_integer is_version or_unknown control_plane
plan_migration-control_plane r v t known h =
    rw (known, collect_steps-steps_from r t v (t - v) (omega arith)) (ground arith)
