-- ===== src/Migrations/Repair/Laws.antt =====
-- A repaired journal stands for what has happened to the resource
-- (packages/migrations/src/runner.mjs).
use wendkeep.Prelude.{
  ℕ, zero, suc, ◌+◌, ◌-◌, ◌≤◌, ◌≡◌, refl, ap, ◌∙◌, sym, subst, true, none, some, List, [], ◌∷◌, inl,
  inr, map, arith,
}
use wendkeep.Prelude.Text.{Text, text_eq_refl}
use wendkeep.Prelude.Table.{lookup}
use wendkeep.Prelude.Result.{ok, ◌>>=◌, ◌>>◌, guard}
use wendkeep.Platform.{Platform, IsDocumented}
use wendkeep.Migrations.Data.{
  Version, Resource, natural, state_diverged, is_version, is_integer, hash_state,
}
use wendkeep.Migrations.Registry.{
  control_plane_targets, control_plane, Plan, plan_migration, MigrationStep, create_step,
  steps_from, migrated, apply_step,
}
use wendkeep.Migrations.Journal.{
  JournalStep, Journal, waiting_step, recovered_step, reaches, rebuilt_step, rebuild_steps,
  expected_at, is_expected, rebuild_journal, create_journal,
}
use wendkeep.Migrations.Machine.{
  File, corrupt, stored, Disk, Machine, fault, commit, read_json, write_journal, remove_journal,
}
use wendkeep.Migrations.Receipt.{Receipt}
use wendkeep.Migrations.Run.Ending.{project-version}
use wendkeep.Migrations.Run.{Migrated, run_migration}
use wendkeep.Migrations.Run.Perform.{assert_resource}
use wendkeep.Migrations.Run.Progress.{Shows, next_state, project, done_step, Progress}
use wendkeep.Migrations.Run.Shown.{IsLeft, apply_step-create_step}
use wendkeep.Migrations.Run.Step.{waiting-Progress}
use wendkeep.Migrations.Run.Check.{IsKind}
use wendkeep.Migrations.Run.Opening.{planned, plan, first_journal, IsRecoverable, IsFinal}
use wendkeep.Migrations.Run.Recovery.{unbroken, run_migration_steps}
use wendkeep.Migrations.Repair.{check_backup_version, rebuild_and_write, repair_migration}

-- What the loop makes of the steps before and behind the version of the resource.
module _ (p : Platform) (r : Text) where
  rebuild_steps-cons :
      (version : Version) (step : MigrationStep) (steps : List MigrationStep) (s next : Resource)
      (js : List JournalStep) (later : List (ℕ × Resource))
      → apply_step step s ≡ ok next
      → rebuild_steps p version steps next ≡ ok (js, later)
      → rebuild_steps p version (step ∷ steps) s
        ≡ ok (rebuilt_step p version step s next ∷ js, (step.to_version, next) ∷ later)
  unfolding rebuild_steps
  rebuild_steps-cons version step steps s next js later applied rest =
      rw (applied, rebuild_steps) (rw rest refl)

  rebuilt_step-wait :
      (m v : ℕ) (s : Resource)
      → m ≤ v
      → rebuilt_step p (natural m) (create_step r v) s (next_state r v s)
        ≡ waiting_step (create_step r v)
  unfolding rebuilt_step reaches create_step
  rebuilt_step-wait m v s le = ground (arith, le)

  rebuilt_step-done :
      (m v : ℕ) (s : Resource)
      → v + 1 ≤ m
      → rebuilt_step p (natural m) (create_step r v) s (next_state r v s) ≡ done_step p r v s true
  unfolding rebuilt_step reaches create_step recovered_step
  rebuilt_step-done m v s le = ground (arith, le)

  rebuild_steps-wait :
      (m v n : ℕ) (s : Resource)
      → m ≤ v
      → s.format_version ≡ natural v
      → (later : List (ℕ × Resource)) × (rebuild_steps p (natural m) (steps_from r v n) s
          ≡ ok (map waiting_step (steps_from r v n), later))
  unfolding rebuild_steps steps_from next_state migrated create_step
  rebuild_steps-wait m v zero s le version = ([], refl)
  rebuild_steps-wait m v (suc n) s le version =
      let (rest, e) = rebuild_steps-wait m (v + 1) n (next_state r v s) (omega arith) refl in
      (
        (v + 1, next_state r v s) ∷ rest,
        rebuild_steps-cons (natural m) (create_step r v) (steps_from r (v + 1) n) s
              (next_state r v s) _ rest (apply_step-create_step r v s version) e
            ∙ ap
                (λ j.
                  ok (
                    j ∷ map waiting_step (steps_from r (v + 1) n),
                    (v + 1, next_state r v s) ∷ rest,
                  ))
                (rebuilt_step-wait m v s le),
      )

  -- The journal that is made shows the steps up to the version of the resource as completed.
  rebuild_steps-Progress :
      (n k v m : ℕ) (s : Resource)
      → k ≤ n
      → m ≡ v + k
      → s.format_version ≡ natural v
      → (js : List JournalStep) × (later : List (ℕ × Resource)) × (rebuild_steps p
            (natural m)
            (steps_from r v n)
            s
          ≡ ok (js, later))
        × Progress p r v n s js (project r v k s)
        × (expected_at (natural m) ((v, s) ∷ later) ≡ some (project r v k s))
  unfolding Progress steps_from project expected_at is_version next_state migrated create_step
  rebuild_steps-Progress n zero v m s le at version =
      let (later, e) = rebuild_steps-wait m v n s (omega arith) version in
      (_, later, e, waiting-Progress p r v n s, ground (arith, at))
  rebuild_steps-Progress zero (suc k) v m s le at version = absurd (omega arith)
  rebuild_steps-Progress (suc n) (suc k) v m s le at version =
      let (js, later, e, now, found) =
        rebuild_steps-Progress n k (v + 1) m (next_state r v s) (omega arith) (omega arith) refl in
      (
        done_step p r v s true ∷ js,
        (v + 1, next_state r v s) ∷ later,
        rebuild_steps-cons (natural m) (create_step r v) (steps_from r (v + 1) n) s
              (next_state r v s) js later (apply_step-create_step r v s version) e
            ∙ ap (λ j. ok (j ∷ js, (v + 1, next_state r v s) ∷ later))
                (rebuilt_step-done m v s (omega arith)),
        inl (true, refl, now),
        ground (arith, at, found),
      )

rebuild_journal-ok :
    (p : Platform) (q : Plan) (backup s : Resource) (js : List JournalStep)
    (later : List (ℕ × Resource))
    → rebuild_steps p s.format_version q.steps backup ≡ ok (js, later)
    → expected_at s.format_version ((q.from_version, backup) ∷ later) ≡ some s
    → rebuild_journal p q backup s
      ≡ ok (record (create_journal q (hash_state p backup)) { steps = js })
unfolding rebuild_journal is_expected
rebuild_journal-ok p q backup s js later e found =
    ap
      (λ o. o >>= λ x.
        guard (is_expected p s (expected_at s.format_version ((q.from_version, backup) ∷ x.1)))
          state_diverged
        >> ok (record (create_journal q (hash_state p backup)) { steps = x.0 }))
      e
    ∙ ap
        (λ o.
          guard (is_expected p s o) state_diverged
          >> ok (record (create_journal q (hash_state p backup)) { steps = js }))
        found
    ∙ ap
        (λ b.
          guard b state_diverged
          >> ok (record (create_journal q (hash_state p backup)) { steps = js }))
        (text_eq_refl (hash_state p s))

-- A repair whose parts return, on a disk with a corrupt journal.
repair_migration-ok :
    (p : Platform) (r : Text) (target : Version) (q : Plan) (j : Journal) (s backup : Resource)
    (receipt : File Receipt)
    → check_backup_version backup.format_version ≡ ok tt
    → assert_resource backup r ≡ ok tt
    → plan_migration control_plane r backup.format_version target ≡ ok q
    → rebuild_journal p q backup s ≡ ok j
    → repair_migration p control_plane r target (
        unbroken (record {
          resource = stored s;
          journal = corrupt;
          receipt = receipt;
          backup = stored backup;
        }))
      ≡ (
        unbroken (record {
          resource = stored s;
          journal = stored j;
          receipt = receipt;
          backup = stored backup;
        }),
        ok backup.format_version,
      )
unfolding repair_migration rebuild_and_write read_json write_journal remove_journal commit fault
repair_migration-ok p r target q j s backup receipt checked asserted planned' rebuilt =
    rw (checked, asserted, planned') (rw rebuilt refl)

module _ (p : Platform) (r : Text) (v t k : ℕ) (s : Resource) (good : IsDocumented p)
    (known : lookup r control_plane_targets ≡ some t) (le : v ≤ t) (kind : IsKind r s)
    (version : s.format_version ≡ natural v) (few : k ≤ t - v) where
  -- The resource after `k` steps, from which the journal is made again.
  abbrev current : Resource
  current = project r v k s

  rebuild_journal-Progress :
      (js : List JournalStep) × Progress p r v (t - v) s js current
      × (rebuild_journal p (plan p r v t s s) s current
          ≡ ok (record (first_journal p r v t s s) { steps = js }))
  unfolding plan first_journal
  rebuild_journal-Progress =
      let (js, later, e, now, found) =
        rebuild_steps-Progress p r (t - v) k v (v + k) s few refl version in
      let at : natural (v + k) ≡ current.format_version = sym (project-version r v k s version) in
      (
        js,
        now,
        rebuild_journal-ok p (plan p r v t s s) s current js later
            (subst (λ x. rebuild_steps p x (steps_from r v (t - v)) s ≡ ok (js, later)) at e)
            (subst (λ x. expected_at x ((v, s) ∷ later) ≡ some current) at found),
      )

  source_checks : (check_backup_version s.format_version ≡ ok tt) × (assert_resource s r ≡ ok tt)
  unfolding check_backup_version assert_resource is_integer IsKind
  source_checks = (rw version refl, rw (kind.0, kind.1) refl)

  -- A migration of a resource of the control plane whose journal is corrupt, where the resource has
  -- gone through `k` steps and the backup is its source, is repaired from the backup; a run that is
  -- not interrupted then brings it to the end of one that had no accident.
  pub repair-run :
      (d : Disk)
      → d.journal ≡ corrupt
      → d.resource ≡ stored (project r v k s)
      → d.backup ≡ stored s
      → (repaired : Disk) × (x : Migrated) × (w : Machine) × (repair_migration p control_plane r
            (natural t)
            (unbroken d)
          ≡ (unbroken repaired, ok s.format_version))
        × (run_migration p control_plane r (natural t) (unbroken repaired) ≡ (w, ok x))
        × IsFinal p r v t s s x w.disk
  unfolding IsRecoverable IsLeft
  repair-run d broken now_at backed =
      let (js, now, rebuilt) = rebuild_journal-Progress in
      let journal : Journal = record (first_journal p r v t s s) { steps = js } in
      let before : Disk = record {
        resource = stored current;
        journal = corrupt;
        receipt = d.receipt;
        backup = stored s;
      } in
      let repaired : Disk = record before { journal = stored journal } in
      let is_before : d ≡ before = cc (broken, now_at, backed) in
      let planned_at =
        ap (λ x. plan_migration control_plane r x (natural t)) version
        ∙ planned p r v t s s good known le kind version in
      let repairs =
        repair_migration-ok p r (natural t) (plan p r v t s s) journal current s d.receipt
          source_checks.0 source_checks.1 planned_at rebuilt in
      let shows : Shows (first_journal p r v t s s) s js current repaired = record {
        shows_journal = refl;
        shows_resource = refl;
        shows_backup = refl;
      } in
      elim (run_migration_steps p r v t s s good known le kind version repaired none
        (inr (js, current, now, shows))) [
          | inl (x, w, runs, ends) ↦ (
            repaired,
            x,
            w,
            ap (λ e. repair_migration p control_plane r (natural t) (unbroken e)) is_before
                ∙ repairs,
            runs,
            ends,
          )
          | inr (w, e, ne, _) ↦ absurd (ne refl)
        ]
