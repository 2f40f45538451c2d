-- ===== src/Migrations/Rollback/Laws.antt =====
-- A rollback undoes a completed migration (packages/migrations/src/runner.mjs).
use wendkeep.Prelude.{
  ℕ, zero, suc, ◌+◌, ◌-◌, ◌≤◌, ◌≡◌, ◌≢◌, refl, ap, ◌∙◌, sym, subst, true, ◌==◌, leb, Option, some,
  [], inr, length, arith,
}
use wendkeep.Prelude.Text.{Text, text_eq, text_eq_refl, text_eq_ne, includes}
use wendkeep.Prelude.Table.{lookup}
use wendkeep.Prelude.Result.{ok, err}
use wendkeep.Platform.{Platform, IsDocumented}
use wendkeep.Migrations.Data.{
  Resource, natural, hash_state, rollback_diverged, backup_checksum_mismatch,
}
use wendkeep.Migrations.Registry.{control_plane_targets, control_plane, step_id, migrated}
use wendkeep.Migrations.Journal.{same_hash}
use wendkeep.Migrations.Receipt.{
  Receipt, rolled_back, resources, is_hash, is_valid_receipt_step, are_valid_receipt_steps,
  is_restored, assert_receipt, is_complete,
}
use wendkeep.Migrations.Machine.{
  missing, stored, Disk, Machine, thrown, fault, commit, read_json, write_resource, write_receipt,
}
use wendkeep.Migrations.Run.{Migrated, run_migration}
use wendkeep.Migrations.Run.Progress.{project, next_state, receipt_steps}
use wendkeep.Migrations.Run.Check.{IsKind, hash_state-is_sha256}
use wendkeep.Migrations.Run.Opening.{final_state, final_receipt, IsFinal, IsFresh}
use wendkeep.Migrations.Run.Recovery.{unbroken, attempts, AreInterrupted, run_migration_survives}
use wendkeep.Migrations.Run.Ending.{project-version}
use wendkeep.Migrations.Rollback.{fits_backup, rollback_migration}

length-receipt_steps :
    (p : Platform) (r : Text) (v n : ℕ) (s : Resource) → length (receipt_steps p r v n s) ≡ n
unfolding receipt_steps
length-receipt_steps p r v zero s = refl
length-receipt_steps p r v (suc n) s =
    omega (arith, length-receipt_steps p r (v + 1) n (next_state r v s))

receipt_steps-valid :
    (p : Platform) (good : IsDocumented p) (r : Text) (v n : ℕ) (s : Resource)
    → are_valid_receipt_steps r v
        (some (hash_state p s))
        (hash_state p (project r v n s))
        (receipt_steps p r v n s)
      ≡ true
unfolding are_valid_receipt_steps receipt_steps project is_valid_receipt_step same_hash is_hash
receipt_steps-valid p good r v zero s = text_eq_refl (hash_state p s)
receipt_steps-valid p good r v (suc n) s = ground (
  arith,
  text_eq_refl (step_id r v),
  text_eq_refl (hash_state p s),
  hash_state-is_sha256 p (next_state r v s) good,
  receipt_steps-valid p good r (v + 1) n (next_state r v s),
)

known-includes :
    (r : Text) (t : ℕ) → lookup r control_plane_targets ≡ some t → includes resources r ≡ true
unfolding lookup
known-includes r t h = ground arith

assert_receipt-final :
    (p : Platform) (r : Text) (v t : ℕ) (s kept : Resource)
    → IsDocumented p
    → lookup r control_plane_targets ≡ some t
    → v ≤ t
    → assert_receipt (final_receipt p r v t s kept) ≡ ok tt
unfolding assert_receipt final_receipt final_state is_restored text_eq
assert_receipt-final p r v t s kept good known le =
    let ordered : leb v t ≡ true = ground (arith, le) in
    let rows = receipt_steps p r v (t - v) s in
    let counted : (length rows == (t - v)) ≡ true =
      ground (arith, length-receipt_steps p r v (t - v) s) in
    rw
      (
        known-includes r t known,
        ordered,
        hash_state-is_sha256 p s good,
        hash_state-is_sha256 p (project r v (t - v) s) good,
        text_eq_refl (hash_state p s),
        counted,
        receipt_steps-valid p good r v (t - v) s,
        assert_receipt,
      )
      refl

-- The disk that a completed migration leaves.
abbrev final_disk : Platform → Text → ℕ → ℕ → Resource → Resource → Disk
final_disk p r v t s kept = record {
  resource = stored (final_state p r v t s kept);
  journal = missing;
  receipt = stored (final_receipt p r v t s kept);
  backup = stored kept;
}

IsFinal-final_disk :
    (p : Platform) (r : Text) (v t : ℕ) (s kept : Resource) (x : Migrated) (d : Disk)
    → IsFinal p r v t s kept x d
    → d ≡ final_disk p r v t s kept
IsFinal-final_disk p r v t s kept x d h = cc (h.resource_is, h.journal_is, h.stored_is, h.backup_is)

-- The receipt of a rollback.
abbrev pub undone_receipt : Platform → Text → ℕ → ℕ → Resource → Receipt
undone_receipt p r v t s = record (final_receipt p r v t s s) {
  status = rolled_back;
  restored_sha256 = hash_state p s;
}

module _ (p : Platform) (r : Text) (v t : ℕ) (s : Resource) (good : IsDocumented p)
    (known : lookup r control_plane_targets ≡ some t) (le : v ≤ t) where
  rollback-final_disk : rollback_migration p (unbroken (final_disk p r v t s s)) ≡ (
    unbroken (record (final_disk p r v t s s) {
      resource = stored s;
      receipt = stored (undone_receipt p r v t s);
    }),
    ok (record { receipt = undone_receipt p r v t s; state = s }),
  )
  unfolding rollback_migration read_json write_resource write_receipt commit fault fits_backup
      final_receipt is_complete
  rollback-final_disk =
      rw
        (
          assert_receipt-final p r v t s s good known le,
          text_eq_refl (hash_state p (final_state p r v t s s)),
          text_eq_refl (hash_state p s),
        )
        refl

  -- A rollback that is not interrupted, right after a completed migration whose backup is its source,
  -- puts the resource back as it was at first, and marks the receipt as rolled back, with the digest
  -- of that resource.
  pub rollback-run :
      (x : Migrated) (d : Disk)
      → IsFinal p r v t s s x d
      → rollback_migration p (unbroken d) ≡ (
        unbroken (record d { resource = stored s; receipt = stored (undone_receipt p r v t s) }),
        ok (record { receipt = undone_receipt p r v t s; state = s }),
      )
  rollback-run x d h =
      subst
        (λ e. rollback_migration p (unbroken e) ≡ (
          unbroken (record e { resource = stored s; receipt = stored (undone_receipt p r v t s) }),
          ok (record { receipt = undone_receipt p r v t s; state = s }),
        ))
        (sym (IsFinal-final_disk p r v t s s x d h)) rollback-final_disk

  -- A resource whose digest was changed after the migration is not rolled back: no file is written.
  pub rollback_refuses :
      (x : Migrated) (d : Disk) (changed : Resource) (budget : Option ℕ)
      → IsFinal p r v t s s x d
      → hash_state p changed ≢ hash_state p (final_state p r v t s s)
      → rollback_migration p
          (record { disk = record d { resource = stored changed }; budget = budget })
        ≡ (
          record { disk = record d { resource = stored changed }; budget = budget },
          err (thrown rollback_diverged),
        )
  unfolding rollback_migration read_json final_receipt is_complete
  rollback_refuses x d changed budget h ne =
      subst
        (λ e.
          rollback_migration p
            (record { disk = record e { resource = stored changed }; budget = budget })
          ≡ (
            record { disk = record e { resource = stored changed }; budget = budget },
            err (thrown rollback_diverged),
          ))
        (sym (IsFinal-final_disk p r v t s s x d h))
        (rw (assert_receipt-final p r v t s s good known le, text_eq_ne _ _ ne) refl)

project-IsKind : (r : Text) (v n : ℕ) (s : Resource) → IsKind r s → IsKind r (project r v n s)
unfolding project next_state migrated IsKind
project-IsKind r v zero s h = h
project-IsKind r v (suc n) s h = project-IsKind r (v + 1) n (next_state r v s) h

-- Where the source of the last migration is not the backup, the receipt does not fit the backup.
rollback-mismatch :
    (p : Platform) (r : Text) (t : ℕ) (source kept : Resource)
    → IsDocumented p
    → lookup r control_plane_targets ≡ some t
    → hash_state p kept ≢ hash_state p source
    → (rollback_migration p (unbroken (final_disk p r t t source kept))).1
      ≡ err (thrown backup_checksum_mismatch)
unfolding rollback_migration read_json final_receipt is_complete fits_backup
rollback-mismatch p r t source kept good known ne =
    rw
      (
        assert_receipt-final p r t t source kept good known (omega arith),
        text_eq_refl (hash_state p (final_state p r t t source kept)),
        text_eq_ne _ _ ne,
      )
      refl

-- After a completed migration that changed the digest of the resource, a second run returns and
-- replaces the receipt by one that does not fit the backup: a rollback then fails with a checksum
-- mismatch.
pub rollback_after_rerun :
    (p : Platform) (r : Text) (v t : ℕ) (s : Resource) (x : Migrated) (d : Disk)
    → IsDocumented p
    → lookup r control_plane_targets ≡ some t
    → v ≤ t
    → IsKind r s
    → s.format_version ≡ natural v
    → IsFinal p r v t s s x d
    → hash_state p s ≢ hash_state p (final_state p r v t s s)
    → (y : Migrated) × (w : Machine) × (run_migration p control_plane r (natural t) (unbroken d)
        ≡ (w, ok y))
      × ((rollback_migration p (unbroken w.disk)).1 ≡ err (thrown backup_checksum_mismatch))
unfolding attempts AreInterrupted final_state
rollback_after_rerun p r v t s x d good known le kind version h ne =
    let final = final_state p r v t s s in
    let reached : final.format_version ≡ natural t =
      project-version r v (t - v) s version ∙ ap natural (omega (arith, le)) in
    let fresh : IsFresh p r t t final s d = record {
      no_journal = h.journal_is;
      has_source = h.resource_is;
      has_backup = inr h.backup_is;
    } in
    let (y, w, runs, ends) =
      run_migration_survives p r t t final s good known (omega arith)
        (project-IsKind r v (t - v) s kind) reached d [] fresh tt in
    (
      y,
      w,
      runs,
      subst (λ e. (rollback_migration p (unbroken e)).1 ≡ err (thrown backup_checksum_mismatch))
          (sym (IsFinal-final_disk p r t t final s y w.disk ends))
          (rollback-mismatch p r t final s good known ne),
    )
