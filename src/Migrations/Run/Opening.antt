-- ===== src/Migrations/Run/Opening.antt =====
-- How a run finds or makes its journal
-- (packages/migrations/src/runner.mjs).
use wendkeep.Prelude.{ℕ, ◌-◌, ◌≤◌, ◌≡◌, refl, ap, ◌∙◌, some, List, [], ◌⊎◌, inl, inr, arith}
use wendkeep.Prelude.Text.{Text, text, text_eq_refl}
use wendkeep.Prelude.Table.{lookup}
use wendkeep.Prelude.Result.{ok}
use wendkeep.Platform.{Platform, IsDocumented}
use wendkeep.Migrations.Data.{Resource, natural, is_version, hash_state}
use wendkeep.Migrations.Registry.{
  control_plane_targets, control_plane, Plan, steps_from, plan_migration,
}
use wendkeep.Migrations.Registry.Laws.{plan_migration-control_plane}
use wendkeep.Migrations.Journal.{JournalStep, Journal, create_journal, assert_journal, is_running}
use wendkeep.Migrations.Receipt.{Receipt, complete}
use wendkeep.Migrations.Machine.{
  missing, stored, Disk, Machine, continue, try, return, ◌>>◌, exists, read_json, keep_backup,
  backup_resource, write_journal,
}
use wendkeep.Migrations.Machine.Laws.{Meets, Meets-continue, Meets-write, Meets-return}
use wendkeep.Migrations.Run.{Migrated, resume_journal, begin_journal, open_journal}
use wendkeep.Migrations.Run.Progress.{project, Progress, receipt_steps, Shows}
use wendkeep.Migrations.Run.Shown.{IsLeft}
use wendkeep.Migrations.Run.Step.{waiting-Progress}
use wendkeep.Migrations.Run.Check.{hash_state-is_sha256, length-Progress, Progress-valid, IsKind}

-- A migration of the resource `s` of kind `r` from version `v` to the target `t`, where `kept` is
-- the backup that is there, or the resource.
module _ (p : Platform) (r : Text) (v t : ℕ) (s : Resource) (kept : Resource) where
  unfoldable pub plan : Plan
  plan = record { resource = r; from_version = v; to_version = t; steps = steps_from r v (t - v) }

  unfoldable pub first_journal : Journal
  unfolding plan
  first_journal = create_journal plan (hash_state p s)

  -- No journal is there.
  pub record IsFresh (d : Disk) : Type 0 where
    pub no_journal : d.journal ≡ missing
    pub has_source : d.resource ≡ stored s
    pub has_backup : ((d.backup ≡ missing) × (kept ≡ s)) ⊎ (d.backup ≡ stored kept)

  -- What a migration starts from, or leaves where it is interrupted.
  unfoldable pub IsRecoverable : Disk → Type 0
  unfolding first_journal
  IsRecoverable d = IsFresh d ⊎ IsLeft first_journal kept (Progress p r v (t - v) s) d

  unfoldable pub final_state : Resource
  final_state = project r v (t - v) s

  unfoldable pub final_receipt : Receipt
  unfolding final_state
  final_receipt = record {
    schema_version = 1;
    resource = r;
    status = complete;
    from_version = v;
    to_version = t;
    before_sha256 = hash_state p s;
    after_sha256 = hash_state p final_state;
    backup_sha256 = hash_state p s;
    backup_file = text "migration-source.backup.json";
    steps = receipt_steps p r v (t - v) s;
    restored_sha256 = [];
  }

  -- The files and the result of a migration that has come to its end.
  pub record IsFinal (x : Migrated) (d : Disk) : Type 0 where
    pub state_is : x.state ≡ final_state
    pub receipt_is : x.receipt ≡ final_receipt
    pub resource_is : d.resource ≡ stored final_state
    pub journal_is : d.journal ≡ missing
    pub stored_is : d.receipt ≡ stored final_receipt
    pub backup_is : d.backup ≡ stored kept

  -- A journal at work, and what it is good for.
  unfoldable pub IsOpen : Journal → Resource → Disk → Type 0
  IsOpen j current d =
      (js : List JournalStep) × (j ≡ record first_journal { steps = js })
      × Progress p r v (t - v) s js current
      × Shows first_journal kept js current d

  module _ (good : IsDocumented p) (known : lookup r control_plane_targets ≡ some t) (le : v ≤ t)
      (kind : IsKind r s) (version : s.format_version ≡ natural v) where
    assert_journal-Progress :
        (js : List JournalStep) (current : Resource)
        → Progress p r v (t - v) s js current
        → assert_journal (record first_journal { steps = js }) r (natural t) plan ≡ ok tt
    unfolding assert_journal plan first_journal create_journal is_running is_version
    assert_journal-Progress js current now = ground (
      arith,
      text_eq_refl r,
      text_eq_refl (hash_state p s),
      hash_state-is_sha256 p s good,
      length-Progress p r v (t - v) s js current now,
      Progress-valid p good r v (t - v) s js current now,
    )

    pub resume_journal-Progress :
        (js : List JournalStep) (current : Resource)
        → Progress p r v (t - v) s js current
        → resume_journal control_plane r (natural t) (stored (record first_journal { steps = js }))
          ≡ ok (record first_journal { steps = js })
    unfolding resume_journal read_json first_journal plan create_journal
    resume_journal-Progress js current now =
        let planned = plan_migration-control_plane r v t known le in
        let checked = assert_journal-Progress js current now in ground (arith, planned, checked)

    pub planned : plan_migration control_plane r (natural v) (natural t) ≡ ok plan
    unfolding plan
    planned = plan_migration-control_plane r v t known le

    -- The backup is there, and the journal is not.
    IsKept : Disk → Type 0
    IsKept d = (d.journal ≡ missing) × (d.resource ≡ stored s) × (d.backup ≡ stored kept)

    keep_backup-IsKept : (d : Disk) → IsFresh d → IsKept (keep_backup d)
    unfolding keep_backup exists IsKept
    keep_backup-IsKept d fresh = elim fresh.has_backup [
      | inl (e, same) ↦ rw (e, same) (fresh.no_journal, fresh.has_source, fresh.has_source)
      | inr e ↦ rw e (fresh.no_journal, fresh.has_source, refl)
    ]

    IsFresh-kept : (d : Disk) → IsKept d → IsFresh d
    unfolding IsKept
    IsFresh-kept d held = record {
      no_journal = held.0;
      has_source = held.1;
      has_backup = inr held.2;
    }

    begin_journal-eq :
        (w : Machine)
        → begin_journal p control_plane r (natural t) s w
          ≡ (backup_resource >> (write_journal first_journal >> return first_journal)) w
    unfolding begin_journal first_journal
    begin_journal-eq w =
        ap
          (λ o.
            continue
              (λ q.
                backup_resource
                >> (write_journal (create_journal q (hash_state p s))
                    >> return (create_journal q (hash_state p s))))
              (try o w))
          (ap (λ x. plan_migration control_plane r x (natural t)) version ∙ planned)

    pub begin_journal-Meets :
        (w : Machine)
        → IsFresh w.disk
        → Meets IsRecoverable
            (λ j d. IsOpen j s d)
            w.budget
            (begin_journal p control_plane r (natural t) s w)
    unfolding backup_resource write_journal IsRecoverable IsKept IsOpen first_journal plan
        create_journal
    begin_journal-Meets w fresh = rw (begin_journal-eq w) (
        Meets-continue IsRecoverable (λ _ d. IsKept d) (λ j d. IsOpen j s d) _ _ _
          (Meets-write IsRecoverable IsKept keep_backup w (inl fresh)
            (keep_backup-IsKept w.disk fresh))
          (λ _ w1 held.
            Meets-continue IsRecoverable (λ _ d. Shows first_journal kept first_journal.steps s d)
              (λ j d. IsOpen j s d) _ _ _
              (Meets-write IsRecoverable (Shows first_journal kept first_journal.steps s)
                (λ d. record d { journal = stored first_journal }) w1
                (inl (IsFresh-kept w1.disk held))
                (record { shows_journal = refl; shows_resource = held.1; shows_backup = held.2 }))
              (λ _ w2 shows2.
                Meets-return IsRecoverable (λ j d. IsOpen j s d) first_journal w2
                  (first_journal.steps, refl, waiting-Progress p r v (t - v) s, shows2))))

    pub open_journal-begin :
        (d : Disk)
        → d.journal ≡ missing
        → open_journal p control_plane r (natural t) s d
          ≡ begin_journal p control_plane r (natural t) s
    unfolding open_journal exists
    open_journal-begin d e = rw e refl

    pub open_journal-resume :
        (d : Disk) (current : Resource) (j : Journal)
        → d.journal ≡ stored j
        → open_journal p control_plane r (natural t) current d
          ≡ try (resume_journal control_plane r (natural t) (stored j))
    unfolding open_journal exists
    open_journal-resume d current j e = rw e refl
