-- ===== src/Migrations/Run/Progress.antt =====
-- How far a run has come, read from the journal and the resource
-- (packages/migrations/src/runner.mjs).
use wendkeep.Prelude.{ℕ, zero, suc, ◌+◌, ◌≡◌, Bool, false, none, some, List, [], ◌∷◌, ◌⊎◌, map}
use wendkeep.Prelude.Text.{Text}
use wendkeep.Platform.{Platform}
use wendkeep.Migrations.Data.{Resource, hash_state}
use wendkeep.Migrations.Registry.{create_step, steps_from, migrated, step_id}
use wendkeep.Migrations.Journal.{JournalStep, Journal, waiting, writing, completed, waiting_step}
use wendkeep.Migrations.Receipt.{ReceiptStep}
use wendkeep.Migrations.Machine.{Disk, stored}

-- The resource after the step from version `v`, and after `n` steps.
unfoldable pub next_state : Text → ℕ → Resource → Resource
next_state r v s = migrated (create_step r v) s

unfoldable pub project : Text → ℕ → ℕ → Resource → Resource
unfolding next_state
project r v zero s = s
project r v (suc n) s = project r (v + 1) n (next_state r v s)

-- A completed step; the flag tells whether its write was found after an interruption.
abbrev pub done_step : Platform → Text → ℕ → Resource → Bool → JournalStep
done_step p r v s found = record {
  id = step_id r v;
  from_version = v;
  to_version = v + 1;
  status = completed;
  before_sha256 = some (hash_state p s);
  expected_after_sha256 = some (hash_state p (next_state r v s));
  after_sha256 = some (hash_state p (next_state r v s));
  recovered_after_write = found;
}

-- The marks of a step at work: not begun, begun, and bound to its result.
pub data Mark : Type 0 where
  untouched begun bound : Mark

abbrev pub untouched_step : Text → ℕ → JournalStep
untouched_step r v = record {
  id = step_id r v;
  from_version = v;
  to_version = v + 1;
  status = waiting;
  before_sha256 = none;
  expected_after_sha256 = none;
  after_sha256 = none;
  recovered_after_write = false;
}

abbrev pub begun_step : Platform → Text → ℕ → Resource → JournalStep
begun_step p r v s = record (untouched_step r v) {
  status = writing;
  before_sha256 = some (hash_state p s);
}

abbrev pub mark_step : Platform → Text → ℕ → Resource → Mark → JournalStep
mark_step p r v s untouched = untouched_step r v
mark_step p r v s begun = begun_step p r v s
mark_step p r v s bound = record (begun_step p r v s) {
  expected_after_sha256 = some (hash_state p (next_state r v s));
}

-- Where the resource may be while a step has a mark: the new one is written only behind the last.
unfoldable pub Front : Text → ℕ → Resource → Mark → Resource → Type 0
Front r v s bound current = (current ≡ s) ⊎ (current ≡ next_state r v s)
Front r v s _ current = current ≡ s

-- `n` steps from version `v` and resource `s` on: some are completed, then one may be at work, and
-- the others wait; `current` is the resource.
unfoldable pub Progress : Platform → Text → ℕ → ℕ → Resource → List JournalStep → Resource → Type 0
unfolding Front
Progress p r v zero s [] current = current ≡ s
Progress p r v zero s (j ∷ js) current = ⊥
Progress p r v (suc n) s [] current = ⊥
Progress p r v (suc n) s (j ∷ js) current =
    ((found : Bool) × (j ≡ done_step p r v s found)
      × Progress p r (v + 1) n (next_state r v s) js current)
    ⊎ ((mark : Mark) × (j ≡ mark_step p r v s mark)
        × Front r v s mark current
        × (js ≡ map waiting_step (steps_from r (v + 1) n)))

-- What the receipt says of the steps.
unfoldable pub receipt_steps : Platform → Text → ℕ → ℕ → Resource → List ReceiptStep
unfolding next_state
receipt_steps p r v zero s = []
receipt_steps p r v (suc n) s =
    record {
      id = step_id r v;
      from_version = v;
      to_version = v + 1;
      before_sha256 = some (hash_state p s);
      after_sha256 = some (hash_state p (next_state r v s));
    }
    ∷ receipt_steps p r (v + 1) n (next_state r v s)

-- The journal with these steps, the resource, and the backup stand on the disk.
pub record Shows (journal : Journal) (first : Resource) (js : List JournalStep) (current : Resource)
    (d : Disk) : Type 0 where
  pub shows_journal : d.journal ≡ stored (record journal { steps = js })
  pub shows_resource : d.resource ≡ stored current
  pub shows_backup : d.backup ≡ stored first
