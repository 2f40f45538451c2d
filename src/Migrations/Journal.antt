-- ===== src/Migrations/Journal.antt =====
-- The journal of a run, its check, and its reconstruction from a backup
-- (packages/migrations/src/runner.mjs).
use wendkeep.Prelude.{
  ℕ, Bool, true, false, not, ◌&&◌, ◌==◌, leb, if◌then◌else◌, Option, none, some, List, [], ◌∷◌, map,
  length,
}
use wendkeep.Prelude.Text.{Text, text_eq}
use wendkeep.Prelude.Result.{Result, ok, ◌>>=◌, ◌>>◌, guard}
use wendkeep.Platform.{Platform}
use wendkeep.Sync.Event.Create.{is_sha256}
use wendkeep.Migrations.Data.{
  MigrationError, journal_invalid, state_diverged, Version, natural, is_version, Resource,
  hash_state,
}
use wendkeep.Migrations.Registry.{MigrationStep, Plan, apply_step}

pub data StepStatus : Type 0 where
  waiting writing completed : StepStatus

pub data JournalStatus : Type 0 where
  running finished : JournalStatus

-- `none` is a property that is not set.
pub record JournalStep : Type 0 where
  pub id : Text
  pub from_version : ℕ
  pub to_version : ℕ
  pub status : StepStatus
  pub before_sha256 : Option Text
  pub expected_after_sha256 : Option Text
  pub after_sha256 : Option Text
  pub recovered_after_write : Bool

pub record Journal : Type 0 where
  pub schema_version : ℕ
  pub resource : Text
  pub status : JournalStatus
  pub from_version : ℕ
  pub to_version : ℕ
  pub before_sha256 : Text
  pub backup_sha256 : Text
  pub steps : List JournalStep

-- a === b, where either may be undefined
unfoldable pub same_hash : Option Text → Option Text → Bool
same_hash none none = true
same_hash (some a) (some b) = text_eq a b
same_hash _ _ = false

-- value === undefined || validHash(value)
unfoldable pub is_hash_or_unset : Option Text → Bool
is_hash_or_unset none = true
is_hash_or_unset (some h) = is_sha256 h

unfoldable pub is_set : Option Text → Bool
is_set none = false
is_set (some h) = true

-- `statusOrderValid`; the first argument is the status of the step before.
unfoldable pub follows : StepStatus → StepStatus → Bool
follows prior waiting = true
follows completed _ = true
follows _ _ = false

-- What the check asks of a step by its status; `prior` is the digest that the steps before end in.
unfoldable pub has_fields : StepStatus → Text → JournalStep → Bool
unfolding is_set same_hash
has_fields waiting prior j =
    not (is_set j.before_sha256)
    && not (is_set j.expected_after_sha256)
    && not (is_set j.after_sha256)
    && not j.recovered_after_write
has_fields writing prior j = same_hash j.before_sha256 (some prior)
has_fields completed prior j =
    same_hash j.before_sha256 (some prior)
    && is_set j.after_sha256
    && same_hash j.expected_after_sha256 j.after_sha256

unfoldable pub is_valid_step : StepStatus → Text → MigrationStep → JournalStep → Bool
unfolding is_hash_or_unset follows has_fields
is_valid_step prior_status prior planned j =
    follows prior_status j.status
    && text_eq j.id planned.id
    && (j.from_version == planned.from_version)
    && (j.to_version == planned.to_version)
    && is_hash_or_unset j.before_sha256
    && is_hash_or_unset j.expected_after_sha256
    && is_hash_or_unset j.after_sha256
    && has_fields j.status prior j

unfoldable pub next_prior : Text → StepStatus → Option Text → Text
next_prior prior completed (some h) = h
next_prior prior _ _ = prior

-- The loop of `assertJournal` over the steps of the journal and of the plan.
unfoldable pub are_valid_steps : StepStatus → Text → List MigrationStep → List JournalStep → Bool
unfolding is_valid_step next_prior
are_valid_steps prior_status prior [] [] = true
are_valid_steps prior_status prior (planned ∷ plan) (j ∷ js) =
    is_valid_step prior_status prior planned j
    && are_valid_steps j.status (next_prior prior j.status j.after_sha256) plan js
are_valid_steps prior_status prior _ _ = false

unfoldable pub is_running : JournalStatus → Bool
is_running running = true
is_running finished = false

-- `assertJournal`, on a journal that has the properties of the record.
unfoldable pub assert_journal : Journal → Text → Version → Plan → Result MigrationError (Unit {0})
unfolding is_running are_valid_steps
assert_journal j resource target plan =
    guard
      ((j.schema_version == 1)
        && text_eq j.resource resource
        && is_running j.status
        && is_version target j.to_version
        && is_sha256 j.before_sha256
        && text_eq j.backup_sha256 j.before_sha256
        && (length j.steps == length plan.steps)
        && are_valid_steps completed j.before_sha256 plan.steps j.steps)
      journal_invalid

unfoldable pub waiting_step : MigrationStep → JournalStep
waiting_step step = record {
  id = step.id;
  from_version = step.from_version;
  to_version = step.to_version;
  status = waiting;
  before_sha256 = none;
  expected_after_sha256 = none;
  after_sha256 = none;
  recovered_after_write = false;
}

unfoldable pub create_journal : Plan → Text → Journal
unfolding waiting_step
create_journal plan before_hash = record {
  schema_version = 1;
  resource = plan.resource;
  status = running;
  from_version = plan.from_version;
  to_version = plan.to_version;
  before_sha256 = before_hash;
  backup_sha256 = before_hash;
  steps = map waiting_step plan.steps;
}

-- A step whose write is known to have happened, and the digests before and after it.
unfoldable pub recovered_step : MigrationStep → Text → Text → JournalStep
recovered_step step before_hash after_hash = record {
  id = step.id;
  from_version = step.from_version;
  to_version = step.to_version;
  status = completed;
  before_sha256 = some before_hash;
  expected_after_sha256 = some after_hash;
  after_sha256 = some after_hash;
  recovered_after_write = true;
}

-- step.to_version <= state.format_version; the versions of steps are positive
unfoldable pub reaches : Version → ℕ → Bool
reaches (natural n) m = leb m n
reaches _ m = false

unfoldable pub rebuilt_step : Platform → Version → MigrationStep → Resource → Resource → JournalStep
unfolding reaches waiting_step recovered_step
rebuilt_step p version step before after =
    if reaches version step.to_version
    then recovered_step step (hash_state p before) (hash_state p after)
    else waiting_step step

-- The loop of `rebuildJournalFromBackup`: the steps of the journal, and the resources by version.
unfoldable pub rebuild_steps :
    Platform
    → Version
    → List MigrationStep
    → Resource
    → Result MigrationError (List JournalStep × List (ℕ × Resource))
rebuild_steps p version [] projected = ok ([], [])
rebuild_steps p version (step ∷ steps) projected = do
  next ← apply_step step projected
  (js, by_version) ← rebuild_steps p version steps next
  ok (rebuilt_step p version step projected next ∷ js, (step.to_version, next) ∷ by_version)

-- expectedByVersion.get(state.format_version)
unfoldable pub expected_at : Version → List (ℕ × Resource) → Option Resource
expected_at version [] = none
expected_at version ((v, s) ∷ rest) =
    if is_version version v then some s else expected_at version rest

unfoldable pub is_expected : Platform → Resource → Option Resource → Bool
is_expected p s none = false
is_expected p s (some e) = text_eq (hash_state p e) (hash_state p s)

-- `rebuildJournalFromBackup`; the backup is at the version that the plan starts from.
unfoldable pub rebuild_journal :
    Platform → Plan → Resource → Resource → Result MigrationError Journal
unfolding is_expected expected_at
rebuild_journal p plan backup s = do
  (js, by_version) ← rebuild_steps p s.format_version plan.steps backup
  guard (is_expected p s (expected_at s.format_version ((plan.from_version, backup) ∷ by_version)))
      state_diverged
  ok (record (create_journal plan (hash_state p backup)) { steps = js })
