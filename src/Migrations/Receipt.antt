-- ===== src/Migrations/Receipt.antt =====
-- The receipt of a migration and its check (packages/migrations/src/runner.mjs).
use wendkeep.Prelude.{
  ℕ, ◌+◌, ◌-◌, Bool, true, false, ◌&&◌, ◌==◌, leb, Option, none, some, List, [], ◌∷◌, map, length,
}
use wendkeep.Prelude.Text.{Text, text, text_eq, includes}
use wendkeep.Prelude.Result.{Result, guard}
use wendkeep.Platform.{Platform}
use wendkeep.Sync.Event.Create.{is_sha256}
use wendkeep.Migrations.Data.{MigrationError, receipt_invalid, Resource, hash_state}
use wendkeep.Migrations.Registry.{step_id}
use wendkeep.Migrations.Journal.{JournalStep, Journal, same_hash}

pub data ReceiptStatus : Type 0 where
  complete rolled_back : ReceiptStatus

pub record ReceiptStep : Type 0 where
  pub id : Text
  pub from_version : ℕ
  pub to_version : ℕ
  pub before_sha256 : Option Text
  pub after_sha256 : Option Text

-- `restored_sha256` is set where the status is `rolled_back`, and a receipt that has it under the
-- other status is outside the model.
pub record Receipt : Type 0 where
  pub schema_version : ℕ
  pub resource : Text
  pub status : ReceiptStatus
  pub from_version : ℕ
  pub to_version : ℕ
  pub before_sha256 : Text
  pub after_sha256 : Text
  pub backup_sha256 : Text
  pub backup_file : Text
  pub steps : List ReceiptStep
  pub restored_sha256 : Text

unfoldable pub receipt_step : JournalStep → ReceiptStep
receipt_step j = record {
  id = j.id;
  from_version = j.from_version;
  to_version = j.to_version;
  before_sha256 = j.before_sha256;
  after_sha256 = j.after_sha256;
}

-- `buildReceipt`
unfoldable pub build_receipt : Platform → Journal → Resource → Receipt
unfolding receipt_step
build_receipt p j final = record {
  schema_version = 1;
  resource = j.resource;
  status = complete;
  from_version = j.from_version;
  to_version = j.to_version;
  before_sha256 = j.before_sha256;
  after_sha256 = hash_state p final;
  backup_sha256 = j.backup_sha256;
  backup_file = text "migration-source.backup.json";
  steps = map receipt_step j.steps;
  restored_sha256 = [];
}

abbrev pub resources : List Text
resources =
    text "vault" ∷ text "ledger" ∷ text "active-contexts" ∷ text "observer" ∷ text "portable" ∷ []

unfoldable pub is_hash : Option Text → Bool
is_hash none = false
is_hash (some h) = is_sha256 h

unfoldable pub is_valid_receipt_step : Text → ℕ → Option Text → ReceiptStep → Bool
unfolding is_hash same_hash
is_valid_receipt_step resource from prior r =
    text_eq r.id (step_id resource from)
    && (r.from_version == from)
    && (r.to_version == from + 1)
    && same_hash r.before_sha256 prior
    && is_hash r.after_sha256

-- The loop of `assertReceipt`, and its last test, that the digests end in the final one.
unfoldable pub are_valid_receipt_steps : Text → ℕ → Option Text → Text → List ReceiptStep → Bool
unfolding is_valid_receipt_step same_hash
are_valid_receipt_steps resource from prior final [] = same_hash prior (some final)
are_valid_receipt_steps resource from prior final (r ∷ rs) =
    is_valid_receipt_step resource from prior r
    && are_valid_receipt_steps resource (from + 1) r.after_sha256 final rs

unfoldable pub is_restored : ReceiptStatus → Text → Bool
is_restored complete h = true
is_restored rolled_back h = is_sha256 h

-- `assertReceipt`
unfoldable pub assert_receipt : Receipt → Result MigrationError (Unit {0})
unfolding is_restored are_valid_receipt_steps
assert_receipt r =
    guard
      ((r.schema_version == 1)
        && includes resources r.resource
        && leb r.from_version r.to_version
        && is_sha256 r.before_sha256
        && is_sha256 r.after_sha256
        && text_eq r.backup_sha256 r.before_sha256
        && text_eq r.backup_file (text "migration-source.backup.json")
        && (length r.steps == r.to_version - r.from_version)
        && is_restored r.status r.restored_sha256
        && are_valid_receipt_steps r.resource r.from_version (some r.before_sha256) r.after_sha256
            r.steps)
      receipt_invalid

unfoldable pub is_complete : ReceiptStatus → Bool
is_complete complete = true
is_complete rolled_back = false
