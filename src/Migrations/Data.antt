-- ===== src/Migrations/Data.antt =====
-- The resources that packages/migrations moves between formats, and the digest of
-- packages/migrations/src/file-store.mjs.
use wendkeep.Prelude.{ℕ, Bool, true, false, ◌==◌}
use wendkeep.Prelude.Text.{Text, text, text_eq, decimal}
use wendkeep.Prelude.Json.{Json, num, str, arr, obj, Items, nil, cons, Fields, field}
use wendkeep.Platform.{Platform}
use wendkeep.Sync.Canonical.{sync_sha256}

-- The codes WENDKEEP_MIGRATION_*.
pub data MigrationError : Type 0 where
  resource_invalid precondition_failed version_invalid resource_unknown : MigrationError
  target_unsupported future_version path_unsupported step_version_mismatch : MigrationError
  journal_invalid journal_mismatch journal_corrupt state_diverged incomplete : MigrationError
  resource_corrupt receipt_corrupt receipt_invalid backup_corrupt : MigrationError
  backup_checksum_mismatch rollback_unavailable rollback_diverged : MigrationError
  repair_not_required : MigrationError

-- What `Number.isInteger` and the comparisons tell of a version: a natural number, a negative
-- integer as its text, or any other value.
pub data Version : Type 0 where
  natural : ℕ → Version
  below_zero : Text → Version
  no_integer : Json → Version

-- A resource file: the properties that the code reads, and all others.
pub record Resource : Type 0 where
  pub format_version : Version
  pub resource : Json
  pub authority : Json
  pub migration_history : Json
  pub rest : Fields

unfoldable pub version_json : Version → Json
version_json (natural n) = num (decimal n)
version_json (below_zero t) = num t
version_json (no_integer j) = j

unfoldable pub is_version : Version → ℕ → Bool
is_version (natural n) m = n == m
is_version _ m = false

unfoldable pub is_integer : Version → Bool
is_integer (no_integer j) = false
is_integer _ = true

unfoldable pub resource_json : Resource → Json
unfolding version_json
resource_json s = obj (
    field (text "format_version") (version_json s.format_version) (
      field (text "resource") s.resource (
        field (text "authority") s.authority
          (field (text "migration_history") s.migration_history s.rest))))

-- `hashMigrationState`, whose `canonicalize` is the `stable` of the sync protocol.
unfoldable pub hash_state : Platform → Resource → Text
hash_state p s = sync_sha256 p (resource_json s)

unfoldable pub is_text_json : Json → Text → Bool
is_text_json (str s) t = text_eq s t
is_text_json _ t = false

-- value && typeof value === 'object' && !Array.isArray(value)
unfoldable pub is_object : Json → Bool
is_object (obj fs) = true
is_object _ = false

-- Array.isArray(value) ? [...value] : []
unfoldable pub history_items : Json → Items
history_items (arr xs) = xs
history_items _ = nil

unfoldable pub has_item : Text → Items → Bool
unfolding is_text_json
has_item id nil = false
has_item id (cons x xs) =
    let found = has_item id xs in elim (is_text_json x id) [ true ↦ true | false ↦ found ]

unfoldable pub push_item : Items → Text → Items
push_item nil id = cons (str id) nil
push_item (cons x xs) id = cons x (push_item xs id)

-- if (!history.includes(id)) history.push(id)
unfoldable pub note_item : Items → Text → Items
unfolding has_item push_item
note_item xs id = elim (has_item id xs) [ true ↦ xs | false ↦ push_item xs id ]
