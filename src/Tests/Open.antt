-- ===== src/Tests/Open.antt =====
-- The definitions that a run of the protocol computes with.
use wendkeep.Prelude.{sort}
use wendkeep.Prelude.Text.{
  text_eq, text_leb, trim, is_hex64, is_lower_hex, is_digit, is_space, decimal, dedupe,
}
use wendkeep.Prelude.Json.{stringify, quote, escape}
use wendkeep.Prelude.Table.{lookup, insert, remove}
use wendkeep.Sync.Canonical.{canonical_sync_json, stable, sync_sha256}
use wendkeep.Sync.Event.Data.{draft_json, operation_text, privacy_text}
use wendkeep.Sync.Event.Create.{
  required_text, has_control, is_sha256, is_id, create_sync_event, validate_sync_event,
  has_integrity, input_of, optional_policy_ref, revision_pair, is_operation, is_privacy,
  check_private, required_texts, read_time, stored_payload, raw_policy_ref,
}
use wendkeep.Sync.State.{
  pending_rows, current_revision, has_open_conflict, has_id, add_pending, drop_pending,
  open_conflict, store_event, clear_pending, clear_rows, remember_applied,
}
use wendkeep.Sync.State.Data.{record_from_event, event_candidate}
use wendkeep.Sync.Apply.{
  outcome, breaks_causality, accepted, admit_fresh, admit, apply_with, note_applied, replay_ready,
  ready_rows, replay_loop, apply_event, apply_sync_event,
}
use wendkeep.Tests.Platform.{repeat, total}

-- Naming this one on an `unfolding` line opens all of them.
unfoldable pub all_open : Unit {0}
unfolding sort text_eq text_leb trim is_hex64 is_lower_hex is_digit is_space decimal stringify quote
    escape lookup insert remove canonical_sync_json stable sync_sha256 draft_json operation_text
    privacy_text required_text has_control is_sha256 is_id create_sync_event validate_sync_event
    has_integrity input_of optional_policy_ref revision_pair is_operation is_privacy check_private
    required_texts dedupe read_time stored_payload raw_policy_ref pending_rows current_revision
    has_open_conflict has_id add_pending drop_pending open_conflict store_event clear_pending
    clear_rows remember_applied record_from_event event_candidate outcome breaks_causality accepted
    admit_fresh admit apply_with note_applied replay_ready ready_rows replay_loop apply_event
    apply_sync_event repeat total
all_open = tt
