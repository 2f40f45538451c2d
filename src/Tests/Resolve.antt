-- ===== src/Tests/Resolve.antt =====
-- A conflict that is opened and resolved.
use wendkeep.Prelude.{◌≡◌, refl, true, []}
use wendkeep.Prelude.Text.{text}
use wendkeep.Prelude.Result.{ok, err}
use wendkeep.Sync.State.{has_open_conflict}
use wendkeep.Sync.State.Data.{SyncState}
use wendkeep.Sync.Apply.{apply_sync_event}
use wendkeep.Sync.Resolve.{
  ResolveInput, Resolution, require_open, select_candidate, max_revision, resolving_operation,
  resolution_input, resolve_sync_conflict, decide, settle_conflict,
}
use wendkeep.Sync.Resolve.Laws.{IsSettled, resolve_sync_conflict_settles}
use wendkeep.Tests.Platform.{toy, first_event, rival_event}
use wendkeep.Tests.Apply.{blank}
use wendkeep.Tests.Open.{all_open}

abbrev contested : SyncState
contested = (apply_sync_event toy (apply_sync_event toy blank first_event).0 rival_event).0

contested_open : has_open_conflict contested (text "k") ≡ true
unfolding all_open
contested_open = refl

abbrev choice : ResolveInput
choice = record {
  record_key = text "k";
  selected_event_id = rival_event.event_id;
  actor_id = text "a";
  device_id = text "d";
  reason = text "newer";
  observed_at = text "2026";
}

abbrev settled : SyncState × Resolution
settled = elim (resolve_sync_conflict toy contested choice) [
  | ok x ↦ x
  | err e ↦ (
    contested,
    record {
      event = rival_event;
      decision = record {
        record_key = [];
        selected_event_id = [];
        resolution_event_id = [];
        actor_id = [];
        device_id = [];
        reason = [];
        observed_at = [];
      };
    },
  )
]

settled_ok : resolve_sync_conflict toy contested choice ≡ ok settled
unfolding all_open resolve_sync_conflict require_open select_candidate max_revision
    resolving_operation resolution_input decide settle_conflict
settled_ok = refl

resolve_sync_conflict_settles_example : IsSettled contested settled.0 choice settled.1
resolve_sync_conflict_settles_example =
    resolve_sync_conflict_settles toy contested settled.0 choice settled.1 settled_ok
