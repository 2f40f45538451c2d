-- ===== src/Sync/State/Data.antt =====
-- The records of a state, and what an event writes in it
-- (packages/sync/src/sync-protocol.mjs).
use wendkeep.Prelude.{ℕ, Bool, true, false, Option, List, []}
use wendkeep.Prelude.Text.{Text}
use wendkeep.Prelude.Json.{Json}
use wendkeep.Prelude.Table.{Table}
use wendkeep.Prelude.Result.{Result, ok, ◌>>=◌}
use wendkeep.Sync.Event.Data.{SyncError, Operation, Privacy, PolicyRef, Event, tombstone}
use wendkeep.Sync.Event.Create.{required_text}

-- `eventCandidate`
pub record Candidate : Type 0 where
  pub event_id : Text
  pub revision : ℕ
  pub base_revision : ℕ
  pub content_hash : Text
  pub causal_parent_ids : List Text
  pub actor_id : Text
  pub device_id : Text
  pub observed_at : Text
  pub operation : Operation
  pub privacy : Privacy
  pub policy_ref : Option PolicyRef
  pub payload : Json

-- `recordFromEvent`
pub record SyncRecord : Type 0 where
  pub revision : ℕ
  pub content_hash : Text
  pub event_id : Text
  pub causal_parent_ids : List Text
  pub actor_id : Text
  pub device_id : Text
  pub observed_at : Text
  pub operation : Operation
  pub privacy : Privacy
  pub policy_ref : Option PolicyRef
  pub payload : Json
  pub tombstone : Bool
  pub conflicted : Bool
  pub event : Candidate

pub data ConflictStatus : Type 0 where
  opened resolved : ConflictStatus

pub record ConflictSet : Type 0 where
  pub record_key : Text
  pub status : ConflictStatus
  pub candidates : List Candidate
  pub resolution_event_id : Option Text
  pub selected_event_id : Option Text

pub record Lease : Type 0 where
  pub lease_id : Text
  pub actor_id : Text
  pub device_id : Text
  pub acquired_at : Text
  pub expires_at : Text

-- `history` holds the leases that ended as expired.
pub record LeaseSlot : Type 0 where
  pub active : Lease
  pub history : List Lease

pub record Decision : Type 0 where
  pub record_key : Text
  pub selected_event_id : Text
  pub resolution_event_id : Text
  pub actor_id : Text
  pub device_id : Text
  pub reason : Text
  pub observed_at : Text

pub record SyncState : Type 0 where
  pub project_id : Text
  pub records : Table SyncRecord
  pub conflicts : Table ConflictSet
  pub pending : Table (List Event)
  pub leases : Table LeaseSlot
  pub decisions : List Decision
  pub applied_event_ids : List Text

unfoldable pub create_sync_state : Text → Result SyncError SyncState
create_sync_state project_id = do
  id ← required_text 160 project_id
  ok (record {
    project_id = id;
    records = [];
    conflicts = [];
    pending = [];
    leases = [];
    decisions = [];
    applied_event_ids = [];
  })

unfoldable pub event_candidate : Event → Candidate
event_candidate e = record {
  event_id = e.event_id;
  revision = e.revision;
  base_revision = e.base_revision;
  content_hash = e.content_hash;
  causal_parent_ids = e.causal_parent_ids;
  actor_id = e.actor_id;
  device_id = e.device_id;
  observed_at = e.observed_at;
  operation = e.operation;
  privacy = e.privacy;
  policy_ref = e.policy_ref;
  payload = e.payload;
}

unfoldable is_tombstone : Operation → Bool
is_tombstone tombstone = true
is_tombstone _ = false

unfoldable pub record_from_event : Event → SyncRecord
unfolding event_candidate is_tombstone
record_from_event e = record {
  revision = e.revision;
  content_hash = e.content_hash;
  event_id = e.event_id;
  causal_parent_ids = e.causal_parent_ids;
  actor_id = e.actor_id;
  device_id = e.device_id;
  observed_at = e.observed_at;
  operation = e.operation;
  privacy = e.privacy;
  policy_ref = e.policy_ref;
  payload = e.payload;
  tombstone = is_tombstone e.operation;
  conflicted = false;
  event = event_candidate e;
}
