-- ===== src/Sync/Resolve.antt =====
-- `resolveSyncConflict` of packages/sync/src/sync-protocol.mjs.
pub mod Laws
use wendkeep.Prelude.{ℕ, ◌+◌, ◌-◌, Option, none, some, List, [], ◌∷◌, ◌++◌, map, find}
use Prim.Native.Nat.{max}
use wendkeep.Prelude.Text.{Text, text_eq}
use wendkeep.Prelude.Table.{lookup, insert}
use wendkeep.Prelude.Result.{Result, ok, err, ◌>>=◌, ◌>>◌}
use wendkeep.Platform.{Platform}
use wendkeep.Sync.Event.Data.{
  SyncError, conflict_not_found, selection_invalid, Operation, tombstone, resolve, Event,
  EventInput, nat,
}
use wendkeep.Sync.Event.Create.{required_text, create_sync_event, read_time}
use wendkeep.Sync.State.{remember_applied}
use wendkeep.Sync.State.Data.{
  Candidate, ConflictSet, ConflictStatus, opened, resolved, Decision, SyncState, record_from_event,
}

pub record ResolveInput : Type 0 where
  pub record_key : Text
  pub selected_event_id : Text
  pub actor_id : Text
  pub device_id : Text
  pub reason : Text
  pub observed_at : Text

pub record Resolution : Type 0 where
  pub event : Event
  pub decision : Decision

-- The open conflict set of a key, or the error.
unfoldable pub require_open : Option ConflictSet → Result SyncError ConflictSet
require_open none = err conflict_not_found
require_open (some set) = elim set.status [ opened ↦ ok set | resolved ↦ err conflict_not_found ]

unfoldable pub select_candidate : Text → ConflictSet → Result SyncError Candidate
select_candidate id set = elim (find (λ c. text_eq c.event_id id) set.candidates) [
  | none ↦ err selection_invalid
  | some c ↦ ok c
]

-- Math.max(...candidates.map((item) => item.revision)), of a list that is not empty
unfoldable pub max_revision : List Candidate → ℕ
max_revision [] = 0
max_revision (c ∷ cs) = max c.revision (max_revision cs)

unfoldable pub resolving_operation : Operation → Operation
resolving_operation tombstone = tombstone
resolving_operation _ = resolve

unfoldable pub resolution_input :
    SyncState → Text → ConflictSet → Candidate → ResolveInput → EventInput
resolution_input s key set selected a =
    let revision = max_revision set.candidates + 1 in
    record {
      project_id = s.project_id;
      record_key = key;
      revision = nat revision;
      base_revision = nat (revision - 1);
      payload = selected.payload;
      causal_parent_ids = map (λ c. c.event_id) set.candidates;
      actor_id = a.actor_id;
      device_id = a.device_id;
      lease_id = [];
      observed_at = a.observed_at;
      operation = resolving_operation selected.operation;
      privacy = selected.privacy;
      policy_ref = none;
    }

-- The writes of a resolution, and what it returns.
unfoldable pub settle_conflict :
    SyncState → Text → ConflictSet → Event → Decision → SyncState × Resolution
settle_conflict s key set event decision =
    let closed : ConflictSet = record set {
      status = resolved;
      resolution_event_id = some event.event_id;
      selected_event_id = some decision.selected_event_id;
    } in
    let stored : SyncState =
      remember_applied (record s { records = insert key (record_from_event event) s.records })
        event.event_id in
    (
      record stored {
        conflicts = insert key closed stored.conflicts;
        decisions = stored.decisions ++ decision ∷ [];
      },
      record { event = event; decision = decision },
    )

unfoldable pub decide : Platform → Text → ResolveInput → Text → Event → Result SyncError Decision
decide p key a reason event = do
  actor_id ← required_text 160 a.actor_id
  device_id ← required_text 160 a.device_id
  time ← read_time p a.observed_at
  ok (record {
    record_key = key;
    selected_event_id = a.selected_event_id;
    resolution_event_id = event.event_id;
    actor_id = actor_id;
    device_id = device_id;
    reason = reason;
    observed_at = p.to_iso time;
  })

-- Nothing is written before the last call that can throw: those of the decision repeat checks that
-- `createSyncEvent` has made.
unfoldable pub resolve_sync_conflict :
    Platform → SyncState → ResolveInput → Result SyncError (SyncState × Resolution)
resolve_sync_conflict p s a = do
  key ← required_text 2048 a.record_key
  set ← require_open (lookup key s.conflicts)
  selected ← select_candidate a.selected_event_id set
  reason ← required_text 500 a.reason
  event ← create_sync_event p (resolution_input s key set selected a)
  decision ← decide p key a reason event
  ok (settle_conflict s key set event decision)
