-- ===== src/Sync/Lease.antt =====
-- `acquireSyncLease` of packages/sync/src/sync-protocol.mjs.
pub mod Laws
use wendkeep.Prelude.{
  ℕ, ltb, Bool, true, false, Option, none, some, List, [], ◌∷◌, ◌++◌, if◌then◌else◌, not,
}
use wendkeep.Prelude.Text.{Text, text_eq}
use wendkeep.Prelude.Table.{lookup, insert}
use wendkeep.Prelude.Result.{Result, ok, err, ◌>>=◌, ◌>>◌, guard}
use wendkeep.Platform.{Platform}
use wendkeep.Sync.Event.Data.{SyncError, lease_invalid, lease_held}
use wendkeep.Sync.Event.Create.{required_text}
use wendkeep.Sync.State.Data.{Lease, LeaseSlot, SyncState}

pub record LeaseInput : Type 0 where
  pub record_key : Text
  pub lease_id : Text
  pub actor_id : Text
  pub device_id : Text
  pub acquired_at : Text
  pub expires_at : Text
  -- the server's time, which the caller may leave to the clock
  pub now : Text

pub data LeaseStatus : Type 0 where
  acquired taken_over existing : LeaseStatus

pub record LeaseOutcome : Type 0 where
  pub status : LeaseStatus
  pub lease : Lease

unfoldable pub lease_time : Platform → Text → Result SyncError ℕ
lease_time p t = elim (p.parse_date t) [ none ↦ err lease_invalid | some time ↦ ok time ]

-- Date.parse(lease.expires_at) > serverTime.getTime()
unfoldable pub is_live : Platform → Lease → ℕ → Bool
is_live p lease server = elim (p.parse_date lease.expires_at) [
  | none ↦ false
  | some expires ↦ ltb server expires
]

-- The end of the function, for a lease that was built.
unfoldable pub place_lease :
    Platform
    → SyncState
    → Text
    → ℕ
    → Lease
    → Option LeaseSlot
    → Result SyncError (SyncState × LeaseOutcome)
place_lease p s key server lease none = ok (
  record s { leases = insert key (record { active = lease; history = [] }) s.leases },
  record { status = acquired; lease = lease },
)
place_lease p s key server lease (some slot) =
    if is_live p slot.active server
    then (if text_eq slot.active.lease_id lease.lease_id
        then ok (s, record { status = existing; lease = slot.active })
        else err lease_held)
    else ok (
      record s {
        leases =
            insert key (record { active = lease; history = slot.history ++ slot.active ∷ [] })
              s.leases;
      },
      record { status = taken_over; lease = lease },
    )

unfoldable pub acquire_sync_lease :
    Platform → SyncState → LeaseInput → Result SyncError (SyncState × LeaseOutcome)
acquire_sync_lease p s a = do
  key ← required_text 2048 a.record_key
  acquired_time ← lease_time p a.acquired_at
  expires_time ← lease_time p a.expires_at
  server_time ← lease_time p a.now
  guard (ltb acquired_time expires_time) lease_invalid
  lease_id ← required_text 160 a.lease_id
  actor_id ← required_text 160 a.actor_id
  device_id ← required_text 160 a.device_id
  let lease : Lease = record {
    lease_id = lease_id;
    actor_id = actor_id;
    device_id = device_id;
    acquired_at = p.to_iso acquired_time;
    expires_at = p.to_iso expires_time;
  }
  place_lease p s key server_time lease (lookup key s.leases)
