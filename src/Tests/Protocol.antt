-- ===== src/Tests/Protocol.antt =====
-- Creation, validation, leases and resolutions at concrete inputs.
use wendkeep.Prelude.{◌≡◌, ◌≢◌, refl, none, [], ◌∷◌, arith, inr, drop}
use wendkeep.Prelude.Text.{Text, text}
use wendkeep.Prelude.Json.{null, num, str, obj, end, field}
use wendkeep.Prelude.Result.{ok}
use wendkeep.Sync.Event.Data.{
  EventInput, Event, Draft, draft_json, nat, put, tombstone, shared, private,
}
use wendkeep.Sync.Event.Create.{
  create_sync_event, validate_sync_event, is_envelope, validate_private_payload, required_text,
}
use wendkeep.Sync.Event.RoundTrip.{validate-create, validate_private_tombstone}
use wendkeep.Sync.State.Data.{SyncState, Lease}
use wendkeep.Sync.Lease.{
  LeaseInput, existing, acquired, acquire_sync_lease, lease_time, place_lease, is_live,
}
use wendkeep.Sync.Lease.Laws.{acquire_sync_lease_exclusive}
use wendkeep.Tests.Platform.{toy, toy-IsDocumented, first_event, draft_at}
use wendkeep.Sync.Canonical.{sync_sha256}
use wendkeep.Tests.Open.{all_open}

abbrev first_input : EventInput
first_input = record {
  project_id = text " p ";
  record_key = text "k";
  revision = nat 1;
  base_revision = nat 0;
  payload = str (text "one");
  causal_parent_ids = [];
  actor_id = text "a";
  device_id = text "d";
  lease_id = [];
  observed_at = text "2026";
  operation = put;
  privacy = shared;
  policy_ref = none;
}

first_created : create_sync_event toy first_input ≡ ok first_event
unfolding all_open
first_created = refl

validate-create_example : validate_sync_event toy first_event (text "p") ≡ ok first_event
validate-create_example =
    validate-create toy first_input first_event (text "p") toy-IsDocumented first_created
      (λ q r. cc) (inr refl)

-- A tombstone of a private record, made with an encrypted payload that it does not keep.
abbrev erased_input : EventInput
erased_input = record first_input {
  payload = obj (
      field (text "schema_version") (num (text "1")) (
        field (text "algorithm") (str (text "AES-256-GCM")) (
          field (text "key_id") (str (text "k1")) (
            field (text "iv") (str (text "i")) (
              field (text "ciphertext") (str (text "c"))
                (field (text "auth_tag") (str (text "t")) end))))));
  operation = tombstone;
  privacy = private;
}

abbrev erased_event : Event
erased_event =
    let draft : Draft = record (draft_at 0 [] []) {
      content_hash = sync_sha256 toy null;
      operation = tombstone;
      privacy = private;
      payload = null;
    } in
    record { draft = draft; event_id = drop 7 (sync_sha256 toy (draft_json draft)) }

erased_created : create_sync_event toy erased_input ≡ ok erased_event
unfolding all_open is_envelope validate_private_payload
erased_created = refl

validate_private_tombstone_example :
    validate_sync_event toy erased_event (text "p") ≢ ok erased_event
validate_private_tombstone_example =
    validate_private_tombstone toy erased_input erased_event (text "p") erased_event erased_created
      refl refl

abbrev empty_state : SyncState
empty_state = record {
  project_id = text "p";
  records = [];
  conflicts = [];
  pending = [];
  leases = [];
  decisions = [];
  applied_event_ids = [];
}

-- Dates are counted by the length of their text.
abbrev lease_at : Text → LeaseInput
lease_at now = record {
  record_key = text "k";
  lease_id = text "l";
  actor_id = text "a";
  device_id = text "d";
  acquired_at = text "1";
  expires_at = text "55555";
  now = now;
}

abbrev held_lease : Lease
held_lease = record {
  lease_id = text "l";
  actor_id = text "a";
  device_id = text "d";
  acquired_at = text "0";
  expires_at = text "00000";
}

abbrev leased_state : SyncState
leased_state = record empty_state {
  leases = (text "k", record { active = held_lease; history = [] }) ∷ [];
}

lease_acquired :
    acquire_sync_lease toy empty_state (lease_at (text "22"))
    ≡ ok (leased_state, record { status = acquired; lease = held_lease })
unfolding all_open acquire_sync_lease lease_time place_lease
lease_acquired = refl

lease_again :
    acquire_sync_lease toy leased_state (lease_at (text "333"))
    ≡ ok (leased_state, record { status = existing; lease = held_lease })
unfolding all_open acquire_sync_lease lease_time place_lease is_live
lease_again = refl

acquire_sync_lease_exclusive_example :
    (leased_state ≡ leased_state)
    × (held_lease ≡ held_lease)
    × (required_text 160 (text "l") ≡ ok (text "l"))
acquire_sync_lease_exclusive_example =
    acquire_sync_lease_exclusive toy empty_state leased_state leased_state (lease_at (text "22"))
      (lease_at (text "333")) (record { status = acquired; lease = held_lease })
      (record { status = existing; lease = held_lease }) 3 5 lease_acquired refl refl refl
      (omega arith) lease_again
