-- ===== src/Sync/Apply.antt =====
-- `applySyncEvent` and `replayPending` of packages/sync/src/sync-protocol.mjs. They call each
-- other; the model counts the depth of the calls and the rounds of the `while` by fuel. What was
-- written before an error stays written, so the state comes back beside the error too.
pub mod Trace
pub mod Monotone
pub mod Frame
pub mod Cases
pub mod Fuel
pub mod NoLoss
pub mod Redelivery
pub mod Drain
use wendkeep.Prelude.{
  ℕ, zero, suc, Bool, true, false, not, ◌&&◌, ◌||◌, ltb, leb, ◌==◌, if◌then◌else◌, Option, none,
  some, List, [], ◌∷◌, ◌++◌, length, any, keep,
}
use wendkeep.Prelude.Text.{Text, includes}
use wendkeep.Prelude.Table.{lookup}
use wendkeep.Prelude.Result.{Result, ok, err}
use wendkeep.Platform.{Platform}
use wendkeep.Sync.Event.Data.{SyncError, Event}
use wendkeep.Sync.Event.Create.{validate_sync_event}
use wendkeep.Sync.State.{
  pending_rows, current_revision, has_open_conflict, has_id, add_pending, drop_pending,
  open_conflict, store_event, clear_pending,
}
use wendkeep.Sync.State.Data.{SyncRecord, SyncState}

pub data Status : Type 0 where
  duplicate pending conflict : Status
  -- with the ids of the pending events that were applied after it
  applied : List Text → Status

pub record Outcome : Type 0 where
  pub status : Status
  pub event_id : Text
  pub record_key : Text

-- What an application throws; `out_of_fuel` is the model's own.
pub data Failure : Type 0 where
  protocol : SyncError → Failure
  out_of_fuel : Failure

abbrev pub Step : Type 0 → Type 0
Step A = SyncState × Result Failure A

unfoldable pub outcome : Status → Event → Outcome
outcome status e = record { status = status; event_id = e.event_id; record_key = e.record_key }

-- event.causal_parent_ids.length && current && !event.causal_parent_ids.includes(current.event_id)
unfoldable pub breaks_causality : Option SyncRecord → Event → Bool
breaks_causality none e = false
breaks_causality (some r) e =
    not (length e.causal_parent_ids == 0) && not (includes e.causal_parent_ids r.event_id)

unfoldable pub accepted : Event → Step (List Text) → Step Outcome
accepted e (s, ok replayed) = (s, ok (outcome (applied replayed) e))
accepted e (s, err x) = (s, err x)

-- The last tests of `applySyncEvent`, from the revisions on; `replay_pending` is its last call.
unfoldable pub admit_fresh :
    (SyncState → Text → Step (List Text)) → SyncState → Event → Step Outcome
admit_fresh replay_pending s e =
    let key = e.record_key in
    let current = current_revision s key in
    if ltb current e.base_revision
    then (add_pending s e, ok (outcome pending e))
    else if ltb e.base_revision current
    then (open_conflict s e, ok (outcome conflict e))
    else if breaks_causality (lookup key s.records) e
    then (open_conflict s e, ok (outcome conflict e))
    else accepted e (replay_pending (store_event s e) key)

-- The body of `applySyncEvent` behind its validation.
unfoldable pub admit :
    (SyncState → Text → Step (List Text)) → Bool → SyncState → Event → Step Outcome
admit replay_pending replay s e =
    let key = e.record_key in
    if includes s.applied_event_ids e.event_id
    then (s, ok (outcome duplicate e))
    else if any (has_id e.event_id) (pending_rows s key) && not replay
    then (s, ok (outcome pending e))
    else if has_open_conflict s key
    then (open_conflict s e, ok (outcome conflict e))
    else admit_fresh replay_pending s e

-- `applySyncEvent`, where `replay_pending` is the last call.
unfoldable pub apply_with :
    Platform → (SyncState → Text → Step (List Text)) → Bool → SyncState → Event → Step Outcome
apply_with p replay_pending replay s e = elim (validate_sync_event p e s.project_id) [
  | err x ↦ (s, err (protocol x))
  | ok _ ↦ admit replay_pending replay s e
]

unfoldable pub note_applied : List Text → Text → Status → List Text
note_applied replayed id (applied _) = replayed ++ id ∷ []
note_applied replayed id _ = replayed

-- The `for` loop over the rows that were ready when the round began.
unfoldable pub replay_ready :
    (SyncState → Event → Step Outcome)
    → SyncState
    → Text
    → List Text
    → List Event
    → Step (List Text)
replay_ready apply s key replayed [] = (s, ok replayed)
replay_ready apply s key replayed (e ∷ es) =
    let (s', r) = apply (drop_pending s key e.event_id) e in
    elim r [
      | err x ↦ (s', err x)
      | ok o ↦ replay_ready apply s' key (note_applied replayed e.event_id o.status) es
    ]

-- rows.filter((event) => event.base_revision <= currentRevision)
unfoldable pub ready_rows : SyncState → Text → List Event
ready_rows s key = keep (λ e. leb e.base_revision (current_revision s key)) (pending_rows s key)

-- The `while` loop of `replayPending`, and its end.
unfoldable pub replay_loop :
    (SyncState → Event → Step Outcome) → ℕ → SyncState → Text → List Text → Step (List Text)
replay_loop apply zero s key replayed = (s, err out_of_fuel)
replay_loop apply (suc f) s key replayed = elim (ready_rows s key) [
  | [] ↦ (clear_pending s key, ok replayed)
  | e ∷ es ↦
      let (s', r) = replay_ready apply s key replayed (e ∷ es) in
      elim r [ err x ↦ (s', err x) | ok replayed' ↦ replay_loop apply f s' key replayed' ]
]

unfoldable pub apply_event : Platform → ℕ → Bool → SyncState → Event → Step Outcome
apply_event p zero replay s e = (s, err out_of_fuel)
apply_event p (suc f) replay s e =
    apply_with p (λ s' key. replay_loop (apply_event p f true) (suc f) s' key []) replay s e

-- `applySyncEvent`: a nested call needs a pending row less than the one around it.
unfoldable pub apply_sync_event : Platform → SyncState → Event → Step Outcome
apply_sync_event p s e = apply_event p (suc (length (pending_rows s e.record_key))) false s e
