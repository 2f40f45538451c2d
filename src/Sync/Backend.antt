-- ===== src/Sync/Backend.antt =====
-- The filesystem adapter of packages/sync/src/sync-adapters.mjs, and `pushSyncEvents`.
pub mod Laws
use wendkeep.Prelude.{
  ℕ, if◌then◌else◌, Bool, true, false, leb, Option, none, some, List, [], ◌∷◌, ◌++◌, any, drop,
  length,
}
use wendkeep.Prelude.Text.{Text, text_eq}
use wendkeep.Prelude.Result.{Result, ok, err, ◌>>=◌, ◌>>◌, guard}
use wendkeep.Platform.{Platform}
use wendkeep.Sync.Event.Data.{SyncError, Event, Num, nat, neg, other}
use wendkeep.Sync.Event.Create.{max_safe, validate_sync_event}
use wendkeep.Sync.State.Data.{SyncState, create_sync_state}
use wendkeep.Sync.Apply.{Failure, Outcome, apply_sync_event}
use wendkeep.Sync.Resolve.{ResolveInput, Resolution, resolve_sync_conflict}
use wendkeep.Sync.Outbox.{Line, blank, broken, row}

-- The codes of the adapter, and what the protocol throws.
pub data AdapterError : Type 0 where
  backend_unavailable backend_corrupt backend_busy cursor_invalid : AdapterError
  in_apply : Failure → AdapterError
  in_sync : SyncError → AdapterError

-- STATE.json: not there, no JSON or of another schema, or a state.
pub data StateFile : Type 0 where
  no_state bad_state : StateFile
  has_state : SyncState → StateFile

-- EVENTS.jsonl and STATE.json.
pub record Backend : Type 0 where
  pub events : List (Line Event)
  pub state : StateFile

-- `parseLedger`, which skips empty lines.
unfoldable pub parse_ledger : List (Line Event) → Result AdapterError (List Event)
parse_ledger [] = ok []
parse_ledger (blank ∷ lines) = parse_ledger lines
parse_ledger (broken ∷ lines) = err backend_corrupt
parse_ledger (row e ∷ lines) = parse_ledger lines >>= λ rows. ok (e ∷ rows)

unfoldable pub of_sync {ℓ} : {A : Type ℓ} → Result SyncError A → Result AdapterError A
of_sync (ok a) = ok a
of_sync (err x) = err (in_sync x)

-- `readState`
unfoldable pub read_state : StateFile → Text → Result AdapterError SyncState
unfolding of_sync
read_state no_state project_id = of_sync (create_sync_state project_id)
read_state bad_state project_id = err backend_corrupt
read_state (has_state s) project_id =
    guard (text_eq s.project_id project_id) backend_corrupt >> ok s

unfoldable pub of_apply :
    SyncState × Result Failure Outcome → Result AdapterError (SyncState × Outcome)
of_apply (s, ok o) = ok (s, o)
of_apply (s, err x) = err (in_apply x)

-- An event whose id is there is not written again.
unfoldable pub append_event : List (Line Event) → List Event → Event → List (Line Event)
append_event lines rows e =
    if any (λ a. text_eq a.event_id e.event_id) rows then lines else lines ++ row e ∷ []

-- `push`; an error writes neither file.
unfoldable pub push_event :
    Platform → Bool → Bool → Backend → Event → Result AdapterError (Backend × Outcome)
unfolding of_sync of_apply append_event read_state parse_ledger
push_event p available is_free b e = do
  guard available backend_unavailable
  _ ← of_sync (validate_sync_event p e [])
  guard is_free backend_busy
  rows ← parse_ledger b.events
  s ← read_state b.state e.project_id
  (next, o) ← of_apply (apply_sync_event p s e)
  ok (record { events = append_event b.events rows e; state = has_state next }, o)

-- Number(cursor), a safe integer from 0 on
unfoldable pub cursor_number : Num → Result AdapterError ℕ
cursor_number (nat n) = if leb n max_safe then ok n else err cursor_invalid
cursor_number _ = err cursor_invalid

pub record Pulled : Type 0 where
  pub cursor : ℕ
  pub events : List Event
  pub state : Option SyncState

-- projectId || events[0]?.project_id || ''
unfoldable pub inferred_project : Text → List Event → Text
inferred_project [] [] = []
inferred_project [] (e ∷ es) = e.project_id
inferred_project (c ∷ t) es = c ∷ t

unfoldable pub pulled_state : StateFile → Text → Result AdapterError (Option SyncState)
unfolding read_state
pulled_state file [] = ok none
pulled_state file (c ∷ t) = read_state file (c ∷ t) >>= λ s. ok (some s)

-- `pull`
unfoldable pub pull_events : Bool → Backend → Num → Text → Result AdapterError Pulled
unfolding cursor_number inferred_project pulled_state parse_ledger
pull_events available b cursor project_id = do
  guard available backend_unavailable
  offset ← cursor_number cursor
  rows ← parse_ledger b.events
  s ← pulled_state b.state (inferred_project project_id rows)
  ok (record { cursor = length rows; events = drop offset rows; state = s })

-- `resolve`, which writes the resolving event without a look at those that are there.
unfoldable pub resolve_event :
    Platform
    → Bool
    → Bool
    → Backend
    → Text
    → ResolveInput
    → Result AdapterError (Backend × Resolution)
unfolding of_sync read_state
resolve_event p available is_free b project_id a = do
  guard available backend_unavailable
  guard is_free backend_busy
  s ← read_state b.state project_id
  (next, r) ← of_sync (resolve_sync_conflict p s a)
  ok (record { events = b.events ++ row r.event ∷ []; state = has_state next }, r)

-- `pushSyncEvents` over this adapter: the first error ends the loop, and what was pushed before it
-- stays. Each result has one of the four statuses, so each event is passed to `onAcknowledged`;
-- the events that were passed are returned.
unfoldable pub push_sync_events :
    Platform → Backend → List Event → Backend × List Event × Option AdapterError
unfolding push_event
push_sync_events p b [] = (b, [], none)
push_sync_events p b (e ∷ es) = elim (push_event p true true b e) [
  | err x ↦ (b, [], some x)
  | ok (next, o) ↦
      let (last, acknowledged, failure) = push_sync_events p next es in
      (last, e ∷ acknowledged, failure)
]
