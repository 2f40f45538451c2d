-- ===== src/Sync/Outbox.antt =====
-- The append-only ledgers of packages/sync/src/sync-outbox.mjs.
pub mod Laws
use wendkeep.Prelude.{
  ℕ, if◌then◌else◌, Bool, true, false, not, Option, none, some, List, [], ◌∷◌, ◌++◌, any, keep,
  take, length, ◌==◌,
}
use wendkeep.Prelude.Text.{Text, text_eq, trim, includes, is_hex64}
use wendkeep.Prelude.Result.{Result, ok, err, ◌>>=◌, ◌>>◌, guard}
use wendkeep.Platform.{Platform}
use wendkeep.Sync.Event.Data.{SyncError, Event}
use wendkeep.Sync.Event.Create.{validate_sync_event}

-- A line of a ledger: `broken` is one that JSON.parse does not accept.
pub data Line {ℓ} (A : Type ℓ) : Type ℓ where
  blank broken : Line A
  row : A → Line A

-- The codes of the outbox, the RangeError of `toISOString`, and the errors of the protocol.
pub data OutboxError : Type 0 where
  outbox_corrupt outbox_busy ack_invalid invalid_date : OutboxError
  in_protocol : SyncError → OutboxError

pub record Ack : Type 0 where
  pub event_id : Text
  pub acknowledged_at : Text
  pub backend : Text

-- OUTBOX.jsonl and ACKS.jsonl; a file that is not there has no lines.
pub record Outbox : Type 0 where
  pub events : List (Line Event)
  pub acks : List (Line Ack)

-- `parseLines`
unfoldable pub parse_lines {ℓ} : {A : Type ℓ} → List (Line A) → Result OutboxError (List A)
parse_lines [] = ok []
parse_lines (blank ∷ lines) = parse_lines lines
parse_lines (broken ∷ lines) = err outbox_corrupt
parse_lines (row a ∷ lines) = parse_lines lines >>= λ rows. ok (a ∷ rows)

-- `appendUnique`, where `is_free` tells whether the lock could be taken; what is returned tells
-- whether the record is new.
unfoldable pub append_unique {ℓ} :
    {A : Type ℓ} → (A → Text) → Bool → List (Line A) → A → Result OutboxError (List (Line A) × Bool)
append_unique id_of is_free lines a = do
  guard is_free outbox_busy
  rows ← parse_lines lines
  ok (
      if any (λ b. text_eq (id_of b) (id_of a)) rows
      then (lines, false)
      else (lines ++ row a ∷ [], true))

unfoldable pub checked_event : Platform → Event → Result OutboxError Event
checked_event p e = elim (validate_sync_event p e []) [ ok a ↦ ok a | err x ↦ err (in_protocol x) ]

-- `enqueueSyncEvent`
unfoldable pub enqueue_sync_event :
    Platform → Bool → Outbox → Event → Result OutboxError (Outbox × Bool)
unfolding append_unique checked_event
enqueue_sync_event p is_free o e = do
  _ ← checked_event p e
  (lines, created) ← append_unique (λ a. a.event_id) is_free o.events e
  ok (record o { events = lines }, created)

unfoldable pub ack_time : Platform → Text → Result OutboxError Text
ack_time p observed_at = elim (p.parse_date observed_at) [
  | none ↦ err invalid_date
  | some t ↦ ok (p.to_iso t)
]

-- `ackSyncEvent`
unfoldable pub ack_sync_event :
    Platform → Bool → Outbox → Text → Text → Text → Result OutboxError (Outbox × Bool)
unfolding append_unique ack_time
ack_sync_event p is_free o event_id observed_at backend = do
  guard (is_hex64 (trim event_id)) ack_invalid
  time ← ack_time p observed_at
  (lines, created) ←
      append_unique (λ a. a.event_id) is_free o.acks
        (record { event_id = trim event_id; acknowledged_at = time; backend = take 120 backend })
  ok (record o { acks = lines }, created)

pub record OutboxRows : Type 0 where
  pub events : List Event
  pub acks : List Ack
  pub pending : List Event

unfoldable pub check_events : Platform → List Event → Result OutboxError (List Event)
unfolding checked_event
check_events p [] = ok []
check_events p (e ∷ es) = do a ← checked_event p e; later ← check_events p es; ok (a ∷ later)

-- acknowledged.has(event.event_id)
unfoldable pub is_acknowledged : List Ack → Event → Bool
is_acknowledged acks e = any (λ a. text_eq a.event_id e.event_id) acks

unfoldable pub outbox_rows : List Event → List Ack → OutboxRows
unfolding is_acknowledged
outbox_rows events acks = record {
  events = events;
  acks = acks;
  pending = keep (λ e. not (is_acknowledged acks e)) events;
}

-- `readSyncOutbox`
unfoldable pub read_sync_outbox : Platform → Outbox → Result OutboxError OutboxRows
unfolding check_events outbox_rows parse_lines
read_sync_outbox p o = do
  events ← parse_lines o.events
  _ ← check_events p events
  acks ← parse_lines o.acks
  ok (outbox_rows events acks)
