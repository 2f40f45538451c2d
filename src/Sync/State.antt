-- ===== src/Sync/State.antt =====
-- The state of packages/sync/src/sync-protocol.mjs (`createSyncState`), its records, conflicts
-- and leases, and the functions that change one part of it.
pub mod Laws
pub mod Data
use wendkeep.Prelude.{
  ℕ, Bool, true, false, not, if◌then◌else◌, Option, none, some, List, [], ◌∷◌, ◌++◌, any, keep,
  sort, ltb, ◌==◌, ◌||◌, ◌&&◌,
}
use wendkeep.Prelude.Text.{Text, text_eq, text_leb, includes}
use wendkeep.Prelude.Json.{Json}
use wendkeep.Prelude.Table.{Table, lookup, insert, remove}
use wendkeep.Prelude.Result.{Result, ok, ◌>>=◌}
use wendkeep.Sync.Event.Data.{SyncError, Operation, Privacy, PolicyRef, Event, tombstone}
use wendkeep.Sync.Event.Create.{required_text}
use wendkeep.Sync.State.Data.{
  Candidate, SyncRecord, ConflictSet, SyncState, event_candidate, record_from_event, opened,
  resolved,
}

-- state.pending[key] || []
unfoldable pub rows_or_empty : Option (List Event) → List Event
rows_or_empty none = []
rows_or_empty (some rows) = rows

unfoldable pub pending_rows : SyncState → Text → List Event
unfolding rows_or_empty
pending_rows s key = rows_or_empty (lookup key s.pending)

unfoldable pub revision_or_zero : Option SyncRecord → ℕ
revision_or_zero none = 0
revision_or_zero (some r) = r.revision

-- state.records[key]?.revision || 0
unfoldable pub current_revision : SyncState → Text → ℕ
unfolding revision_or_zero
current_revision s key = revision_or_zero (lookup key s.records)

unfoldable pub is_open : Option ConflictSet → Bool
is_open none = false
is_open (some c) = elim c.status [ opened ↦ true | resolved ↦ false ]

-- state.conflicts[key]?.status === 'open'
unfoldable pub has_open_conflict : SyncState → Text → Bool
unfolding is_open
has_open_conflict s key = is_open (lookup key s.conflicts)

unfoldable pub has_id : Text → Event → Bool
has_id id e = text_eq e.event_id id

unfoldable pub remember_id : List Text → Text → List Text
remember_id ids id = sort text_leb (if includes ids id then ids else ids ++ id ∷ [])

-- `rememberApplied`
unfoldable pub remember_applied : SyncState → Text → SyncState
unfolding remember_id
remember_applied s id = record s { applied_event_ids = remember_id s.applied_event_ids id }

-- The order of pending rows: by revision, and by event id where the revisions are equal.
unfoldable pub row_leb : Event → Event → Bool
row_leb a b =
    ltb a.revision b.revision || ((a.revision == b.revision) && text_leb a.event_id b.event_id)

unfoldable pub add_row : List Event → Event → List Event
unfolding has_id row_leb
add_row rows e = sort row_leb (if any (has_id e.event_id) rows then rows else rows ++ e ∷ [])

-- `addPending`
unfoldable pub add_pending : SyncState → Event → SyncState
unfolding add_row pending_rows
add_pending s e = record s {
  pending = insert e.record_key (add_row (pending_rows s e.record_key) e) s.pending;
}

-- state.pending[key] = (state.pending[key] || []).filter((item) => item.event_id !== id)
unfoldable pub drop_pending : SyncState → Text → Text → SyncState
unfolding pending_rows has_id
drop_pending s key id = record s {
  pending = insert key (keep (λ e. not (has_id id e)) (pending_rows s key)) s.pending;
}

-- candidates.set(candidate.event_id, candidate), on a Map as the list of its values
unfoldable pub set_candidate : Candidate → List Candidate → List Candidate
set_candidate c [] = c ∷ []
set_candidate c (d ∷ ds) = if text_eq d.event_id c.event_id then c ∷ ds else d ∷ set_candidate c ds

unfoldable pub candidate_map : List Candidate → List Candidate → List Candidate
unfolding set_candidate
candidate_map out [] = out
candidate_map out (c ∷ cs) = candidate_map (set_candidate c out) cs

unfoldable pub candidate_leb : Candidate → Candidate → Bool
candidate_leb a b = text_leb a.event_id b.event_id

unfoldable pub prior_candidates : Option ConflictSet → List Candidate
prior_candidates none = []
prior_candidates (some c) = c.candidates

unfoldable pub with_current : Option SyncRecord → List Candidate → List Candidate
unfolding set_candidate
with_current none cs = cs
with_current (some r) cs = set_candidate r.event cs

-- The candidates of a conflict set after one more event meets it.
unfoldable pub conflict_candidates : Option ConflictSet → Option SyncRecord → Event → List Candidate
unfolding prior_candidates candidate_map with_current set_candidate candidate_leb event_candidate
conflict_candidates set current e = sort candidate_leb (
    set_candidate (event_candidate e)
      (with_current current (candidate_map [] (prior_candidates set))))

unfoldable pub mark_conflicted : Text → Option SyncRecord → Table SyncRecord → Table SyncRecord
mark_conflicted key none records = records
mark_conflicted key (some r) records = insert key (record r { conflicted = true }) records

-- `conflict`, whose `current` is the record in the state: marking it writes to the state.
unfoldable pub open_conflict : SyncState → Event → SyncState
unfolding conflict_candidates mark_conflicted remember_applied
open_conflict s e =
    let key = e.record_key in
    let current = lookup key s.records in
    let set : ConflictSet = record {
      record_key = key;
      status = opened;
      candidates = conflict_candidates (lookup key s.conflicts) current e;
      resolution_event_id = none;
      selected_event_id = none;
    } in
    remember_applied
      (record s {
        conflicts = insert key set s.conflicts;
        records = mark_conflicted key current s.records;
      })
      e.event_id

-- state.records[event.record_key] = recordFromEvent(event); rememberApplied(state, event.event_id)
unfoldable pub store_event : SyncState → Event → SyncState
unfolding record_from_event remember_applied
store_event s e =
    remember_applied (record s { records = insert e.record_key (record_from_event e) s.records })
      e.event_id

unfoldable pub clear_rows : Text → List Event → Table (List Event) → Table (List Event)
clear_rows key [] pending = remove key pending
clear_rows key rows pending = pending

-- if (!(state.pending[key] || []).length) delete state.pending[key]
unfoldable pub clear_pending : SyncState → Text → SyncState
clear_pending s key = record s { pending = clear_rows key (pending_rows s key) s.pending }
