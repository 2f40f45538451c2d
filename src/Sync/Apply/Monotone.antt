-- ===== src/Sync/Apply/Monotone.antt =====
-- What only grows under `applySyncEvent`: revisions, applied ids, and open conflicts
-- (packages/sync/src/sync-protocol.mjs).
use wendkeep.Prelude.{
  ◌≤◌, ◌≡◌, true, ◌||◌, if◌then◌else◌, List, [], ◌∷◌, ◌++◌, arith, inl, inr, Bool-cases, any-sort,
  any-append, ◌∙◌, sym, ap,
}
use wendkeep.Prelude.Text.{Text, text_eq, eq_of_text_eq, includes, text_leb}
use wendkeep.Platform.{Platform}
use wendkeep.Sync.Event.Data.{Event}
use wendkeep.Sync.Event.Laws.{validate_sync_event-revision}
use wendkeep.Sync.State.{
  current_revision, remember_id, remember_applied, add_pending, drop_pending, open_conflict,
  store_event, clear_pending,
}
use wendkeep.Sync.State.Data.{SyncState}
use wendkeep.Sync.State.Laws.{current_revision-store_event, current_revision-open_conflict}
use wendkeep.Sync.Apply.{apply_sync_event}
use wendkeep.Sync.Apply.Trace.{
  Move, Moves, here, next, stored, conflicted, deferred, dropped, cleared, IsKeyed,
  apply_sync_event-Moves,
}

-- A text that is equal to an element of a list is in the list.
pub included_eq :
    (ids : List Text) (id x : Text)
    → includes ids id ≡ true
    → text_eq id x ≡ true
    → includes ids x ≡ true
included_eq ids id x h e = rw (eq_of_text_eq id x e) at h

pub includes-remember_id :
    (ids : List Text) (id x : Text)
    → includes (remember_id ids id) x ≡ (includes ids x || text_eq id x)
unfolding remember_id
includes-remember_id ids id x =
    any-sort text_leb (λ y. text_eq y x) (if includes ids id then ids else ids ++ id ∷ [])
    ∙ elim (Bool-cases (includes ids id)) [
      | inl old ↦ rw old (ground (arith, included_eq ids id x old))
      | inr new ↦ rw new (rw any-append (ground arith))
    ]

Move-revision :
    {p : Platform} {key : Text} {s t : SyncState} (k : Text)
    → Move p key s t
    → current_revision s k ≤ current_revision t k
unfolding add_pending drop_pending clear_pending current_revision
Move-revision {p} {key} k (stored s e f c b d) =
    rw current_revision-store_event (elim (Bool-cases (text_eq e.record_key k)) [
      | inl h ↦ rw h (
          omega (
            arith,
            ap (current_revision s) (sym f.keyed ∙ eq_of_text_eq e.record_key k h),
            validate_sync_event-revision p e s.project_id e f.valid,
          ))
      | inr h ↦ rw h (omega arith)
    ])
Move-revision k (conflicted s e f) = omega (arith, current_revision-open_conflict s e k)
Move-revision k (deferred s e f c d) = omega arith
Move-revision k (dropped s id) = omega arith
Move-revision k (cleared s) = omega arith

-- A move keeps the ids that were applied.
Move-applied :
    {p : Platform} {key : Text} {s t : SyncState} (id : Text)
    → Move p key s t
    → includes s.applied_event_ids id ≡ true
    → includes t.applied_event_ids id ≡ true
unfolding store_event open_conflict add_pending drop_pending clear_pending remember_applied
Move-applied id (stored s e f c b d) h = rw (includes-remember_id, h)
Move-applied id (conflicted s e f) h = rw (includes-remember_id, h)
Move-applied id (deferred s e f c d) h = h
Move-applied id (dropped s i) h = h
Move-applied id (cleared s) h = h

pub Moves-revision :
    {p : Platform} {key : Text} {s t : SyncState} (k : Text)
    → Moves p key s t
    → current_revision s k ≤ current_revision t k
Moves-revision k here = omega arith
Moves-revision k (next m w) = omega (arith, Moves-revision k m, Move-revision k w)

pub Moves-applied :
    {p : Platform} {key : Text} {s t : SyncState} (id : Text)
    → Moves p key s t
    → includes s.applied_event_ids id ≡ true
    → includes t.applied_event_ids id ≡ true
Moves-applied id here h = h
Moves-applied id (next m w) h = Move-applied id w (Moves-applied id m h)

-- Applying an event, whatever its outcome, lowers no record's revision and forgets no applied id.
pub apply_sync_event_monotone :
    (p : Platform) (s : SyncState) (e : Event) (key id : Text)
    → IsKeyed e.record_key s
    → (current_revision s key ≤ current_revision (apply_sync_event p s e).0 key)
      × (includes s.applied_event_ids id ≡ true
          → includes (apply_sync_event p s e).0.applied_event_ids id ≡ true)
apply_sync_event_monotone p s e key id keyed =
    let moves = apply_sync_event-Moves p s e keyed in
    (Moves-revision key moves, Moves-applied id moves)
