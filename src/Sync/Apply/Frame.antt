-- ===== src/Sync/Apply/Frame.antt =====
-- `applySyncEvent` on one key leaves the rest of the state alone
-- (packages/sync/src/sync-protocol.mjs).
use wendkeep.Prelude.{◌≡◌, refl, false, Option, none, some, List, [], ◌∷◌, ◌∙◌, ◌≢◌}
use wendkeep.Prelude.Text.{Text, text_eq, text_eq_ne}
use wendkeep.Prelude.Table.{lookup, lookup-insert, lookup-remove, Table, insert}
use wendkeep.Platform.{Platform}
use wendkeep.Sync.Event.Data.{Event}
use wendkeep.Sync.State.{
  pending_rows, remember_applied, add_pending, drop_pending, open_conflict, store_event,
  clear_pending, clear_rows, mark_conflicted,
}
use wendkeep.Sync.State.Data.{SyncState, SyncRecord}
use wendkeep.Sync.Apply.{apply_sync_event}
use wendkeep.Sync.Apply.Trace.{
  Move, Moves, here, next, stored, conflicted, deferred, dropped, cleared, IsFresh, IsKeyed,
  apply_sync_event-Moves,
}

-- Two states agree on a key, and on what belongs to no key but the applied ids.
pub record Agree (k : Text) (s t : SyncState) : Type 0 where
  pub same_record : lookup k s.records ≡ lookup k t.records
  pub same_conflict : lookup k s.conflicts ≡ lookup k t.conflicts
  pub same_pending : lookup k s.pending ≡ lookup k t.pending
  pub same_leases : s.leases ≡ t.leases
  pub same_decisions : s.decisions ≡ t.decisions
  pub same_project : s.project_id ≡ t.project_id

-- A write at another key is not seen.
lookup-insert_ne {ℓ} :
    {V : Type ℓ} (j k : Text) (v : V) (t : Table V)
    → text_eq j k ≡ false
    → lookup k t ≡ lookup k (insert j v t)
lookup-insert_ne j k v t h = rw (lookup-insert, h)

lookup-mark_conflicted_ne :
    (j k : Text) (o : Option SyncRecord) (t : Table SyncRecord)
    → text_eq j k ≡ false
    → lookup k t ≡ lookup k (mark_conflicted j o t)
unfolding mark_conflicted
lookup-mark_conflicted_ne j k none t h = refl
lookup-mark_conflicted_ne j k (some r) t h = rw (lookup-insert, h)

lookup-clear_rows_ne :
    (j k : Text) (rows : List Event) (t : Table (List Event))
    → text_eq j k ≡ false
    → lookup k t ≡ lookup k (clear_rows j rows t)
unfolding clear_rows
lookup-clear_rows_ne j k [] t h = rw (lookup-remove, h)
lookup-clear_rows_ne j k (e ∷ rows) t h = refl

ne_key :
    {p : Platform} {key : Text} {s : SyncState} {e : Event} (k : Text)
    → IsFresh p key s e
    → text_eq key k ≡ false
    → text_eq e.record_key k ≡ false
ne_key k f h = rw f.keyed h

Move-Agree :
    {p : Platform} {key : Text} {s t : SyncState} (k : Text)
    → text_eq key k ≡ false
    → Move p key s t
    → Agree k s t
unfolding store_event open_conflict add_pending drop_pending clear_pending remember_applied
Move-Agree k h (stored s e f c b d) = record {
  same_record = lookup-insert_ne e.record_key k _ s.records (ne_key k f h);
  same_conflict = refl;
  same_pending = refl;
  same_leases = refl;
  same_decisions = refl;
  same_project = refl;
}
Move-Agree k h (conflicted s e f) = record {
  same_record =
      lookup-mark_conflicted_ne e.record_key k (lookup e.record_key s.records) s.records
        (ne_key k f h);
  same_conflict = lookup-insert_ne e.record_key k _ s.conflicts (ne_key k f h);
  same_pending = refl;
  same_leases = refl;
  same_decisions = refl;
  same_project = refl;
}
Move-Agree k h (deferred s e f c d) = record {
  same_record = refl;
  same_conflict = refl;
  same_leases = refl;
  same_decisions = refl;
  same_project = refl;
  same_pending = lookup-insert_ne e.record_key k _ s.pending (ne_key k f h);
}
Move-Agree {key} k h (dropped s id) = record {
  same_record = refl;
  same_conflict = refl;
  same_leases = refl;
  same_decisions = refl;
  same_project = refl;
  same_pending = lookup-insert_ne key k _ s.pending h;
}
Move-Agree {key} k h (cleared s) = record {
  same_record = refl;
  same_conflict = refl;
  same_leases = refl;
  same_decisions = refl;
  same_project = refl;
  same_pending = lookup-clear_rows_ne key k (pending_rows s key) s.pending h;
}

Agree-trans : {k : Text} {s t u : SyncState} → Agree k s t → Agree k t u → Agree k s u
Agree-trans a b = record {
  same_record = a.same_record ∙ b.same_record;
  same_conflict = a.same_conflict ∙ b.same_conflict;
  same_pending = a.same_pending ∙ b.same_pending;
  same_leases = a.same_leases ∙ b.same_leases;
  same_decisions = a.same_decisions ∙ b.same_decisions;
  same_project = a.same_project ∙ b.same_project;
}

Agree-refl : (k : Text) (s : SyncState) → Agree k s s
Agree-refl k s = record {
  same_record = refl;
  same_conflict = refl;
  same_pending = refl;
  same_leases = refl;
  same_decisions = refl;
  same_project = refl;
}

pub Moves-Agree :
    {p : Platform} {key : Text} {s t : SyncState} (k : Text)
    → text_eq key k ≡ false
    → Moves p key s t
    → Agree k s t
Moves-Agree {s} k h here = Agree-refl k s
Moves-Agree k h (next m w) = Agree-trans (Moves-Agree k h m) (Move-Agree k h w)

-- Applying an event changes no record, conflict or pending row of another key, no lease and no
-- decision, and not the project.
pub apply_sync_event-Agree :
    (p : Platform) (s : SyncState) (e : Event) (key : Text)
    → IsKeyed e.record_key s
    → e.record_key ≢ key
    → Agree key s (apply_sync_event p s e).0
apply_sync_event-Agree p s e key keyed ne =
    Moves-Agree key (text_eq_ne e.record_key key ne) (apply_sync_event-Moves p s e keyed)
