-- ===== src/Sync/Apply/Redelivery.antt =====
-- Delivering an event twice (packages/sync/src/sync-protocol.mjs): a transport may repeat events.
use wendkeep.Prelude.{◌≡◌, refl, true, false, ◌⊎◌, inl, inr, List, [], any, suc, length, arith, ◌∙◌}
use wendkeep.Prelude.Text.{Text, text_eq_refl, includes}
use wendkeep.Prelude.Result.{ok, err, Result-cases, err-ne-ok}
use wendkeep.Platform.{Platform}
use wendkeep.Sync.Event.Data.{Event}
use wendkeep.Sync.Event.Create.{validate_sync_event}
use wendkeep.Sync.State.{
  pending_rows, has_id, add_pending, open_conflict, store_event, drop_pending, clear_pending,
  remember_applied,
}
use wendkeep.Sync.State.Data.{SyncState}
use wendkeep.Sync.State.Laws.{pending_rows-add_pending, pending_rows-store_event}
use wendkeep.Sync.Apply.{
  Status, duplicate, pending, Outcome, Step, outcome, accepted, admit, apply_with, replay_loop,
  apply_event, apply_sync_event,
}
use wendkeep.Sync.Apply.Cases.{Admitted, known, waiting, disputed, early, taken, admit-Admitted}
use wendkeep.Sync.Apply.Trace.{
  Move, Moves, here, next, stored, conflicted, deferred, dropped, cleared, IsKeyed, accepted-state,
  apply_event-Moves, replay_loop-Moves, apply_sync_event-Moves,
}
use wendkeep.Sync.Apply.Monotone.{includes-remember_id, Moves-applied}
use wendkeep.Sync.Apply.NoLoss.{any-add_row}

-- The status of a repeated delivery.
unfoldable pub again : Status → Status
again pending = pending
again _ = duplicate

-- After a call that returned: the event waits, or is known as applied.
abbrev Settled : Event → Step Outcome → Outcome → Type 0
Settled e r o =
    ((o.status ≡ pending)
      × (includes r.0.applied_event_ids e.event_id ≡ false)
      × (any (has_id e.event_id) (pending_rows r.0 e.record_key) ≡ true))
    ⊎ ((again o.status ≡ duplicate) × (includes r.0.applied_event_ids e.event_id ≡ true))

accepted-again :
    (e : Event) (r : Step (List Text)) (o : Outcome)
    → (accepted e r).1 ≡ ok o
    → again o.status ≡ duplicate
unfolding accepted outcome again
accepted-again e (s, ok more) o h = ground arith
accepted-again e (s, err x) o h = absurd (err-ne-ok h)

remembered-open_conflict :
    (s : SyncState) (e : Event) → includes (open_conflict s e).applied_event_ids e.event_id ≡ true
unfolding open_conflict remember_applied
remembered-open_conflict s e = rw (includes-remember_id, text_eq_refl) (ground arith)

remembered-store_event :
    (s : SyncState) (e : Event) → includes (store_event s e).applied_event_ids e.event_id ≡ true
unfolding store_event remember_applied
remembered-store_event s e = rw (includes-remember_id, text_eq_refl) (ground arith)

waits-add_pending :
    (s : SyncState) (e : Event)
    → any (has_id e.event_id) (pending_rows (add_pending s e) e.record_key) ≡ true
waits-add_pending s e =
    rw (pending_rows-add_pending s e e.record_key, text_eq_refl e.record_key)
      (rw (any-add_row, text_eq_refl) (ground arith))

Admitted-Settled :
    {replay_pending : SyncState → Text → Step (List Text)} {s : SyncState} {e : Event}
    {r : Step Outcome} (o : Outcome)
    → (includes (store_event s e).applied_event_ids e.event_id ≡ true
        → includes (replay_pending (store_event s e) e.record_key).0.applied_event_ids e.event_id
          ≡ true)
    → Admitted replay_pending false s e r
    → r.1 ≡ ok o
    → Settled e r o
unfolding again outcome
Admitted-Settled o grows (known a) h = inr (ground arith, a)
Admitted-Settled {s} {e} o grows (waiting a b) h = inl (ground arith, a, ground arith)
Admitted-Settled {s} {e} o grows (disputed a) h = inr (ground arith, remembered-open_conflict s e)
Admitted-Settled {s} {e} o grows (early a b) h =
    inl (ground arith, unfold add_pending in a, waits-add_pending s e)
Admitted-Settled {replay_pending} {s} {e} o grows (taken a b c d) h = inr (
  accepted-again e (replay_pending (store_event s e) e.record_key) o h,
  rw accepted-state (grows (remembered-store_event s e)),
)

Move-project :
    {p : Platform} {key : Text} {s t : SyncState} → Move p key s t → t.project_id ≡ s.project_id
unfolding store_event open_conflict add_pending drop_pending clear_pending remember_applied
Move-project (stored s e f c b d) = refl
Move-project (conflicted s e f) = refl
Move-project (deferred s e f c d) = refl
Move-project (dropped s i) = refl
Move-project (cleared s) = refl

pub Moves-project :
    {p : Platform} {key : Text} {s t : SyncState} → Moves p key s t → t.project_id ≡ s.project_id
Moves-project here = refl
Moves-project (next m w) = Move-project w ∙ Moves-project m

-- The second call, once the first one has settled the event.
apply_settled :
    (p : Platform) (t : SyncState) (e : Event) (o : Outcome) (x : Event)
    → validate_sync_event p e t.project_id ≡ ok x
    → ((o.status ≡ pending)
        × (includes t.applied_event_ids e.event_id ≡ false)
        × (any (has_id e.event_id) (pending_rows t e.record_key) ≡ true))
      ⊎ ((again o.status ≡ duplicate) × (includes t.applied_event_ids e.event_id ≡ true))
    → apply_sync_event p t e ≡ (t, ok (outcome (again o.status) e))
unfolding apply_sync_event apply_event apply_with admit
apply_settled p t e o x v (inl (w, new, waits)) =
    rw (v, apply_with) (rw (new, waits, w) (unfold again in refl))
apply_settled p t e o x v (inr (w, seen)) = rw (v, apply_with) (rw (seen, w))

apply_sync_event-valid :
    (p : Platform) (s : SyncState) (e : Event) (o : Outcome)
    → (apply_sync_event p s e).1 ≡ ok o
    → (x : Event) × (validate_sync_event p e s.project_id ≡ ok x)
unfolding apply_sync_event apply_event apply_with
apply_sync_event-valid p s e o h = elim (Result-cases (validate_sync_event p e s.project_id)) [
  | inl (x, v) ↦ (x, v)
  | inr (x, v) ↦ absurd (err-ne-ok (rw (v, apply_with) at h))
]

apply_sync_event-Settled :
    (p : Platform) (s : SyncState) (e : Event) (o : Outcome)
    → IsKeyed e.record_key s
    → (apply_sync_event p s e).1 ≡ ok o
    → Settled e (apply_sync_event p s e) o
unfolding apply_sync_event apply_event apply_with
apply_sync_event-Settled p s e o keyed h =
    let f = length (pending_rows s e.record_key) in
    let loop = λ (u : SyncState) (j : Text). replay_loop (apply_event p f true) (suc f) u j [] in
    let (x, v) = apply_sync_event-valid p s e o h in
    rw (v, apply_with)
      (Admitted-Settled o
        (λ seen.
          Moves-applied e.event_id
            (replay_loop-Moves p e.record_key (apply_event p f true)
              (λ u d q ku. apply_event-Moves p f true u d e.record_key q ku) (suc f)
              (store_event s e) [] (rw pending_rows-store_event keyed))
            seen)
        (admit-Admitted loop false s e) (rw (v, apply_with) at h))

-- If an application returns, delivering the same event again changes nothing, and answers
-- `pending` if the first answer was `pending`, and `duplicate` otherwise.
pub apply_sync_event_twice :
    (p : Platform) (s : SyncState) (e : Event) (o : Outcome)
    → IsKeyed e.record_key s
    → (apply_sync_event p s e).1 ≡ ok o
    → apply_sync_event p (apply_sync_event p s e).0 e
      ≡ ((apply_sync_event p s e).0, ok (outcome (again o.status) e))
apply_sync_event_twice p s e o keyed h =
    let moves = apply_sync_event-Moves p s e keyed in
    let (x, v) = apply_sync_event-valid p s e o h in
    apply_settled p (apply_sync_event p s e).0 e o x (rw (Moves-project moves) v)
      (apply_sync_event-Settled p s e o keyed h)
