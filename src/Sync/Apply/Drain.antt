-- ===== src/Sync/Apply/Drain.antt =====
-- After an event was applied no row that could follow is left waiting
-- (packages/sync/src/sync-protocol.mjs).
use wendkeep.Prelude.{
  ◌≡◌, refl, ℕ, zero, suc, ◌<◌, true, false, leb, inl, inr, List, [], ◌∷◌, All, keep, length,
  List-cases, arith,
}
use wendkeep.Prelude.Text.{Text}
use wendkeep.Prelude.Result.{ok, Result-cases, err-ne-ok}
use wendkeep.Platform.{Platform}
use wendkeep.Sync.Event.Data.{Event}
use wendkeep.Sync.Event.Create.{validate_sync_event}
use wendkeep.Sync.State.{pending_rows, current_revision, clear_pending, store_event}
use wendkeep.Sync.State.Data.{SyncState}
use wendkeep.Sync.State.Laws.{pending_rows-clear_pending}
use wendkeep.Sync.Apply.{
  applied, Outcome, Step, outcome, admit, apply_with, replay_ready, replay_loop, ready_rows,
  apply_event, apply_sync_event,
}
use wendkeep.Sync.Apply.Cases.{Admitted, known, waiting, disputed, early, taken, admit-Admitted}
use wendkeep.Sync.Apply.Trace.{accepted-state}
use wendkeep.Sync.Apply.NoLoss.{accepted-ok}

ready_rows-clear_pending :
    (s : SyncState) (key : Text) → ready_rows (clear_pending s key) key ≡ ready_rows s key
unfolding ready_rows
ready_rows-clear_pending s key =
    rw (pending_rows-clear_pending s key key) (unfold clear_pending current_revision in refl)

replay_loop_drains :
    (apply : SyncState → Event → Step Outcome) (f : ℕ) (s : SyncState) (key : Text)
    (replayed more : List Text)
    → (replay_loop apply f s key replayed).1 ≡ ok more
    → ready_rows (replay_loop apply f s key replayed).0 key ≡ []
unfolding replay_loop
replay_loop_drains apply zero s key replayed more h = absurd (err-ne-ok h)
replay_loop_drains apply (suc f) s key replayed more h = elim (List-cases (ready_rows s key)) [
  | inl w ↦ rw (w, replay_loop) (rw ready_rows-clear_pending w)
  | inr (e, es, w) ↦ elim (Result-cases (replay_ready apply s key replayed (e ∷ es)).1) [
    | inl (rest, v) ↦
        rw (w, replay_loop)
          (rw (v, replay_loop)
            (replay_loop_drains apply f (replay_ready apply s key replayed (e ∷ es)).0 key rest more
              (rw (v, replay_loop) at (rw (w, replay_loop) at h))))
    | inr (x, v) ↦ absurd (err-ne-ok (rw (v, replay_loop) at (rw (w, replay_loop) at h)))
  ]
]

-- All rows lie beyond the revision.
abbrev AreAhead : ℕ → List Event → Type 0
AreAhead n rows = All (λ e. n < e.base_revision) rows

AreAhead-of_keep :
    (n : ℕ) (rows : List Event) → keep (λ e. leb e.base_revision n) rows ≡ [] → AreAhead n rows
AreAhead-of_keep n [] h = tt
AreAhead-of_keep n (e ∷ rows) h = ground (arith, AreAhead-of_keep n rows)

Admitted-drains :
    {replay_pending : SyncState → Text → Step (List Text)} {s : SyncState} {e : Event}
    {r : Step Outcome} (o : Outcome) (ids : List Text)
    → ((more : List Text)
        → (replay_pending (store_event s e) e.record_key).1 ≡ ok more
        → ready_rows (replay_pending (store_event s e) e.record_key).0 e.record_key ≡ [])
    → Admitted replay_pending false s e r
    → r.1 ≡ ok o
    → o.status ≡ applied ids
    → ready_rows r.0 e.record_key ≡ []
unfolding outcome
Admitted-drains o ids drains (known a) h q = absurd (ground arith)
Admitted-drains o ids drains (waiting a b) h q = absurd (ground arith)
Admitted-drains o ids drains (disputed a) h q = absurd (ground arith)
Admitted-drains o ids drains (early a b) h q = absurd (ground arith)
Admitted-drains {replay_pending} {s} {e} o ids drains (taken a b c d) h q =
    let (more, w) = accepted-ok e (replay_pending (store_event s e) e.record_key) o h in
    rw accepted-state (drains more w)

-- After an application with the status `applied`, every row that still waits under the key has a
-- base beyond the record's revision: nothing that could be applied was left waiting.
pub apply_sync_event_drains :
    (p : Platform) (s : SyncState) (e : Event) (o : Outcome) (ids : List Text)
    → (apply_sync_event p s e).1 ≡ ok o
    → o.status ≡ applied ids
    → let t = (apply_sync_event p s e).0 in
      All (λ row. current_revision t e.record_key < row.base_revision) (pending_rows t e.record_key)
unfolding apply_sync_event apply_event apply_with
apply_sync_event_drains p s e o ids h q =
    let f = length (pending_rows s e.record_key) in
    let apply = apply_event p f true in
    let loop = λ (u : SyncState) (j : Text). replay_loop apply (suc f) u j [] in
    elim (Result-cases (validate_sync_event p e s.project_id)) [
      | inl (x, v) ↦
          rw (v, apply_with)
            (let t = (admit loop false s e).0 in
              AreAhead-of_keep (current_revision t e.record_key) (pending_rows t e.record_key) (
                unfold ready_rows in
                Admitted-drains o ids
                  (λ more. replay_loop_drains apply (suc f) (store_event s e) e.record_key [] more)
                  (admit-Admitted loop false s e) (rw (v, apply_with) at h) q))
      | inr (x, v) ↦ absurd (err-ne-ok (rw (v, apply_with) at h))
    ]
