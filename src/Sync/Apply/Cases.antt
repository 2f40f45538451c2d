-- ===== src/Sync/Apply/Cases.antt =====
-- The results of `applySyncEvent` behind its validation, one constructor for each way to return
-- (packages/sync/src/sync-protocol.mjs).
use wendkeep.Prelude.{
  ◌≡◌, ◌<◌, Bool, true, false, not, ◌&&◌, ltb, List, inl, inr, any, Bool-cases, ltb→lt,
  ltb_false→le, arith,
}
use wendkeep.Prelude.Text.{Text, includes}
use wendkeep.Prelude.Result.{ok}
use wendkeep.Prelude.Table.{lookup}
use wendkeep.Sync.Event.Data.{Event}
use wendkeep.Sync.State.{
  pending_rows, current_revision, has_id, has_open_conflict, add_pending, open_conflict,
  store_event,
}
use wendkeep.Sync.State.Data.{SyncState}
use wendkeep.Sync.Apply.{
  Step, Outcome, duplicate, pending, conflict, outcome, accepted, admit_fresh, admit,
  breaks_causality,
}

pub data Admitted (replay_pending : SyncState → Text → Step (List Text)) (replay : Bool)
    (s : SyncState) (e : Event) : Step Outcome → Type 0 where
  known :
      includes s.applied_event_ids e.event_id ≡ true
      → Admitted replay_pending replay s e (s, ok (outcome duplicate e))
  waiting :
      includes s.applied_event_ids e.event_id ≡ false
      → (any (has_id e.event_id) (pending_rows s e.record_key) && not replay) ≡ true
      → Admitted replay_pending replay s e (s, ok (outcome pending e))
  disputed :
      includes s.applied_event_ids e.event_id ≡ false
      → Admitted replay_pending replay s e (open_conflict s e, ok (outcome conflict e))
  early :
      includes s.applied_event_ids e.event_id ≡ false
      → current_revision s e.record_key < e.base_revision
      → Admitted replay_pending replay s e (add_pending s e, ok (outcome pending e))
  taken :
      includes s.applied_event_ids e.event_id ≡ false
      → has_open_conflict s e.record_key ≡ false
      → e.base_revision ≡ current_revision s e.record_key
      → breaks_causality (lookup e.record_key s.records) e ≡ false
      → Admitted replay_pending replay s e
          (accepted e (replay_pending (store_event s e) e.record_key))

module _ (replay_pending : SyncState → Text → Step (List Text)) (replay : Bool) (s : SyncState)
    (e : Event) where
  admit_fresh-Admitted :
      includes s.applied_event_ids e.event_id ≡ false
      → has_open_conflict s e.record_key ≡ false
      → Admitted replay_pending replay s e (admit_fresh replay_pending s e)
  unfolding admit_fresh
  admit_fresh-Admitted new calm =
      elim (Bool-cases (ltb (current_revision s e.record_key) e.base_revision)) [
        | inl a ↦ rw a (early new (ltb→lt _ _ a))
        | inr a ↦ rw a (elim (Bool-cases (ltb e.base_revision (current_revision s e.record_key))) [
          | inl b ↦ rw b (disputed new)
          | inr b ↦ rw b (elim (Bool-cases (breaks_causality (lookup e.record_key s.records) e)) [
            | inl c ↦ rw c (disputed new)
            | inr c ↦
                rw c (taken new calm (omega (arith, ltb_false→le _ _ a, ltb_false→le _ _ b)) c)
          ])
        ])
      ]

  pub admit-Admitted : Admitted replay_pending replay s e (admit replay_pending replay s e)
  unfolding admit
  admit-Admitted = elim (Bool-cases (includes s.applied_event_ids e.event_id)) [
    | inl a ↦ rw a (known a)
    | inr a ↦
        rw a
          (elim (Bool-cases (any (has_id e.event_id) (pending_rows s e.record_key) && not replay)) [
            | inl b ↦ rw b (waiting a b)
            | inr b ↦ rw b (elim (Bool-cases (has_open_conflict s e.record_key)) [
              | inl c ↦ rw c (disputed a)
              | inr c ↦ rw c (admit_fresh-Admitted a c)
            ])
          ])
  ]
