-- ===== src/Sync/State/Laws.antt =====
-- How the operations of Sync/State.antt change what the protocol reads: the pending rows, the
-- current revision and the open conflict of a key.
use wendkeep.Prelude.{
  ◌≡◌, refl, not, if◌then◌else◌, Option, none, some, keep, inl, inr, Bool-cases, sym, List-cases,
}
use wendkeep.Prelude.Text.{Text, text_eq, eq_of_text_eq}
use wendkeep.Prelude.Table.{lookup, Table, lookup-insert, lookup-remove}
use wendkeep.Sync.Event.Data.{Event}
use wendkeep.Sync.State.{
  revision_or_zero, pending_rows, current_revision, has_id, add_row, add_pending, drop_pending,
  mark_conflicted, open_conflict, store_event, clear_pending, clear_rows,
}
use wendkeep.Sync.State.Data.{SyncState, SyncRecord}

module _ (s : SyncState) (key k : Text) where
  pub pending_rows-drop_pending :
      (id : Text)
      → pending_rows (drop_pending s key id) k ≡ (
          if text_eq key k
          then keep (λ e. not (has_id id e)) (pending_rows s key)
          else pending_rows s k)
  unfolding drop_pending pending_rows
  pending_rows-drop_pending id =
      rw lookup-insert (elim (Bool-cases (text_eq key k)) [ inl e ↦ rw e | inr e ↦ rw e ])

  pub pending_rows-clear_pending : pending_rows (clear_pending s key) k ≡ pending_rows s k
  unfolding clear_pending clear_rows pending_rows
  pending_rows-clear_pending = elim (List-cases (pending_rows s key)) [
    | inl e ↦
        rw (e, clear_pending)
          (rw lookup-remove (elim (Bool-cases (text_eq key k)) [
            | inl h ↦ rw h (rw (eq_of_text_eq key k h) at (sym e))
            | inr h ↦ rw h
          ]))
    | inr (r, rest, e) ↦ rw (e, clear_rows)
  ]

-- Marking a record as conflicted leaves its revision.
revision-mark_conflicted :
    (key k : Text) (o : Option SyncRecord) (t : Table SyncRecord)
    → lookup key t ≡ o
    → revision_or_zero (lookup k (mark_conflicted key o t)) ≡ revision_or_zero (lookup k t)
unfolding mark_conflicted revision_or_zero
revision-mark_conflicted key k none t h = refl
revision-mark_conflicted key k (some r) t h = rw lookup-insert (elim (Bool-cases (text_eq key k)) [
  | inl e ↦ rw e (rw (← eq_of_text_eq key k e, h))
  | inr e ↦ rw e
])

module _ (s : SyncState) (e : Event) (k : Text) where
  pub pending_rows-add_pending : pending_rows (add_pending s e) k ≡ (
      if text_eq e.record_key k then add_row (pending_rows s e.record_key) e else pending_rows s k)
  unfolding add_pending pending_rows
  pending_rows-add_pending =
      rw lookup-insert (elim (Bool-cases (text_eq e.record_key k)) [ inl h ↦ rw h | inr h ↦ rw h ])

  pub pending_rows-store_event : pending_rows (store_event s e) k ≡ pending_rows s k
  unfolding store_event pending_rows
  pending_rows-store_event = refl

  pub pending_rows-open_conflict : pending_rows (open_conflict s e) k ≡ pending_rows s k
  unfolding open_conflict pending_rows
  pending_rows-open_conflict = refl

  pub current_revision-store_event :
      current_revision (store_event s e) k
      ≡ (if text_eq e.record_key k then e.revision else current_revision s k)
  unfolding store_event current_revision
  current_revision-store_event =
      rw lookup-insert (elim (Bool-cases (text_eq e.record_key k)) [ inl h ↦ rw h | inr h ↦ rw h ])

  pub current_revision-open_conflict : current_revision (open_conflict s e) k ≡ current_revision s k
  unfolding open_conflict current_revision
  current_revision-open_conflict =
      revision-mark_conflicted e.record_key k (lookup e.record_key s.records) s.records refl
