-- ===== src/Sync/Event/RoundTrip.antt =====
-- A created event passes the validation (packages/sync/src/sync-protocol.mjs).
use wendkeep.Prelude.{
  ℕ, ◌≡◌, ◌≢◌, refl, true, ◌||◌, ◌==◌, [], arith, inl, inr, ◌⊎◌, All-sort, length, drop, ◌∙◌, ap,
  sym, subst,
}
use wendkeep.Prelude.Text.{Text, text_eq, text_eq_refl, text_eq_iff, text_leb, dedupe}
use wendkeep.Prelude.Json.{Json, null}
use wendkeep.Prelude.Result.{Result, ok, err, ◌>>=◌}
use wendkeep.Sync.Event.Laws.{validate_sync_event-ok}
use wendkeep.Platform.{Platform, IsDocumented}
use wendkeep.Sync.Canonical.{sync_sha256}
use wendkeep.Sync.Event.Data.{SyncError, tombstone, Privacy, private, Event, EventInput, draft_json}
use wendkeep.Sync.Event.Create.{
  required_text, is_id, is_sha256, has_integrity, create_sync_event, validate_sync_event, input_of,
  read_time, check_private, validate_private_payload, is_envelope, stored_payload,
}
use wendkeep.Sync.Event.Kept.{
  required_text_idem, sync_sha256-hex, sync_sha256-is_sha256, hex64-is_id, IsMade,
  create_sync_event-IsMade, AreClean, required_texts-AreClean, required_texts_of_AreClean,
  dedupe-AreClean, revision_pair-again, optional_policy_ref-again, check_private-again,
}

-- A result that is no error.
abbrev Returns : Result SyncError Event → Type 0
Returns (ok e) = Unit
Returns (err x) = ⊥

validated : (r : Result SyncError Event) (e : Event) → Returns r → (r >>= λ _. ok e) ≡ ok e
validated (ok c) e h = refl
validated (err x) e h = absurd h

module _ (p : Platform) (a : EventInput) (e : Event) (good : IsDocumented p) (made : IsMade p a e)
    (readable : (e.privacy ≡ private) → (e.operation ≡ tombstone) → ⊥) where
  read_time-again : (t : ℕ) → read_time p a.observed_at ≡ ok t → read_time p (p.to_iso t) ≡ ok t
  unfolding read_time
  read_time-again t h = ground (arith, good.iso_parses a.observed_at t)

  create_again : Returns (create_sync_event p (input_of e))
  unfolding create_sync_event input_of
  create_again =
      let (t, et, eo) = made.time in
      let (ts, ets, es) = made.parents in
      let clean = subst AreClean (sym es) (
        All-sort text_leb (λ u. required_text 128 u ≡ ok u) (dedupe ts)
          (dedupe-AreClean ts (required_texts-AreClean a.causal_parent_ids ts ets))) in
      let secret : check_private e.privacy e.payload ≡ ok tt =
        subst (λ x. check_private e.privacy x ≡ ok tt) (sym made.payload)
          (check_private-again e.operation e.privacy a.payload made.private_payload readable) in
      let timed : read_time p e.observed_at ≡ ok t =
        subst (λ x. read_time p x ≡ ok t) (sym eo) (read_time-again t et) in
      rw (required_text_idem 160 a.project_id e.project_id made.project) (
        rw (required_text_idem 2048 a.record_key e.record_key made.key) (
          rw (required_text_idem 160 a.actor_id e.actor_id made.actor) (
            rw (required_text_idem 160 a.device_id e.device_id made.device) (
              rw
                (revision_pair-again a.revision a.base_revision e.revision e.base_revision
                  made.revisions)
                (rw (made.operation, made.privacy)
                  (rw secret (
                    rw timed (
                      rw (required_texts_of_AreClean e.causal_parent_ids clean) (
                        rw (optional_policy_ref-again a.policy_ref e.policy_ref made.policy)
                          tt)))))))))

  has_integrity_made : has_integrity p e ≡ true
  unfolding has_integrity
  has_integrity_made =
      let whole : is_id e.event_id ≡ true =
        subst (λ x. is_id x ≡ true) (sym made.id)
          (hex64-is_id _ (sync_sha256-hex p (draft_json e.draft) good)) in
      let hashed : is_sha256 e.content_hash ≡ true =
        subst (λ x. is_sha256 x ≡ true) (sym made.content)
          (sync_sha256-is_sha256 p e.payload good) in
      let bound : text_eq e.event_id (drop 7 (sync_sha256 p (draft_json e.draft))) ≡ true =
        (text_eq_iff e.event_id _).1 made.id in
      rw (whole, hashed, bound) (ground (arith, made.schema))

-- Every event that `createSyncEvent` returns passes `validateSyncEvent`, with no project or with its
-- own, unless it is a private tombstone.
pub validate-create :
    (p : Platform) (a : EventInput) (e : Event) (project : Text)
    → IsDocumented p
    → create_sync_event p a ≡ ok e
    → ((e.privacy ≡ private) → (e.operation ≡ tombstone) → ⊥)
    → (project ≡ []) ⊎ (project ≡ e.project_id)
    → validate_sync_event p e project ≡ ok e
unfolding validate_sync_event
validate-create p a e project good h readable own =
    let made = create_sync_event-IsMade p a e h in
    let asked : ((length project == 0) || text_eq e.project_id project) ≡ true = elim own [
      | inl q ↦ ground (arith, ap length q)
      | inr q ↦
          subst (λ x. ((length x == 0) || text_eq e.project_id x) ≡ true) (sym q)
            (rw text_eq_refl (ground arith))
    ] in
    rw (has_integrity_made p a e good made readable) (
      rw asked
        (validated (create_sync_event p (input_of e)) e (create_again p a e good made readable)))

refused :
    (v : Privacy) (payload : Json) → v ≡ private → payload ≡ null → check_private v payload ≢ ok tt
refused v payload ev ep h =
    let q : check_private private null ≡ ok tt = rw ev at (rw ep at h) in
    unfold check_private validate_private_payload is_envelope in cc q

-- No private tombstone passes `validateSyncEvent`: it stores no payload, and a private event needs an
-- encrypted one. So an event that `createSyncEvent` made may be refused.
pub validate_private_tombstone :
    (p : Platform) (a : EventInput) (e : Event) (project : Text) (x : Event)
    → create_sync_event p a ≡ ok e
    → e.privacy ≡ private
    → e.operation ≡ tombstone
    → validate_sync_event p e project ≢ ok x
validate_private_tombstone p a e project x h v o q =
    let (c, again, _) = validate_sync_event-ok p e project x q in
    let made = create_sync_event-IsMade p a e h in
    let remade = create_sync_event-IsMade p (input_of e) c again in
    refused c.privacy e.payload (remade.same_privacy ∙ unfold input_of in v)
      (made.payload ∙ ap (λ y. stored_payload y a.payload) o ∙ unfold stored_payload in refl)
      (unfold input_of in remade.private_payload)
