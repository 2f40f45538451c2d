-- ===== src/Sync/Resolve/Laws.antt =====
-- What a resolution does to the state (packages/sync/src/sync-protocol.mjs).
use wendkeep.Prelude.{
  ℕ, ◌+◌, ◌≡◌, ◌<◌, ◌≤◌, refl, false, Option, some, List, [], ◌∷◌, ◌++◌, arith, inl, inr, ◌∙◌, ap,
  subst, find, All, Option-cases,
}
use wendkeep.Prelude.Text.{Text, text_eq, text_eq_refl}
use wendkeep.Prelude.Table.{lookup, lookup-insert}
use wendkeep.Prelude.Result.{ok, >>=-eq-ok, err-ne-ok, ok-injective}
use wendkeep.Platform.{Platform}
use wendkeep.Sync.Event.Data.{Event, EventInput}
use wendkeep.Sync.Event.Create.{required_text, create_sync_event, stored_payload}
use wendkeep.Sync.Event.Laws.{create_sync_event-revision, revision_pair-ok}
use wendkeep.Sync.State.{remember_applied, has_open_conflict}
use wendkeep.Sync.State.Data.{
  Candidate, ConflictSet, opened, Decision, SyncState, record_from_event,
}
use wendkeep.Sync.Resolve.{
  ResolveInput, Resolution, require_open, select_candidate, max_revision, resolving_operation,
  resolution_input, resolve_sync_conflict, decide, settle_conflict,
}

All-le_mono :
    (m n : ℕ) (cs : List Candidate)
    → m ≤ n
    → All (λ c. c.revision ≤ m) cs
    → All (λ c. c.revision ≤ n) cs
All-le_mono m n [] h a = tt
All-le_mono m n (c ∷ cs) h a = (omega arith, All-le_mono m n cs h a.1)

max_revision-le : (cs : List Candidate) → All (λ c. c.revision ≤ max_revision cs) cs
unfolding max_revision
max_revision-le [] = tt
max_revision-le (c ∷ cs) =
    (omega arith, All-le_mono (max_revision cs) _ cs (omega arith) (max_revision-le cs))

create_sync_event-content :
    (p : Platform) (a : EventInput) (e : Event)
    → create_sync_event p a ≡ ok e
    → (e.payload ≡ stored_payload a.operation a.payload)
      × (e.operation ≡ a.operation)
      × (e.privacy ≡ a.privacy)
unfolding create_sync_event
create_sync_event-content p a e h = ground arith

create_sync_event-key :
    (p : Platform) (a : EventInput) (e : Event)
    → create_sync_event p a ≡ ok e
    → required_text 2048 a.record_key ≡ ok e.record_key
unfolding create_sync_event
create_sync_event-key p a e h = ground arith

decide-ids :
    (p : Platform) (key : Text) (a : ResolveInput) (reason : Text) (e : Event) (d : Decision)
    → decide p key a reason e ≡ ok d
    → (d.selected_event_id ≡ a.selected_event_id) × (d.resolution_event_id ≡ e.event_id)
unfolding decide
decide-ids p key a reason e d h = ground arith

module _ (p : Platform) (s t : SyncState) (a : ResolveInput) (r : Resolution) where
  -- The set that is resolved is open, and the choice is one of its candidates.
  resolve_sync_conflict-parts :
      resolve_sync_conflict p s a ≡ ok (t, r)
      → (key : Text) × (set : ConflictSet) × (selected : Candidate) × (event : Event)
        × (decision : Decision) × (required_text 2048 a.record_key ≡ ok key)
        × (require_open (lookup key s.conflicts) ≡ ok set)
        × (select_candidate a.selected_event_id set ≡ ok selected)
        × (create_sync_event p (resolution_input s key set selected a) ≡ ok event)
        × (decision.selected_event_id ≡ a.selected_event_id)
        × (decision.resolution_event_id ≡ event.event_id)
        × (settle_conflict s key set event decision ≡ (t, r))
  unfolding resolve_sync_conflict
  resolve_sync_conflict-parts h =
      let (key, ek, h1) = >>=-eq-ok (required_text 2048 a.record_key) _ h in
      let (set, es, h2) = >>=-eq-ok (require_open (lookup key s.conflicts)) _ h1 in
      let (selected, ec, h3) = >>=-eq-ok (select_candidate a.selected_event_id set) _ h2 in
      let (reason, er, h4) = >>=-eq-ok (required_text 500 a.reason) _ h3 in
      let (event, ee, h5) =
        >>=-eq-ok (create_sync_event p (resolution_input s key set selected a)) _ h4 in
      let (decision, ed, h6) = >>=-eq-ok (decide p key a reason event) _ h5 in
      let (chosen, id) = decide-ids p key a reason event decision ed in
      (key, set, selected, event, decision, ek, es, ec, ee, chosen, id, cc h6)

require_open-ok :
    (o : Option ConflictSet) (set : ConflictSet)
    → require_open o ≡ ok set
    → (o ≡ some set) × (set.status ≡ opened)
unfolding require_open
require_open-ok o set h = ground arith

select_candidate-ok :
    (id : Text) (set : ConflictSet) (c : Candidate)
    → select_candidate id set ≡ ok c
    → find (λ d. text_eq d.event_id id) set.candidates ≡ some c
unfolding select_candidate
select_candidate-ok id set c h =
    elim (Option-cases (find (λ d. text_eq d.event_id id) set.candidates)) [
      | inl e ↦ absurd (err-ne-ok (rw (e, select_candidate) at h))
      | inr (d, e) ↦ e ∙ ap some (ok-injective (rw (e, select_candidate) at h))
    ]

settled-record :
    (s : SyncState) (key : Text) (set : ConflictSet) (e : Event) (d : Decision)
    → (lookup key (settle_conflict s key set e d).0.records ≡ some (record_from_event e))
      × (has_open_conflict (settle_conflict s key set e d).0 key ≡ false)
unfolding settle_conflict remember_applied has_open_conflict
settled-record s key set e d = (rw (lookup-insert, text_eq_refl), rw (lookup-insert, text_eq_refl))

-- The revision of a resolution is beyond those of all candidates.
resolution-revision :
    (p : Platform) (s : SyncState) (key : Text) (set : ConflictSet) (c : Candidate)
    (a : ResolveInput) (e : Event)
    → create_sync_event p (resolution_input s key set c a) ≡ ok e
    → e.revision ≡ max_revision set.candidates + 1
unfolding resolution_input
resolution-revision p s key set c a e h =
    let shape = create_sync_event-revision p (resolution_input s key set c a) e h in
    let parts = revision_pair-ok _ _ (e.revision, e.base_revision) shape in ground (arith, parts.1)

All-beyond :
    (n m : ℕ) (cs : List Candidate)
    → n ≡ m + 1
    → All (λ c. c.revision ≤ m) cs
    → All (λ c. c.revision < n) cs
All-beyond n m [] h a = tt
All-beyond n m (c ∷ cs) h a = (omega arith, All-beyond n m cs h a.1)

-- What a resolution does to a state: which set it closes, the record that is left, and what it
-- leaves alone.
pub record IsSettled (s t : SyncState) (a : ResolveInput) (r : Resolution) : Type 0 where
  pub key : Text
  pub set : ConflictSet
  pub chosen : Candidate
  pub names_key : required_text 2048 a.record_key ≡ ok key
  pub had_set : lookup key s.conflicts ≡ some set
  pub was_open : set.status ≡ opened
  pub is_choice : find (λ c. text_eq c.event_id a.selected_event_id) set.candidates ≡ some chosen
  pub new_record : lookup key t.records ≡ some (record_from_event r.event)
  pub new_payload :
      r.event.payload ≡ stored_payload (resolving_operation chosen.operation) chosen.payload
  pub beyond_all : All (λ c. c.revision < r.event.revision) set.candidates
  pub now_closed : has_open_conflict t key ≡ false
  pub logged : t.decisions ≡ s.decisions ++ r.decision ∷ []
  pub logs_choice : r.decision.selected_event_id ≡ a.selected_event_id
  pub logs_event : r.decision.resolution_event_id ≡ r.event.event_id
  pub same_pending : t.pending ≡ s.pending
  pub same_leases : t.leases ≡ s.leases

-- A resolution that returns closes an open conflict of the key: the record becomes the event of the
-- resolution, with the payload of the chosen candidate and a revision beyond those of all
-- candidates; no conflict is open under the key, and the decision is appended to the log. The
-- events that wait, and the leases, are left as they were.
pub resolve_sync_conflict_settles :
    (p : Platform) (s t : SyncState) (a : ResolveInput) (r : Resolution)
    → resolve_sync_conflict p s a ≡ ok (t, r)
    → IsSettled s t a r
unfolding settle_conflict remember_applied resolution_input
resolve_sync_conflict_settles p s t a r h =
    let (key, set, chosen, event, decision, ek, es, ec, ee, ech, eid, done) =
      resolve_sync_conflict-parts p s t a r h in
    let (found, is_opened) = require_open-ok (lookup key s.conflicts) set es in
    let content = create_sync_event-content p (resolution_input s key set chosen a) event ee in
    let beyond =
      All-beyond event.revision (max_revision set.candidates) set.candidates
        (resolution-revision p s key set chosen a event ee) (max_revision-le set.candidates) in
    let settled = settled-record s key set event decision in
    record {
      key = key;
      set = set;
      chosen = chosen;
      names_key = ek;
      had_set = found;
      was_open = is_opened;
      is_choice = select_candidate-ok a.selected_event_id set chosen ec;
      new_record =
          subst (λ x. lookup key x.0.records ≡ some (record_from_event x.1.event)) done settled.0;
      new_payload =
          subst
            (λ x.
              x.1.event.payload
              ≡ stored_payload (resolving_operation chosen.operation) chosen.payload)
            done content.0;
      beyond_all =
          subst (λ x. All (λ c. c.revision < x.1.event.revision) set.candidates) done beyond;
      now_closed = subst (λ x. has_open_conflict x.0 key ≡ false) done settled.1;
      logged = subst (λ x. x.0.decisions ≡ s.decisions ++ x.1.decision ∷ []) done refl;
      logs_choice = subst (λ x. x.1.decision.selected_event_id ≡ a.selected_event_id) done ech;
      logs_event = subst (λ x. x.1.decision.resolution_event_id ≡ x.1.event.event_id) done eid;
      same_pending = subst (λ x. x.0.pending ≡ s.pending) done refl;
      same_leases = subst (λ x. x.0.leases ≡ s.leases) done refl;
    }
