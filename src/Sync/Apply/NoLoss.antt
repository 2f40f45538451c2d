-- ===== src/Sync/Apply/NoLoss.antt =====
-- No event is lost: what was waiting, and the event that is applied, is afterwards waiting or known
-- as applied (packages/sync/src/sync-protocol.mjs).
use wendkeep.Prelude.{
  ℕ, zero, suc, ◌≡◌, refl, Bool, true, false, not, ◌||◌, if◌then◌else◌, List, [], ◌∷◌, ◌++◌, arith,
  inl, inr, Bool-cases, any, length, All, subst, any-sort, any-append, keep, List-cases, ◌∙◌,
}
use wendkeep.Prelude.Text.{Text, text_eq, text_eq_refl, text_eq_iff, eq_of_text_eq, includes}
use wendkeep.Prelude.Result.{ok, err, Result-cases, err-ne-ok}
use wendkeep.Platform.{Platform}
use wendkeep.Sync.Event.Data.{Event}
use wendkeep.Sync.Event.Create.{validate_sync_event}
use wendkeep.Sync.State.{
  pending_rows, has_id, add_row, row_leb, add_pending, drop_pending, open_conflict, store_event,
  clear_pending, remember_applied,
}
use wendkeep.Sync.State.Data.{SyncState}
use wendkeep.Sync.State.Laws.{
  pending_rows-drop_pending, pending_rows-clear_pending, pending_rows-store_event,
  pending_rows-add_pending,
}
use wendkeep.Sync.Apply.{
  Outcome, Step, accepted, admit, apply_with, note_applied, replay_ready, ready_rows, replay_loop,
  apply_event, apply_sync_event,
}
use wendkeep.Sync.Apply.Cases.{Admitted, known, waiting, disputed, early, taken, admit-Admitted}
use wendkeep.Sync.Apply.Trace.{
  accepted-state, Moves, IsKeyed, Moves-IsKeyed, Move-IsKeyed, dropped, replay_ready-Moves,
  ready_rows-IsKeyed, apply_event-Moves,
}
use wendkeep.Sync.Apply.Monotone.{includes-remember_id, included_eq}

-- The event with this id is waiting under the key, or known as applied.
abbrev pub is_tracked : Text → SyncState → Text → Bool
is_tracked key s id = any (has_id id) (pending_rows s key) || includes s.applied_event_ids id

any_same_id :
    (rows : List Event) (i id : Text)
    → any (has_id i) rows ≡ true
    → text_eq i id ≡ true
    → any (has_id id) rows ≡ true
any_same_id rows i id h e = rw (eq_of_text_eq i id e) at h

pub any-add_row :
    (rows : List Event) (e : Event) (id : Text)
    → any (has_id id) (add_row rows e) ≡ (any (has_id id) rows || text_eq e.event_id id)
unfolding add_row
any-add_row rows e id =
    any-sort row_leb (has_id id) (if any (has_id e.event_id) rows then rows else rows ++ e ∷ [])
    ∙ elim (Bool-cases (any (has_id e.event_id) rows)) [
      | inl old ↦ rw old (ground (arith, any_same_id rows e.event_id id old))
      | inr new ↦ rw new (rw any-append (unfold has_id in ground arith))
    ]

-- Dropping one row keeps track of every other event.
any-keep_other :
    (rows : List Event) (i id : Text)
    → text_eq i id ≡ false
    → any (has_id id) (keep (λ e. not (has_id i e)) rows) ≡ any (has_id id) rows
unfolding has_id
any-keep_other [] i id h = refl
any-keep_other (e ∷ rows) i id h = ground (
  arith,
  any-keep_other rows i id h,
  text_eq_iff e.event_id i,
  text_eq_iff e.event_id id,
  text_eq_iff i id,
)

tracked-store_event :
    (s : SyncState) (e : Event) (key id : Text)
    → is_tracked key (store_event s e) id ≡ (is_tracked key s id || text_eq e.event_id id)
unfolding store_event remember_applied pending_rows
tracked-store_event s e key id =
    ground (arith, includes-remember_id s.applied_event_ids e.event_id id)

tracked-open_conflict :
    (s : SyncState) (e : Event) (key id : Text)
    → is_tracked key (open_conflict s e) id ≡ (is_tracked key s id || text_eq e.event_id id)
unfolding open_conflict remember_applied pending_rows
tracked-open_conflict s e key id =
    ground (arith, includes-remember_id s.applied_event_ids e.event_id id)

tracked-add_pending :
    (s : SyncState) (e : Event) (id : Text)
    → is_tracked e.record_key (add_pending s e) id
      ≡ (is_tracked e.record_key s id || text_eq e.event_id id)
tracked-add_pending s e id =
    rw (pending_rows-add_pending s e e.record_key, text_eq_refl e.record_key)
      (rw any-add_row (unfold add_pending in ground arith))

tracked-drop_pending :
    (s : SyncState) (key i id : Text)
    → text_eq i id ≡ false
    → is_tracked key (drop_pending s key i) id ≡ is_tracked key s id
tracked-drop_pending s key i id h =
    rw (pending_rows-drop_pending s key key i, text_eq_refl key)
      (rw (any-keep_other (pending_rows s key) i id h) (unfold drop_pending in refl))

tracked-clear_pending :
    (s : SyncState) (key id : Text) → is_tracked key (clear_pending s key) id ≡ is_tracked key s id
tracked-clear_pending s key id =
    rw (pending_rows-clear_pending s key key) (unfold clear_pending in refl)

pub accepted-ok :
    (e : Event) (r : Step (List Text)) (o : Outcome)
    → (accepted e r).1 ≡ ok o
    → (more : List Text) × (r.1 ≡ ok more)
unfolding accepted
accepted-ok e (s, ok more) o h = (more, refl)
accepted-ok e (s, err x) o h = cc

-- A step that returns keeps track of the event and of all that was tracked.
abbrev Keeps : Text → SyncState → Event → Step Outcome → Text → Type 0
Keeps key s e r id =
    (o : Outcome)
    → r.1 ≡ ok o
    → (is_tracked key s id || text_eq e.event_id id) ≡ true
    → is_tracked key r.0 id ≡ true

Admitted-Keeps :
    {replay_pending : SyncState → Text → Step (List Text)} {replay : Bool} {s : SyncState}
    {e : Event} {r : Step Outcome} (id : Text)
    → ((more : List Text)
        → (replay_pending (store_event s e) e.record_key).1 ≡ ok more
        → is_tracked e.record_key (store_event s e) id ≡ true
        → is_tracked e.record_key (replay_pending (store_event s e) e.record_key).0 id ≡ true)
    → Admitted replay_pending replay s e r
    → Keeps e.record_key s e r id
Admitted-Keeps {s} {e} id kept (known a) o h t =
    ground (arith, included_eq s.applied_event_ids e.event_id id a)
Admitted-Keeps {replay} {s} {e} id kept (waiting a b) o h t =
    ground (arith, any_same_id (pending_rows s e.record_key) e.event_id id)
Admitted-Keeps {s} {e} id kept (disputed a) o h t = rw tracked-open_conflict t
Admitted-Keeps {s} {e} id kept (early a b) o h t = rw tracked-add_pending t
Admitted-Keeps {replay_pending} {s} {e} id kept (taken a b c d) o h t =
    let (more, w) = accepted-ok e (replay_pending (store_event s e) e.record_key) o h in
    rw accepted-state (kept more w (rw tracked-store_event t))

drop-tracked :
    (s : SyncState) (key i id : Text)
    → is_tracked key s id ≡ true
    → (is_tracked key (drop_pending s key i) id || text_eq i id) ≡ true
drop-tracked s key i id t = elim (Bool-cases (text_eq i id)) [
  | inl e ↦ ground arith
  | inr e ↦ rw (e, tracked-drop_pending s key i id e, t)
]

-- Every id that is tracked stays so through the two loops, if they return.
module _ (p : Platform) (key id : Text) (apply : SyncState → Event → Step Outcome)
    (moves : (s : SyncState) (e : Event)
      → e.record_key ≡ key
      → IsKeyed key s
      → Moves p key s (apply s e).0)
    (keeps : (s : SyncState) (e : Event)
      → e.record_key ≡ key
      → IsKeyed key s
      → Keeps key s e (apply s e) id) where
  replay_ready-tracked :
      (s : SyncState) (replayed : List Text) (es : List Event) (more : List Text)
      → All (λ e. e.record_key ≡ key) es
      → IsKeyed key s
      → (replay_ready apply s key replayed es).1 ≡ ok more
      → is_tracked key s id ≡ true
      → is_tracked key (replay_ready apply s key replayed es).0 id ≡ true
  unfolding replay_ready
  replay_ready-tracked s replayed [] more due keyed h t = t
  replay_ready-tracked s replayed (e ∷ es) more due keyed h t =
      let s1 = drop_pending s key e.event_id in
      let keyed1 = Move-IsKeyed {p = p} (dropped s e.event_id) keyed in
      elim (Result-cases (apply s1 e).1) [
        | inl (o, w) ↦
            rw (w, replay_ready)
              (replay_ready-tracked (apply s1 e).0 (note_applied replayed e.event_id o.status) es
                more due.1 (Moves-IsKeyed (moves s1 e due.0 keyed1) keyed1)
                (rw (w, replay_ready) at h)
                (keeps s1 e due.0 keyed1 o w (drop-tracked s key e.event_id id t)))
        | inr (x, w) ↦ absurd (err-ne-ok (rw (w, replay_ready) at h))
      ]

  replay_loop-tracked :
      (f : ℕ) (s : SyncState) (replayed more : List Text)
      → IsKeyed key s
      → (replay_loop apply f s key replayed).1 ≡ ok more
      → is_tracked key s id ≡ true
      → is_tracked key (replay_loop apply f s key replayed).0 id ≡ true
  unfolding replay_loop
  replay_loop-tracked zero s replayed more keyed h t = absurd (err-ne-ok h)
  replay_loop-tracked (suc f) s replayed more keyed h t = elim (List-cases (ready_rows s key)) [
    | inl w ↦ rw (w, replay_loop) (rw tracked-clear_pending t)
    | inr (e, es, w) ↦
        let ready = subst (All (λ d. d.record_key ≡ key)) w (ready_rows-IsKeyed s key keyed) in
        let made = replay_ready-Moves p key apply moves s replayed (e ∷ es) ready keyed in
        let s1 = (replay_ready apply s key replayed (e ∷ es)).0 in
        elim (Result-cases (replay_ready apply s key replayed (e ∷ es)).1) [
          | inl (some_more, v) ↦
              rw (w, replay_loop)
                (rw (v, replay_loop)
                  (replay_loop-tracked f s1 some_more more (Moves-IsKeyed made keyed)
                    (rw (v, replay_loop) at (rw (w, replay_loop) at h))
                    (replay_ready-tracked s replayed (e ∷ es) some_more ready keyed v t)))
          | inr (x, v) ↦ absurd (err-ne-ok (rw (v, replay_loop) at (rw (w, replay_loop) at h)))
        ]
  ]

apply_event-Keeps :
    (p : Platform) (f : ℕ) (replay : Bool) (s : SyncState) (e : Event) (key id : Text)
    → e.record_key ≡ key
    → IsKeyed key s
    → Keeps key s e (apply_event p f replay s e) id
unfolding apply_event apply_with
apply_event-Keeps p zero replay s e key id eq keyed o h t = absurd (err-ne-ok h)
apply_event-Keeps p (suc f) replay s e key id eq keyed o h t =
    elim (Result-cases (validate_sync_event p e s.project_id)) [
      | inl (x, w) ↦
          rw (w, apply_with)
            (subst
              (λ k.
                IsKeyed k s
                → Keeps k s e
                    (admit (λ u j. replay_loop (apply_event p f true) (suc f) u j []) replay s e)
                    id)
              eq
              (λ kd.
                Admitted-Keeps id
                  (λ more.
                    replay_loop-tracked p e.record_key id (apply_event p f true)
                      (λ u d q ku. apply_event-Moves p f true u d e.record_key q ku)
                      (λ u d q ku. apply_event-Keeps p f true u d e.record_key id q ku) (suc f)
                      (store_event s e) [] more (rw pending_rows-store_event kd))
                  (admit-Admitted (λ u j. replay_loop (apply_event p f true) (suc f) u j []) replay
                    s e))
              keyed o (rw (w, apply_with) at h) t)
      | inr (x, w) ↦ absurd (err-ne-ok (rw (w, apply_with) at h))
    ]

-- When `applySyncEvent` returns, the event itself and every event that was waiting under its key
-- or known as applied is still waiting there or known as applied.
pub apply_sync_event-tracked :
    (p : Platform) (s : SyncState) (e : Event) (id : Text) (o : Outcome)
    → IsKeyed e.record_key s
    → (apply_sync_event p s e).1 ≡ ok o
    → (is_tracked e.record_key s id || text_eq e.event_id id) ≡ true
    → is_tracked e.record_key (apply_sync_event p s e).0 id ≡ true
unfolding apply_sync_event
apply_sync_event-tracked p s e id o keyed h t =
    apply_event-Keeps p (suc (length (pending_rows s e.record_key))) false s e e.record_key id refl
      keyed o h t
