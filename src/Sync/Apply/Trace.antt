-- ===== src/Sync/Apply/Trace.antt =====
-- Every run of `applySyncEvent` is a sequence of single writes to the state, each made under the
-- conditions that the code tests (packages/sync/src/sync-protocol.mjs).
use wendkeep.Prelude.{
  ℕ, zero, suc, ◌<◌, ◌≡◌, refl, Bool, true, false, not, ◌&&◌, ltb, leb, List, [], ◌∷◌, arith, inl,
  inr, Bool-cases, All, All-keep, All-sort, All-append, any, ◌++◌, ltb→lt, ltb_false→le, ◌∙◌, sym,
  subst, ap, length, List-cases,
}
use wendkeep.Prelude.Text.{Text, text_eq_refl, includes}
use wendkeep.Prelude.Table.{lookup}
use wendkeep.Prelude.Result.{ok, err, Result-cases}
use wendkeep.Platform.{Platform}
use wendkeep.Sync.Event.Data.{Event}
use wendkeep.Sync.Event.Create.{validate_sync_event}
use wendkeep.Sync.State.{
  pending_rows, current_revision, has_open_conflict, has_id, add_row, row_leb, add_pending,
  drop_pending, open_conflict, store_event, clear_pending,
}
use wendkeep.Sync.State.Data.{SyncState}
use wendkeep.Sync.State.Laws.{
  pending_rows-drop_pending, pending_rows-clear_pending, pending_rows-add_pending,
  pending_rows-store_event, pending_rows-open_conflict,
}
use wendkeep.Sync.Apply.{
  Outcome, Step, breaks_causality, accepted, admit, admit_fresh, apply_with, replay_ready,
  ready_rows, replay_loop, apply_event, apply_sync_event, note_applied,
}

-- The event is new, and its key is `key`.
pub record IsFresh (p : Platform) (key : Text) (s : SyncState) (e : Event) : Type 0 where
  pub keyed : e.record_key ≡ key
  pub valid : validate_sync_event p e s.project_id ≡ ok e
  pub unseen : includes s.applied_event_ids e.event_id ≡ false

-- One write, to the parts of the state that belong to `key`.
pub data Move (p : Platform) (key : Text) : SyncState → SyncState → Type 0 where
  -- an event that is base for base the next one is stored
  stored :
      (s : SyncState) (e : Event)
      → IsFresh p key s e
      → has_open_conflict s key ≡ false
      → e.base_revision ≡ current_revision s key
      → breaks_causality (lookup key s.records) e ≡ false
      → Move p key s (store_event s e)
  -- an event that is not becomes a candidate of a conflict
  conflicted : (s : SyncState) (e : Event) → IsFresh p key s e → Move p key s (open_conflict s e)
  -- an event from the future waits
  deferred :
      (s : SyncState) (e : Event)
      → IsFresh p key s e
      → current_revision s key < e.base_revision
      → has_open_conflict s key ≡ false
      → Move p key s (add_pending s e)
  dropped : (s : SyncState) (id : Text) → Move p key s (drop_pending s key id)
  cleared : (s : SyncState) → Move p key s (clear_pending s key)

pub data Moves (p : Platform) (key : Text) (s : SyncState) : SyncState → Type 0 where
  here : Moves p key s s
  next : {t u : SyncState} → Moves p key s t → Move p key t u → Moves p key s u

pub Moves-trans :
    {p : Platform} {key : Text} {s t u : SyncState}
    → Moves p key s t
    → Moves p key t u
    → Moves p key s u
Moves-trans m here = m
Moves-trans m (next n w) = next (Moves-trans m n) w

-- Every pending row of a key is an event of that key.
abbrev pub IsKeyed : Text → SyncState → Type 0
IsKeyed key s = All (λ e. e.record_key ≡ key) (pending_rows s key)

All-add_row :
    (P : Event → Type 0) (rows : List Event) (e : Event) → P e → All P rows → All P (add_row rows e)
unfolding add_row
All-add_row P rows e pe h = elim (Bool-cases (any (has_id e.event_id) rows)) [
  | inl old ↦ rw old (All-sort row_leb P rows h)
  | inr new ↦ rw new (All-sort row_leb P (rows ++ e ∷ []) (All-append P rows (e ∷ []) h (pe, tt)))
]

pub Move-IsKeyed :
    {p : Platform} {key : Text} {s t : SyncState} → Move p key s t → IsKeyed key s → IsKeyed key t
Move-IsKeyed {key} (stored s e f c b d) h = rw (pending_rows-store_event s e key) h
Move-IsKeyed {key} (conflicted s e f) h = rw (pending_rows-open_conflict s e key) h
Move-IsKeyed {key} (deferred s e f c d) h =
    simp (pending_rows-add_pending, f.keyed, text_eq_refl)
      (All-add_row (λ r. r.record_key ≡ key) (pending_rows s key) e f.keyed h)
Move-IsKeyed {key} (dropped s id) h =
    rw (pending_rows-drop_pending s key key id, text_eq_refl key)
      (All-keep (λ e. e.record_key ≡ key) (λ e. not (has_id id e)) (pending_rows s key) h)
Move-IsKeyed {key} (cleared s) h = rw (pending_rows-clear_pending s key key) h

pub Moves-IsKeyed :
    {p : Platform} {key : Text} {s t : SyncState} → Moves p key s t → IsKeyed key s → IsKeyed key t
Moves-IsKeyed here h = h
Moves-IsKeyed (next m w) h = Move-IsKeyed w (Moves-IsKeyed m h)

pub ready_rows-IsKeyed :
    (s : SyncState) (key : Text) → IsKeyed key s → All (λ e. e.record_key ≡ key) (ready_rows s key)
unfolding ready_rows
ready_rows-IsKeyed s key h =
    All-keep (λ e. e.record_key ≡ key) (λ e. leb e.base_revision (current_revision s key))
      (pending_rows s key) h

module _ (p : Platform) (key : Text) (apply : SyncState → Event → Step Outcome)
    (moves : (s : SyncState) (e : Event)
      → e.record_key ≡ key
      → IsKeyed key s
      → Moves p key s (apply s e).0) where
  pub replay_ready-Moves :
      (s : SyncState) (replayed : List Text) (es : List Event)
      → All (λ e. e.record_key ≡ key) es
      → IsKeyed key s
      → Moves p key s (replay_ready apply s key replayed es).0
  unfolding replay_ready
  replay_ready-Moves s replayed [] h k = here
  replay_ready-Moves s replayed (e ∷ es) h k =
      let first : Moves p key s (drop_pending s key e.event_id) =
        next here (dropped s e.event_id) in
      let s1 = drop_pending s key e.event_id in
      let second =
        Moves-trans first (moves s1 e h.0 (Move-IsKeyed {p = p} (dropped s e.event_id) k)) in
      elim (Result-cases (apply s1 e).1) [
        | inl (o, w) ↦
            rw (w, replay_ready)
              (Moves-trans second (
                replay_ready-Moves (apply s1 e).0 (note_applied replayed e.event_id o.status) es h.1
                  (Moves-IsKeyed second k)))
        | inr (x, w) ↦ rw (w, replay_ready) second
      ]

  pub replay_loop-Moves :
      (f : ℕ) (s : SyncState) (replayed : List Text)
      → IsKeyed key s
      → Moves p key s (replay_loop apply f s key replayed).0
  unfolding replay_loop
  replay_loop-Moves zero s replayed k = here
  replay_loop-Moves (suc f) s replayed k = elim (List-cases (ready_rows s key)) [
    | inl w ↦ rw (w, replay_loop) (next here (cleared s))
    | inr (e, es, w) ↦
        let first =
          replay_ready-Moves s replayed (e ∷ es)
            (subst (All (λ e. e.record_key ≡ key)) w (ready_rows-IsKeyed s key k)) k in
        rw (w, replay_loop)
          (elim (Result-cases (replay_ready apply s key replayed (e ∷ es)).1) [
            | inl (replayed', v) ↦
                rw (v, replay_loop)
                  (Moves-trans first (
                    replay_loop-Moves f (replay_ready apply s key replayed (e ∷ es)).0 replayed'
                      (Moves-IsKeyed first k)))
            | inr (x, v) ↦ rw (v, replay_loop) first
          ])
  ]

validate_sync_event-returns :
    (p : Platform) (e : Event) (project : Text) (x : Event)
    → validate_sync_event p e project ≡ ok x
    → x ≡ e
unfolding validate_sync_event
validate_sync_event-returns p e project x h = ground arith

pub accepted-state : (e : Event) (r : Step (List Text)) → (accepted e r).0 ≡ r.0
unfolding accepted
accepted-state e (s, ok replayed) = refl
accepted-state e (s, err x) = refl

module _ (p : Platform) (replay_pending : SyncState → Text → Step (List Text)) (replay : Bool)
    (s : SyncState) (e : Event)
    (moves : (t : SyncState)
      → IsKeyed e.record_key t
      → Moves p e.record_key t (replay_pending t e.record_key).0)
    (valid : validate_sync_event p e s.project_id ≡ ok e) (keyed : IsKeyed e.record_key s) where
  -- The last tests of `admit`, for a fresh event without an open conflict on its key.
  admit_fresh-Moves :
      IsFresh p e.record_key s e
      → has_open_conflict s e.record_key ≡ false
      → Moves p e.record_key s (admit_fresh replay_pending s e).0
  unfolding admit_fresh
  admit_fresh-Moves fresh calm =
      elim (Bool-cases (ltb (current_revision s e.record_key) e.base_revision)) [
        | inl early ↦ rw early (next here (deferred s e fresh (ltb→lt _ _ early) calm))
        | inr due ↦
            rw due (elim (Bool-cases (ltb e.base_revision (current_revision s e.record_key))) [
              | inl late ↦ rw late (next here (conflicted s e fresh))
              | inr exact ↦
                  rw exact (elim (Bool-cases (breaks_causality (lookup e.record_key s.records) e)) [
                    | inl bad ↦ rw bad (next here (conflicted s e fresh))
                    | inr good ↦
                        let w : Move p e.record_key s (store_event s e) =
                          stored s e fresh calm
                            (omega (arith, ltb_false→le _ _ due, ltb_false→le _ _ exact)) good in
                        rw good (
                          rw accepted-state (
                            Moves-trans (next here w)
                              (moves (store_event s e) (Move-IsKeyed w keyed))))
                  ])
            ])
      ]

  admit-Moves : Moves p e.record_key s (admit replay_pending replay s e).0
  unfolding admit
  admit-Moves = elim (Bool-cases (includes s.applied_event_ids e.event_id)) [
    | inl seen ↦ rw seen here
    | inr unseen ↦
        let fresh : IsFresh p e.record_key s e = record {
          keyed = refl;
          valid = valid;
          unseen = unseen;
        } in
        rw unseen
          (elim (Bool-cases (any (has_id e.event_id) (pending_rows s e.record_key) && not replay)) [
            | inl waits ↦ rw waits here
            | inr free ↦ rw free (elim (Bool-cases (has_open_conflict s e.record_key)) [
              | inl open_set ↦ rw open_set (next here (conflicted s e fresh))
              | inr calm ↦ rw calm (admit_fresh-Moves fresh calm)
            ])
          ])
  ]

-- Whatever the fuel, `applySyncEvent` makes moves of the event's key alone.
pub apply_event-Moves :
    (p : Platform) (f : ℕ) (replay : Bool) (s : SyncState) (e : Event) (key : Text)
    → e.record_key ≡ key
    → IsKeyed key s
    → Moves p key s (apply_event p f replay s e).0
unfolding apply_event apply_with
apply_event-Moves p zero replay s e key eq k = here
apply_event-Moves p (suc f) replay s e key eq k =
    elim (Result-cases (validate_sync_event p e s.project_id)) [
      | inl (x, w) ↦
          rw (w, apply_with)
            (subst
              (λ j.
                Moves p j s
                  (admit (λ t i. replay_loop (apply_event p f true) (suc f) t i []) replay s e).0)
              eq
              (admit-Moves p (λ t i. replay_loop (apply_event p f true) (suc f) t i []) replay s e
                (λ t kt.
                  replay_loop-Moves p e.record_key (apply_event p f true)
                    (λ u d q ku. apply_event-Moves p f true u d e.record_key q ku) (suc f) t [] kt)
                (w ∙ ap ok (validate_sync_event-returns p e s.project_id x w))
                (subst (λ j. IsKeyed j s) (sym eq) k)))
      | inr (x, w) ↦ rw (w, apply_with) here
    ]

pub apply_sync_event-Moves :
    (p : Platform) (s : SyncState) (e : Event)
    → IsKeyed e.record_key s
    → Moves p e.record_key s (apply_sync_event p s e).0
unfolding apply_sync_event
apply_sync_event-Moves p s e k =
    apply_event-Moves p (suc (length (pending_rows s e.record_key))) false s e e.record_key refl k
