-- ===== src/Sync/Apply/Fuel.antt =====
-- The fuel of `apply_sync_event` is enough: nested calls and rounds of `replayPending` are bounded
-- by the pending rows of the key (packages/sync/src/sync-protocol.mjs).
use wendkeep.Prelude.{
  ℕ, zero, suc, ◌≤◌, ◌<◌, ◌≡◌, ◌≢◌, refl, Bool, true, false, not, leb, List, [], ◌∷◌, arith, inl,
  inr, any, length, length-keep, length-keep_lt, any_of_any-keep, All, All-keep_test, List-cases,
  ap, subst,
}
use wendkeep.Prelude.Text.{Text, text_eq_refl}
use wendkeep.Prelude.Result.{err, Result-cases}
use wendkeep.Platform.{Platform}
use wendkeep.Sync.Event.Data.{Event}
use wendkeep.Sync.Event.Create.{validate_sync_event}
use wendkeep.Sync.State.{pending_rows, current_revision, has_id, drop_pending, store_event}
use wendkeep.Sync.State.Data.{SyncState}
use wendkeep.Sync.State.Laws.{
  pending_rows-drop_pending, pending_rows-clear_pending, pending_rows-store_event,
  pending_rows-open_conflict,
}
use wendkeep.Sync.Apply.{
  Outcome, Step, out_of_fuel, accepted, admit_fresh, admit, apply_with, note_applied, replay_ready,
  ready_rows, replay_loop, apply_event, apply_sync_event,
}
use wendkeep.Sync.Apply.Trace.{
  Moves, IsKeyed, Move-IsKeyed, Moves-IsKeyed, dropped, apply_event-Moves, ready_rows-IsKeyed,
  replay_ready-Moves,
}
use wendkeep.Sync.Apply.Monotone.{Moves-revision}

abbrev count : SyncState → Text → ℕ
count s key = length (pending_rows s key)

count-drop_pending_le :
    (s : SyncState) (key id : Text) → count (drop_pending s key id) key ≤ count s key
count-drop_pending_le s key id =
    rw (pending_rows-drop_pending s key key id, text_eq_refl key)
      (length-keep (λ e. not (has_id id e)) (pending_rows s key))

count-drop_pending_lt :
    (s : SyncState) (key id : Text)
    → any (has_id id) (pending_rows s key) ≡ true
    → count (drop_pending s key id) key < count s key
count-drop_pending_lt s key id h =
    rw (pending_rows-drop_pending s key key id, text_eq_refl key)
      (length-keep_lt (has_id id) (pending_rows s key) h)

revision-drop_pending :
    (s : SyncState) (key id : Text)
    → current_revision (drop_pending s key id) key ≡ current_revision s key
unfolding drop_pending current_revision
revision-drop_pending s key id = refl

-- A row that is ready is pending.
ready-pending :
    (s : SyncState) (key : Text) (e : Event) (es : List Event)
    → ready_rows s key ≡ e ∷ es
    → any (has_id e.event_id) (pending_rows s key) ≡ true
unfolding ready_rows has_id
ready-pending s key e es w =
    any_of_any-keep (λ d. leb d.base_revision (current_revision s key)) (has_id e.event_id)
      (pending_rows s key) (rw w (rw text_eq_refl))

-- An event that is no earlier than its base leaves no more rows than there were, and the fuel holds.
abbrev Fits : Text → SyncState → Step Outcome → Type 0
Fits key s r = (count r.0 key ≤ count s key) × (r.1 ≢ err out_of_fuel)

admit-Fits :
    (replay_pending : SyncState → Text → Step (List Text)) (replay : Bool) (s : SyncState)
    (e : Event)
    → ((replay_pending (store_event s e) e.record_key).1 ≢ err out_of_fuel)
    → count (replay_pending (store_event s e) e.record_key).0 e.record_key ≤ count s e.record_key
    → ((admit replay_pending replay s e).1 ≢ err out_of_fuel)
      × (e.base_revision ≤ current_revision s e.record_key
          → count (admit replay_pending replay s e).0 e.record_key ≤ count s e.record_key)
unfolding admit admit_fresh accepted
admit-Fits replay_pending replay s e ok_fuel fewer =
    ground (arith, pending_rows-open_conflict s e e.record_key)

module _ (key : Text) (f : ℕ) (apply : SyncState → Event → Step Outcome) (p : Platform)
    (moves : (s : SyncState) (e : Event)
      → e.record_key ≡ key
      → IsKeyed key s
      → Moves p key s (apply s e).0)
    (fits : (s : SyncState) (e : Event)
      → e.record_key ≡ key
      → IsKeyed key s
      → e.base_revision ≤ current_revision s key
      → count s key < f
      → Fits key s (apply s e)) where
  abbrev IsDue : SyncState → Event → Type 0
  IsDue s e = (e.record_key ≡ key) × (e.base_revision ≤ current_revision s key)

  All-IsDue_mono :
      (s t : SyncState) (es : List Event)
      → current_revision s key ≤ current_revision t key
      → All (IsDue s) es
      → All (IsDue t) es
  All-IsDue_mono s t [] h d = tt
  All-IsDue_mono s t (e ∷ es) h d = ((d.0.0, omega arith), All-IsDue_mono s t es h d.1)

  All-both :
      (s : SyncState) (es : List Event)
      → All (λ e. e.record_key ≡ key) es
      → All (λ e. leb e.base_revision (current_revision s key) ≡ true) es
      → All (IsDue s) es
  All-both s [] k d = tt
  All-both s (e ∷ es) k d = ((k.0, ground arith), All-both s es k.1 d.1)

  replay_ready_fuel :
      (s : SyncState) (replayed : List Text) (e : Event) (es : List Event)
      → All (IsDue s) (e ∷ es)
      → IsKeyed key s
      → count (drop_pending s key e.event_id) key < f
      → (count (replay_ready apply s key replayed (e ∷ es)).0 key
          ≤ count (drop_pending s key e.event_id) key)
        × ((replay_ready apply s key replayed (e ∷ es)).1 ≢ err out_of_fuel)
  unfolding replay_ready
  replay_ready_fuel s replayed e [] due keyed room =
      let s1 = drop_pending s key e.event_id in
      let first =
        fits s1 e due.0.0 (Move-IsKeyed {p = p} (dropped s e.event_id) keyed)
          (omega (arith, revision-drop_pending s key e.event_id, due.0.1)) room in
      elim (Result-cases (apply s1 e).1) [
        | inl (o, w) ↦ rw (w, replay_ready) (first.0, λ q. cc)
        | inr (x, w) ↦ rw (w, replay_ready) (first.0, λ q. first.1 (cc))
      ]
  replay_ready_fuel s replayed e (d ∷ ds) due keyed room =
      let s1 = drop_pending s key e.event_id in
      let keyed1 = Move-IsKeyed {p = p} (dropped s e.event_id) keyed in
      let first =
        fits s1 e due.0.0 keyed1 (omega (arith, revision-drop_pending s key e.event_id, due.0.1))
          room in
      let made = moves s1 e due.0.0 keyed1 in
      let s2 = (apply s1 e).0 in
      let fewer = count-drop_pending_le s2 key d.event_id in
      elim (Result-cases (apply s1 e).1) [
        | inl (o, w) ↦
            let rest =
              replay_ready_fuel s2 (note_applied replayed e.event_id o.status) d ds
                (All-IsDue_mono s s2 (d ∷ ds)
                  (omega (arith, revision-drop_pending s key e.event_id, Moves-revision key made))
                  due.1)
                (Moves-IsKeyed made keyed1) (omega (arith, fewer, first.0, room)) in
            rw (w, replay_ready) (omega (arith, rest.0, fewer, first.0), rest.1)
        | inr (x, w) ↦ rw (w, replay_ready) (first.0, λ q. first.1 (cc))
      ]

  All-IsDue_ready : (s : SyncState) → IsKeyed key s → All (IsDue s) (ready_rows s key)
  unfolding ready_rows
  All-IsDue_ready s keyed =
      All-both s (ready_rows s key) (ready_rows-IsKeyed s key keyed)
        (All-keep_test (λ e. leb e.base_revision (current_revision s key)) (pending_rows s key))

  replay_loop_fuel :
      (g : ℕ) (s : SyncState) (replayed : List Text)
      → IsKeyed key s
      → count s key < g
      → count s key ≤ f
      → (count (replay_loop apply g s key replayed).0 key ≤ count s key)
        × ((replay_loop apply g s key replayed).1 ≢ err out_of_fuel)
  unfolding replay_loop
  replay_loop_fuel zero s replayed keyed h room = absurd (omega arith)
  replay_loop_fuel (suc g) s replayed keyed h room = elim (List-cases (ready_rows s key)) [
    | inl w ↦
        rw (w, replay_loop)
          (omega (arith, ap length (pending_rows-clear_pending s key key)), λ q. cc)
    | inr (e, es, w) ↦
        let due = subst (All (IsDue s)) w (All-IsDue_ready s keyed) in
        let shorter = count-drop_pending_lt s key e.event_id (ready-pending s key e es w) in
        let round = replay_ready_fuel s replayed e es due keyed (omega (arith, shorter, room)) in
        let made =
          replay_ready-Moves p key apply moves s replayed (e ∷ es)
            (subst (All (λ d. d.record_key ≡ key)) w (ready_rows-IsKeyed s key keyed)) keyed in
        rw (w, replay_loop)
          (elim (Result-cases (replay_ready apply s key replayed (e ∷ es)).1) [
            | inl (more, v) ↦
                let rest =
                  replay_loop_fuel g (replay_ready apply s key replayed (e ∷ es)).0 more
                    (Moves-IsKeyed made keyed) (omega (arith, round.0, shorter, h))
                    (omega (arith, round.0, shorter, room)) in
                rw (v, replay_loop) (omega (arith, rest.0, round.0, shorter), rest.1)
            | inr (x, v) ↦ rw (v, replay_loop) (omega (arith, round.0, shorter), λ q. round.1 (cc))
          ])
  ]

-- One call, when the nested ones have fuel enough.
apply_event_next :
    (p : Platform) (f : ℕ) (replay : Bool) (s : SyncState) (e : Event)
    → ((t : SyncState) (d : Event)
        → d.record_key ≡ e.record_key
        → IsKeyed e.record_key t
        → d.base_revision ≤ current_revision t e.record_key
        → count t e.record_key < f
        → Fits e.record_key t (apply_event p f true t d))
    → IsKeyed e.record_key s
    → count s e.record_key < suc f
    → ((apply_event p (suc f) replay s e).1 ≢ err out_of_fuel)
      × (e.base_revision ≤ current_revision s e.record_key
          → count (apply_event p (suc f) replay s e).0 e.record_key ≤ count s e.record_key)
unfolding apply_event apply_with
apply_event_next p f replay s e fits keyed room =
    let key = e.record_key in
    let t = store_event s e in
    let same = pending_rows-store_event s e key in
    let loop =
      replay_loop_fuel key f (apply_event p f true) p
        (λ u d q ku. apply_event-Moves p f true u d key q ku) fits (suc f) t [] (rw same keyed)
        (omega (arith, ap length same, room)) (omega (arith, ap length same, room)) in
    elim (Result-cases (validate_sync_event p e s.project_id)) [
      | inl (x, w) ↦
          rw (w, apply_with)
            (admit-Fits (λ u k. replay_loop (apply_event p f true) (suc f) u k []) replay s e loop.1
              (omega (arith, loop.0, ap length same)))
      | inr (x, w) ↦ rw (w, apply_with) (λ q. cc, λ due. omega arith)
    ]

apply_event_fuel :
    (p : Platform) (f : ℕ) (s : SyncState) (e : Event) (key : Text)
    → e.record_key ≡ key
    → IsKeyed key s
    → e.base_revision ≤ current_revision s key
    → count s key < f
    → Fits key s (apply_event p f true s e)
apply_event_fuel p zero s e key eq keyed due room = absurd (omega arith)
apply_event_fuel p (suc f) s e key eq keyed due room =
    subst
      (λ k.
        IsKeyed k s
        → e.base_revision ≤ current_revision s k
        → count s k < suc f
        → Fits k s (apply_event p (suc f) true s e))
      eq
      (λ kd de rm.
        let (fine, fewer) =
          apply_event_next p f true s e
            (λ t d q kt dt ct. apply_event_fuel p f t d e.record_key q kt dt ct) kd rm in
        (fewer de, fine))
      keyed due room

-- With a state whose pending rows are keyed, `applySyncEvent` always returns: the model's fuel
-- never runs out, so an error is one of the protocol's own.
pub apply_sync_event_total :
    (p : Platform) (s : SyncState) (e : Event)
    → IsKeyed e.record_key s
    → (apply_sync_event p s e).1 ≢ err out_of_fuel
unfolding apply_sync_event
apply_sync_event_total p s e keyed =
    (apply_event_next p (count s e.record_key) false s e
      (λ t d q kt dt ct. apply_event_fuel p (count s e.record_key) t d e.record_key q kt dt ct)
      keyed (omega arith)).0
