-- ===== src/Sync/Backend/Laws.antt =====
-- What the backend holds after a push, and what a pull returns of it
-- (packages/sync/src/sync-adapters.mjs).
use mathlib.Core.List.{append-nil}
use wendkeep.Prelude.{
  ℕ, ◌≡◌, ◌≤◌, refl, ap, sym, subst, ◌∙◌, any-append, if◌then◌else◌, Bool, true, false, some, List,
  [], ◌∷◌, ◌++◌, any, drop, length, arith, leb,
}
use wendkeep.Prelude.Text.{Text, text_eq, text_eq_refl}
use wendkeep.Prelude.Result.{Result, ok, err, guard, >>=-eq-ok, err-ne-ok, ok-injective, guard-ok}
use wendkeep.Platform.{Platform}
use wendkeep.Sync.Event.Data.{SyncError, Event, nat}
use wendkeep.Sync.Event.Create.{max_safe, validate_sync_event}
use wendkeep.Sync.State.Data.{SyncState}
use wendkeep.Sync.Outbox.{Line, blank, broken, row}
use wendkeep.Sync.Apply.{Failure, Outcome, outcome, apply_sync_event}
use wendkeep.Sync.Apply.Trace.{IsKeyed, apply_sync_event-Moves}
use wendkeep.Sync.Apply.Redelivery.{Moves-project, again, apply_sync_event_twice}
use wendkeep.Sync.Backend.{
  backend_corrupt, backend_unavailable, backend_busy, Backend, has_state, parse_ledger, of_sync,
  read_state, of_apply, append_event, push_event, cursor_number, Pulled, pulled_state,
  inferred_project, pull_events,
}

parse_ledger-append :
    (lines : List (Line Event)) (rows : List Event) (e : Event)
    → parse_ledger lines ≡ ok rows
    → parse_ledger (lines ++ row e ∷ []) ≡ ok (rows ++ e ∷ [])
unfolding parse_ledger
parse_ledger-append [] rows e h = ground (arith, h)
parse_ledger-append (blank ∷ lines) rows e h = parse_ledger-append lines rows e h
parse_ledger-append (broken ∷ lines) rows e h = absurd (err-ne-ok h)
parse_ledger-append (row b ∷ lines) rows e h =
    let (later, el, q) = >>=-eq-ok (parse_ledger lines) _ h in
    rw (parse_ledger-append lines later e el) (ap (λ l. ok (l ++ e ∷ [])) (ok-injective q))

-- The ledger behind a push.
append_event-parse :
    (lines : List (Line Event)) (rows : List Event) (e : Event)
    → parse_ledger lines ≡ ok rows
    → (parse_ledger (append_event lines rows e)
        ≡ ok (if any (λ a. text_eq a.event_id e.event_id) rows then rows else rows ++ e ∷ []))
unfolding append_event
append_event-parse lines rows e h = ground (arith, h, parse_ledger-append lines rows e h)

append_event-again :
    (lines : List (Line Event)) (rows rows' : List Event) (e : Event)
    → parse_ledger lines ≡ ok rows
    → parse_ledger (append_event lines rows e) ≡ ok rows'
    → append_event (append_event lines rows e) rows' e ≡ append_event lines rows e
unfolding append_event
append_event-again lines rows rows' e h h' = ground (
  arith,
  h,
  h',
  parse_ledger-append lines rows e h,
  text_eq_refl e.event_id,
  any-append (λ a. text_eq a.event_id e.event_id) rows (e ∷ []),
)

of_sync-ok {ℓ} : {A : Type ℓ} (r : Result SyncError A) (a : A) → of_sync r ≡ ok a → r ≡ ok a
unfolding of_sync
of_sync-ok (ok b) a h = ap ok (ok-injective h)
of_sync-ok (err x) a h = absurd (err-ne-ok h)

of_apply-ok :
    (r : SyncState × Result Failure Outcome) (s : SyncState) (o : Outcome)
    → of_apply r ≡ ok (s, o)
    → r ≡ (s, ok o)
unfolding of_apply
of_apply-ok (u, ok q) s o h = ap (λ y. (y.0, ok y.1)) (ok-injective h)
of_apply-ok (u, err x) s o h = absurd (err-ne-ok h)

-- The parts of a push that returns.
push_event-parts :
    (p : Platform) (available is_free : Bool) (b b' : Backend) (e : Event) (o : Outcome)
    → push_event p available is_free b e ≡ ok (b', o)
    → (x : Event) × (rows : List Event) × (s next : SyncState) × (available ≡ true)
      × (is_free ≡ true)
      × (validate_sync_event p e [] ≡ ok x)
      × (parse_ledger b.events ≡ ok rows)
      × (read_state b.state e.project_id ≡ ok s)
      × (apply_sync_event p s e ≡ (next, ok o))
      × (b' ≡ record { events = append_event b.events rows e; state = has_state next })
unfolding push_event
push_event-parts p available is_free b b' e o h =
    let (u, ea, h1) = >>=-eq-ok (guard available backend_unavailable) _ h in
    let (x, ev, h2) = >>=-eq-ok (of_sync (validate_sync_event p e [])) _ h1 in
    let (w, ef, h3) = >>=-eq-ok (guard is_free backend_busy) _ h2 in
    let (rows, el, h4) = >>=-eq-ok (parse_ledger b.events) _ h3 in
    let (s, es, h5) = >>=-eq-ok (read_state b.state e.project_id) _ h4 in
    let ((next, o'), en, h6) = >>=-eq-ok (of_apply (apply_sync_event p s e)) _ h5 in
    (
      x,
      rows,
      s,
      next,
      guard-ok available _ ea,
      guard-ok is_free _ ef,
      of_sync-ok _ x ev,
      el,
      es,
      of_apply-ok _ next o' en ∙ ap (λ y. (next, ok y.1)) (ok-injective h6),
      ap (λ y. y.0) (sym (ok-injective h6)),
    )

drop-length {ℓ} : {A : Type ℓ} (xs ys : List A) → drop (length xs) (xs ++ ys) ≡ ys
drop-length [] ys = refl
drop-length (x ∷ xs) ys = drop-length xs ys

drop_new :
    (known : Bool) (rows : List Event) (e : Event)
    → drop (length rows) (if known then rows else rows ++ e ∷ []) ≡ (if known then [] else e ∷ [])
drop_new true rows e = ap (drop (length rows)) (sym (append-nil rows)) ∙ drop-length rows []
drop_new false rows e = drop-length rows (e ∷ [])

inferred_project-named :
    (q : Text) (rows : List Event) (c : ℕ) (t : Text) → q ≡ c ∷ t → inferred_project q rows ≡ q
unfolding inferred_project
inferred_project-named q rows c t h = rw h refl

pulled_state-named :
    (f : SyncState) (q : Text) (c : ℕ) (t : Text)
    → q ≡ c ∷ t
    → text_eq f.project_id q ≡ true
    → pulled_state (has_state f) q ≡ ok (some f)
unfolding pulled_state read_state
pulled_state-named f [] c t h same = cc h
pulled_state-named f (a ∷ q) c t h same = rw same refl

-- A pull of a known project from the place where `rows` ended.
pull_events-ok :
    (b : Backend) (rows : List Event) (known : Bool) (e : Event) (f : SyncState) (q : Text) (c : ℕ)
    (t : Text)
    → length rows ≤ max_safe
    → q ≡ c ∷ t
    → b.state ≡ has_state f
    → text_eq f.project_id q ≡ true
    → parse_ledger b.events ≡ ok (if known then rows else rows ++ e ∷ [])
    → pull_events true b (nat (length rows)) q
      ≡ ok (record {
        cursor = length (if known then rows else rows ++ e ∷ []);
        events = if known then [] else e ∷ [];
        state = some f;
      })
unfolding pull_events cursor_number
pull_events-ok b rows known e f q c t le named has same parsed =
    let bound : leb (length rows) max_safe ≡ true = ground (arith, le) in
    rw (bound, pull_events)
      (rw parsed (
        rw (inferred_project-named q _ c t named)
          (rw has (rw (pulled_state-named f q c t named same) (rw (drop_new known rows e) refl)))))

module _ (p : Platform) (b b' : Backend) (s : SyncState) (e : Event) (o : Outcome)
    (available is_free : Bool) (has : b.state ≡ has_state s) (keyed : IsKeyed e.record_key s)
    (pushed : push_event p available is_free b e ≡ ok (b', o)) where
  -- The state of the backend is that of the project of the event.
  push_event-state :
      (x : Event) × (rows : List Event) × (available ≡ true)
      × (is_free ≡ true)
      × (validate_sync_event p e [] ≡ ok x)
      × (parse_ledger b.events ≡ ok rows)
      × (text_eq s.project_id e.project_id ≡ true)
      × ((apply_sync_event p s e).1 ≡ ok o)
      × (b' ≡ record {
        events = append_event b.events rows e;
        state = has_state (apply_sync_event p s e).0;
      })
  unfolding read_state
  push_event-state =
      let (x, rows, u, next, ea, ef, ev, el, es, en, eb) =
        push_event-parts p available is_free b b' e o pushed in
      let read : read_state (has_state s) e.project_id ≡ ok u =
        ap (λ f. read_state f e.project_id) (sym has) ∙ es in
      let (w, same, is_s) =
        >>=-eq-ok (guard (text_eq s.project_id e.project_id) backend_corrupt) _ read in
      let run : apply_sync_event p s e ≡ (next, ok o) =
        ap (λ y. apply_sync_event p y e) (ok-injective is_s) ∙ en in
      (
        x,
        rows,
        ea,
        ef,
        ev,
        el,
        guard-ok _ _ same,
        ap (λ y. y.1) run,
        eb
            ∙ ap (λ y. record { events = append_event b.events rows e; state = has_state y.0 })
                (sym run),
      )

  -- The backend behind a push still belongs to the project.
  push_event-project : text_eq (apply_sync_event p s e).0.project_id e.project_id ≡ true
  push_event-project =
      let (x, rows, ea, ef, ev, el, same, en, eb) = push_event-state in
      rw (Moves-project (apply_sync_event-Moves p s e keyed)) same

  -- On a backend that holds a state, where the pending events of the key are filed under it, an event
  -- that was pushed may be pushed again: the answer is `pending` if it was before, and `duplicate`
  -- otherwise, and neither file changes.
  pub push-push : push_event p available is_free b' e ≡ ok (b', outcome (again o.status) e)
  unfolding push_event of_sync of_apply read_state
  push-push =
      let (x, rows, ea, ef, ev, el, same, en, eb) = push_event-state in
      let next = (apply_sync_event p s e).0 in
      let parsed = append_event-parse b.events rows e el in
      let twice = apply_sync_event_twice p s e o keyed en in
      let kept = append_event-again b.events rows _ e el parsed in
      subst (λ y. push_event p available is_free y e ≡ ok (y, outcome (again o.status) e)) (sym eb)
        (rw (ea, ef, ev, push_event)
          (rw parsed (
            rw push_event-project (
              rw twice (
                ap
                  (λ l.
                    ok (record { events = l; state = has_state next }, outcome (again o.status) e))
                  kept)))))

  -- What is pulled, where `rows` are the events before the push.
  abbrev pub pulled : List Event → Pulled
  pulled rows = record {
    cursor =
        length (if any (λ a. text_eq a.event_id e.event_id) rows then rows else rows ++ e ∷ []);
    events = if any (λ a. text_eq a.event_id e.event_id) rows then [] else e ∷ [];
    state = some (apply_sync_event p s e).0;
  }

  -- On such a backend, after a push that returns, a pull from the old end of the ledger returns the
  -- event that was pushed, if it is new, and the state behind the push, if the project of the event
  -- has a name and the old end is a safe integer.
  pub pull-push :
      (rows : List Event) (c : ℕ) (t : Text)
      → parse_ledger b.events ≡ ok rows
      → length rows ≤ max_safe
      → e.project_id ≡ c ∷ t
      → pull_events true b' (nat (length rows)) e.project_id ≡ ok (pulled rows)
  pull-push rows c t el le named =
      let (x, rows', ea, ef, ev, el', same, en, eb) = push_event-state in
      let rows_eq : rows' ≡ rows = ok-injective (sym el' ∙ el) in
      let parsed = append_event-parse b.events rows e el in
      subst (λ y. pull_events true y (nat (length rows)) e.project_id ≡ ok (pulled rows))
        (ap
            (λ l. record {
              events = append_event b.events l e;
              state = has_state (apply_sync_event p s e).0;
            })
            (sym rows_eq)
          ∙ sym eb)
        (pull_events-ok _ rows _ e _ e.project_id c t le named refl push_event-project parsed)
