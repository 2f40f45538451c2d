-- ===== src/Sync/Outbox/Laws.antt =====
-- What the ledgers hold after an event is enqueued or acknowledged
-- (packages/sync/src/sync-outbox.mjs).
use wendkeep.Prelude.{
  ◌≡◌, refl, ap, subst, ◌∙◌, ◌||◌, any-append, if◌then◌else◌, Bool, true, false, not, List, [], ◌∷◌,
  ◌++◌, any, take, arith, inl, inr, Bool-cases,
}
use wendkeep.Prelude.Text.{Text, text_eq, text_eq_refl, eq_of_text_eq, is_hex64, trim}
use wendkeep.Prelude.Result.{ok, guard, >>=-eq-ok, err-ne-ok, ok-injective}
use wendkeep.Platform.{Platform}
use wendkeep.Sync.Event.Data.{Event}
use wendkeep.Sync.Outbox.{
  Line, blank, broken, row, ack_invalid, ack_time, Ack, Outbox, parse_lines, append_unique,
  checked_event, enqueue_sync_event, ack_sync_event, OutboxRows, check_events, is_acknowledged,
  outbox_rows, read_sync_outbox,
}

parse_lines-append {ℓ} :
    {A : Type ℓ} (lines : List (Line A)) (rows : List A) (a : A)
    → parse_lines lines ≡ ok rows
    → parse_lines (lines ++ row a ∷ []) ≡ ok (rows ++ a ∷ [])
unfolding parse_lines
parse_lines-append [] rows a h = ground (arith, h)
parse_lines-append (blank ∷ lines) rows a h = parse_lines-append lines rows a h
parse_lines-append (broken ∷ lines) rows a h = absurd (err-ne-ok h)
parse_lines-append (row b ∷ lines) rows a h =
    let (later, e, q) = >>=-eq-ok (parse_lines lines) _ h in
    rw (parse_lines-append lines later a e) (ap (λ l. ok (l ++ a ∷ [])) (ok-injective q))

-- What the file holds behind `appendUnique`, and whether the record was new.
append_unique-ok {ℓ} :
    {A : Type ℓ} (id_of : A → Text) (is_free created : Bool) (lines lines' : List (Line A))
    (rows : List A) (a : A)
    → parse_lines lines ≡ ok rows
    → append_unique id_of is_free lines a ≡ ok (lines', created)
    → (parse_lines lines' ≡ ok (if created then rows ++ a ∷ [] else rows))
      × (any (λ b. text_eq (id_of b) (id_of a)) rows ≡ not created)
unfolding append_unique
append_unique-ok id_of is_free created lines lines' rows a parsed h =
    ground (arith, parsed, parse_lines-append lines rows a parsed, h)

-- The same record once more is not new.
append_unique-twice {ℓ} :
    {A : Type ℓ} (id_of : A → Text) (is_free created : Bool) (lines lines' : List (Line A))
    (rows : List A) (a : A)
    → parse_lines lines ≡ ok rows
    → append_unique id_of is_free lines a ≡ ok (lines', created)
    → append_unique id_of is_free lines' a ≡ ok (lines', false)
unfolding append_unique
append_unique-twice id_of is_free created lines lines' rows a parsed h = ground (
  arith,
  parsed,
  parse_lines-append lines rows a parsed,
  text_eq_refl (id_of a),
  any-append (λ b. text_eq (id_of b) (id_of a)) rows (a ∷ []),
  h,
)

check_events-append :
    (p : Platform) (es es' : List Event) (e e' : Event)
    → check_events p es ≡ ok es'
    → checked_event p e ≡ ok e'
    → check_events p (es ++ e ∷ []) ≡ ok (es' ++ e' ∷ [])
unfolding check_events
check_events-append p [] es' e e' h k = rw k (ap (λ l. ok (l ++ e' ∷ [])) (ok-injective h))
check_events-append p (a ∷ es) es' e e' h k =
    let (a', ea, h1) = >>=-eq-ok (checked_event p a) _ h in
    let (later, el, q) = >>=-eq-ok (check_events p es) _ h1 in
    rw ea
      (rw (check_events-append p es later e e' el k) (ap (λ l. ok (l ++ e' ∷ [])) (ok-injective q)))

read_sync_outbox-ok :
    (p : Platform) (o : Outbox) (events checked : List Event) (acks : List Ack)
    → parse_lines o.events ≡ ok events
    → check_events p events ≡ ok checked
    → parse_lines o.acks ≡ ok acks
    → read_sync_outbox p o ≡ ok (outbox_rows events acks)
unfolding read_sync_outbox
read_sync_outbox-ok p o events checked acks pe ce pa =
    rw (pe, read_sync_outbox) (rw ce (rw pa refl))

-- The parts of a read that returns.
read_sync_outbox-parts :
    (p : Platform) (o : Outbox) (r : OutboxRows)
    → read_sync_outbox p o ≡ ok r
    → (events checked : List Event) × (acks : List Ack) × (parse_lines o.events ≡ ok events)
      × (check_events p events ≡ ok checked)
      × (parse_lines o.acks ≡ ok acks)
      × (outbox_rows events acks ≡ r)
unfolding read_sync_outbox
read_sync_outbox-parts p o r h =
    let (events, pe, h1) = >>=-eq-ok (parse_lines o.events) _ h in
    let (checked, ce, h2) = >>=-eq-ok (check_events p events) _ h1 in
    let (acks, pa, h3) = >>=-eq-ok (parse_lines o.acks) _ h2 in
    (events, checked, acks, pe, ce, pa, ok-injective h3)

check_events-added :
    (p : Platform) (made : Bool) (es es' : List Event) (e e' : Event)
    → check_events p es ≡ ok es'
    → checked_event p e ≡ ok e'
    → (all : List Event) × (check_events p (if made then es ++ e ∷ [] else es) ≡ ok all)
check_events-added p true es es' e e' h k = (_, check_events-append p es es' e e' h k)
check_events-added p false es es' e e' h k = (_, h)

-- An event that is enqueued is read again, behind those that were there, and pending unless it is
-- acknowledged; if its id was there before, nothing changes. The acknowledgements stay.
pub read-enqueue :
    (p : Platform) (is_free created : Bool) (o o' : Outbox) (e : Event) (r : OutboxRows)
    → read_sync_outbox p o ≡ ok r
    → enqueue_sync_event p is_free o e ≡ ok (o', created)
    → (read_sync_outbox p o'
        ≡ ok (outbox_rows (if created then r.events ++ e ∷ [] else r.events) r.acks))
      × (any (λ a. text_eq a.event_id e.event_id) r.events ≡ not created)
unfolding enqueue_sync_event outbox_rows
read-enqueue p is_free created o o' e r was h =
    let (events, checked, acks, pe, ce, pa, is_r) = read_sync_outbox-parts p o r was in
    let (e', ke, h1) = >>=-eq-ok (checked_event p e) _ h in
    let ((lines, made), ae, h2) =
      >>=-eq-ok (append_unique (λ a. a.event_id) is_free o.events e) _ h1 in
    let (parsed, fresh) =
      append_unique-ok (λ a. a.event_id) is_free made o.events lines events e pe ae in
    let (all, valid) = check_events-added p made events checked e e' ce ke in
    subst
      (λ x.
        (read_sync_outbox p x.0
          ≡ ok (outbox_rows (if x.1 then r.events ++ e ∷ [] else r.events) r.acks))
        × (any (λ a. text_eq a.event_id e.event_id) r.events ≡ not x.1))
      (ok-injective h2)
      (subst
        (λ q.
          (read_sync_outbox p (record o { events = lines })
            ≡ ok (outbox_rows (if made then q.events ++ e ∷ [] else q.events) q.acks))
          × (any (λ a. text_eq a.event_id e.event_id) q.events ≡ not made))
        is_r
        (read_sync_outbox-ok p (record o { events = lines }) _ all acks parsed valid pa, fresh))

-- An event that was enqueued may be enqueued again: nothing is written.
pub enqueue-enqueue :
    (p : Platform) (is_free created : Bool) (o o' : Outbox) (e : Event) (r : OutboxRows)
    → read_sync_outbox p o ≡ ok r
    → enqueue_sync_event p is_free o e ≡ ok (o', created)
    → enqueue_sync_event p is_free o' e ≡ ok (o', false)
unfolding enqueue_sync_event
enqueue-enqueue p is_free created o o' e r was h =
    let (events, checked, acks, pe, ce, pa, is_r) = read_sync_outbox-parts p o r was in
    let (e', ke, h1) = >>=-eq-ok (checked_event p e) _ h in
    let ((lines, made), ae, h2) =
      >>=-eq-ok (append_unique (λ a. a.event_id) is_free o.events e) _ h1 in
    let again = append_unique-twice (λ a. a.event_id) is_free made o.events lines events e pe ae in
    subst (λ x. enqueue_sync_event p is_free x.0 e ≡ ok (x.0, false)) (ok-injective h2)
      (rw (ke, enqueue_sync_event) (rw again refl))

acknowledged-added :
    (made : Bool) (acks : List Ack) (a : Ack) (e : Event)
    → any (λ b. text_eq b.event_id a.event_id) acks ≡ not made
    → is_acknowledged (if made then acks ++ a ∷ [] else acks) e
      ≡ (is_acknowledged acks e || text_eq a.event_id e.event_id)
unfolding is_acknowledged
acknowledged-added true acks a e h =
    any-append (λ b. text_eq b.event_id e.event_id) acks (a ∷ []) ∙ ground arith
acknowledged-added false acks a e h = elim (Bool-cases (text_eq a.event_id e.event_id)) [
  | inl q ↦
      let known : any (λ b. text_eq b.event_id e.event_id) acks ≡ true =
        subst (λ x. any (λ b. text_eq b.event_id x) acks ≡ true) (eq_of_text_eq _ _ q) h in
      rw known refl
  | inr q ↦ ground (arith, q)
]

-- An acknowledgement takes the events with its id from the pending ones, and no other: the events
-- are read as before, and an event is acknowledged if it was or has the id.
pub read-ack :
    (p : Platform) (is_free created : Bool) (o o' : Outbox) (id at backend : Text) (r : OutboxRows)
    → read_sync_outbox p o ≡ ok r
    → ack_sync_event p is_free o id at backend ≡ ok (o', created)
    → (acks : List Ack) × (read_sync_outbox p o' ≡ ok (outbox_rows r.events acks))
      × ((e : Event)
          → is_acknowledged acks e ≡ (is_acknowledged r.acks e || text_eq (trim id) e.event_id))
unfolding ack_sync_event outbox_rows is_acknowledged
read-ack p is_free created o o' id at backend r was h =
    let (events, checked, acks, pe, ce, pa, is_r) = read_sync_outbox-parts p o r was in
    let (u, valid, h1) = >>=-eq-ok (guard (is_hex64 (trim id)) ack_invalid) _ h in
    let (time, et, h2) = >>=-eq-ok (ack_time p at) _ h1 in
    let a : Ack = record {
      event_id = trim id;
      acknowledged_at = time;
      backend = take 120 backend;
    } in
    let ((lines, made), ae, h3) =
      >>=-eq-ok (append_unique (λ b. b.event_id) is_free o.acks a) _ h2 in
    let (parsed, fresh) =
      append_unique-ok (λ b. b.event_id) is_free made o.acks lines acks a pa ae in
    let acks' : List Ack = if made then acks ++ a ∷ [] else acks in
    (
      acks',
      subst (λ x. read_sync_outbox p x.0 ≡ ok (outbox_rows r.events acks')) (ok-injective h3)
          (subst
            (λ q. read_sync_outbox p (record o { acks = lines }) ≡ ok (outbox_rows q.events acks'))
            is_r
            (read_sync_outbox-ok p (record o { acks = lines }) events checked acks' pe ce parsed)),
      λ e.
          subst
            (λ q.
              is_acknowledged acks' e ≡ (is_acknowledged q.acks e || text_eq (trim id) e.event_id))
            is_r (acknowledged-added made acks a e fresh),
    )
