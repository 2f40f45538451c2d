-- ===== src/Tests/Outbox.antt =====
-- Ledgers with an event that is there, and one that comes.
use wendkeep.Prelude.{◌≡◌, refl, true, false, ◌||◌, List, [], ◌∷◌, any}
use wendkeep.Prelude.Text.{text, text_eq, trim}
use wendkeep.Prelude.Result.{ok}
use wendkeep.Sync.Event.Data.{Event}
use wendkeep.Sync.Outbox.{
  blank, row, Ack, Outbox, parse_lines, append_unique, checked_event, enqueue_sync_event, ack_time,
  ack_sync_event, check_events, is_acknowledged, outbox_rows, read_sync_outbox,
}
use wendkeep.Sync.Outbox.Laws.{read-enqueue, read-ack}
use wendkeep.Tests.Platform.{toy, first_event, second_event, repeat}
use wendkeep.Tests.Open.{all_open}

unfoldable outbox_open : Unit {0}
unfolding all_open parse_lines append_unique checked_event enqueue_sync_event ack_time
    ack_sync_event check_events is_acknowledged outbox_rows read_sync_outbox
outbox_open = tt

abbrev small_outbox : Outbox
small_outbox = record { events = row first_event ∷ blank ∷ []; acks = [] }

small_read : read_sync_outbox toy small_outbox ≡ ok (outbox_rows (first_event ∷ []) [])
unfolding outbox_open
small_read = refl

abbrev larger_outbox : Outbox
larger_outbox = record { events = row first_event ∷ blank ∷ row second_event ∷ []; acks = [] }

larger_written : enqueue_sync_event toy true small_outbox second_event ≡ ok (larger_outbox, true)
unfolding outbox_open
larger_written = refl

read-enqueue_example :
    (read_sync_outbox toy larger_outbox ≡ ok (outbox_rows (first_event ∷ second_event ∷ []) []))
    × (any (λ a. text_eq a.event_id second_event.event_id) (first_event ∷ []) ≡ false)
unfolding outbox_rows
read-enqueue_example =
    read-enqueue toy true true small_outbox larger_outbox second_event
      (outbox_rows (first_event ∷ []) []) small_read larger_written

abbrev acknowledged_outbox : Outbox
acknowledged_outbox = record small_outbox {
  acks =
      row (record {
        event_id = first_event.event_id;
        acknowledged_at = repeat 4 48;
        backend = text "http";
      })
      ∷ [];
}

acknowledged_written :
    ack_sync_event toy true small_outbox first_event.event_id (text "2026") (text "http")
    ≡ ok (acknowledged_outbox, true)
unfolding outbox_open
acknowledged_written = refl

read-ack_example :
    (acks : List Ack) × (read_sync_outbox toy acknowledged_outbox
      ≡ ok (outbox_rows (first_event ∷ []) acks))
    × ((e : Event)
        → is_acknowledged acks e
          ≡ (is_acknowledged [] e || text_eq (trim first_event.event_id) e.event_id))
unfolding outbox_rows
read-ack_example =
    read-ack toy true true small_outbox acknowledged_outbox first_event.event_id (text "2026")
      (text "http") (outbox_rows (first_event ∷ []) []) small_read acknowledged_written
