-- ===== src/Tests/Backend.antt =====
-- A backend that an event is pushed to, pushed again, and pulled from.
use wendkeep.Prelude.{some, ◌≡◌, refl, true, [], ◌∷◌, arith}
use wendkeep.Prelude.Text.{text}
use wendkeep.Prelude.Result.{ok}
use wendkeep.Sync.Event.Data.{nat}
use wendkeep.Sync.Apply.{Outcome, applied, duplicate, outcome, apply_sync_event}
use wendkeep.Sync.Outbox.{row}
use wendkeep.Sync.Backend.{
  Backend, has_state, parse_ledger, of_sync, read_state, of_apply, append_event, push_event,
  pull_events,
}
use wendkeep.Sync.Backend.Laws.{push-push, pull-push}
use wendkeep.Sync.Apply.Redelivery.{again}
use wendkeep.Tests.Platform.{toy, first_event}
use wendkeep.Tests.Apply.{blank}
use wendkeep.Tests.Open.{all_open}

unfoldable backend_open : Unit {0}
unfolding all_open parse_ledger of_sync read_state of_apply append_event push_event
backend_open = tt

abbrev empty_backend : Backend
empty_backend = record { events = []; state = has_state blank }

abbrev first_outcome : Outcome
first_outcome = outcome (applied []) first_event

abbrev first_backend : Backend
first_backend = record {
  events = row first_event ∷ [];
  state = has_state (apply_sync_event toy blank first_event).0;
}

first_pushed :
    push_event toy true true empty_backend first_event ≡ ok (first_backend, first_outcome)
unfolding backend_open
first_pushed = refl

push-push_example :
    push_event toy true true first_backend first_event
    ≡ ok (first_backend, outcome duplicate first_event)
unfolding again all_open
push-push_example =
    push-push toy empty_backend first_backend blank first_event first_outcome true true refl tt
      first_pushed

no_rows : parse_ledger [] ≡ ok []
unfolding parse_ledger
no_rows = refl

pull-push_example :
    pull_events true first_backend (nat 0) (text "p")
    ≡ ok (record {
      cursor = 1;
      events = first_event ∷ [];
      state = some (apply_sync_event toy blank first_event).0;
    })
unfolding all_open
pull-push_example =
    pull-push toy empty_backend first_backend blank first_event first_outcome true true refl tt
      first_pushed [] 112 [] no_rows (omega arith) refl
