-- ===== src/Tests/Apply.antt =====
-- Runs of `applySyncEvent`, and its theorems at concrete inputs.
use mathlib.Core.Bool.{false≢true}
use wendkeep.Prelude.{◌≡◌, ◌≢◌, ◌≤◌, ◌<◌, refl, true, [], ◌∷◌, All}
use wendkeep.Prelude.Text.{text, includes, text_eq, text_eq_iff}
use wendkeep.Prelude.Result.{ok, err}
use wendkeep.Sync.State.{current_revision, pending_rows}
use wendkeep.Sync.State.Data.{SyncState}
use wendkeep.Sync.Apply.{duplicate, conflict, applied, outcome, out_of_fuel, apply_sync_event}
use wendkeep.Sync.Apply.Trace.{IsKeyed}
use wendkeep.Sync.Apply.Monotone.{apply_sync_event_monotone}
use wendkeep.Sync.Apply.Frame.{Agree, apply_sync_event-Agree}
use wendkeep.Sync.Apply.Fuel.{apply_sync_event_total}
use wendkeep.Sync.Apply.NoLoss.{is_tracked, apply_sync_event-tracked}
use wendkeep.Sync.Apply.Redelivery.{again, apply_sync_event_twice}
use wendkeep.Sync.Apply.Drain.{apply_sync_event_drains}
use wendkeep.Tests.Platform.{toy, first_event, second_event, rival_event}
use wendkeep.Tests.Open.{all_open}

abbrev pub blank : SyncState
blank = record {
  project_id = text "p";
  records = [];
  conflicts = [];
  pending = [];
  leases = [];
  decisions = [];
  applied_event_ids = [];
}

first_applied : (apply_sync_event toy blank first_event).1 ≡ ok (outcome (applied []) first_event)
unfolding all_open
first_applied = refl

-- The second event is delivered first, waits, and is applied after the first one.
out_of_order :
    (apply_sync_event toy (apply_sync_event toy blank second_event).0 first_event).1
    ≡ ok (outcome (applied (second_event.event_id ∷ [])) first_event)
unfolding all_open
out_of_order = refl

-- A rival of an applied event opens a conflict.
rival_conflicts :
    (apply_sync_event toy (apply_sync_event toy blank first_event).0 rival_event).1
    ≡ ok (outcome conflict rival_event)
unfolding all_open
rival_conflicts = refl

abbrev pub after_second : SyncState
after_second = (apply_sync_event toy blank second_event).0

after_second-IsKeyed : IsKeyed (text "k") after_second
unfolding all_open
after_second-IsKeyed = (refl, tt)

apply_sync_event_total_example : (apply_sync_event toy after_second first_event).1 ≢ err out_of_fuel
apply_sync_event_total_example =
    apply_sync_event_total toy after_second first_event after_second-IsKeyed

apply_sync_event-tracked_example :
    is_tracked (text "k") (apply_sync_event toy after_second first_event).0 second_event.event_id
    ≡ true
unfolding all_open
apply_sync_event-tracked_example =
    apply_sync_event-tracked toy after_second first_event second_event.event_id
      (outcome (applied (second_event.event_id ∷ [])) first_event) after_second-IsKeyed out_of_order
      refl

apply_sync_event_twice_example :
    apply_sync_event toy (apply_sync_event toy after_second first_event).0 first_event
    ≡ ((apply_sync_event toy after_second first_event).0, ok (outcome duplicate first_event))
unfolding all_open again
apply_sync_event_twice_example =
    apply_sync_event_twice toy after_second first_event
      (outcome (applied (second_event.event_id ∷ [])) first_event) after_second-IsKeyed out_of_order

apply_sync_event_drains_example :
    let t = (apply_sync_event toy after_second first_event).0 in
    All (λ row. current_revision t (text "k") < row.base_revision) (pending_rows t (text "k"))
unfolding all_open
apply_sync_event_drains_example =
    apply_sync_event_drains toy after_second first_event
      (outcome (applied (second_event.event_id ∷ [])) first_event) (second_event.event_id ∷ [])
      out_of_order refl

k_ne_j : text "k" ≢ text "j"
unfolding text_eq
k_ne_j q = false≢true ((text_eq_iff (text "k") (text "j")).1 q)

apply_sync_event-Agree_example :
    Agree (text "j") after_second (apply_sync_event toy after_second first_event).0
apply_sync_event-Agree_example =
    apply_sync_event-Agree toy after_second first_event (text "j") after_second-IsKeyed k_ne_j

apply_sync_event_monotone_example :
    (current_revision after_second (text "k")
      ≤ current_revision (apply_sync_event toy after_second first_event).0 (text "k"))
    × (includes after_second.applied_event_ids (text "x") ≡ true
        → includes (apply_sync_event toy after_second first_event).0.applied_event_ids (text "x")
          ≡ true)
apply_sync_event_monotone_example =
    apply_sync_event_monotone toy after_second first_event (text "k") (text "x")
      after_second-IsKeyed
