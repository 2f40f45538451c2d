-- ===== src/Sync/Event/Laws.antt =====
-- What a created and a validated event satisfy (packages/sync/src/sync-protocol.mjs).
use wendkeep.Prelude.{ℕ, ◌+◌, ◌≡◌, true, arith}
use wendkeep.Prelude.Text.{Text}
use wendkeep.Prelude.Result.{ok}
use wendkeep.Platform.{Platform}
use wendkeep.Sync.Event.Data.{Event, EventInput, Num, nat, neg}
use wendkeep.Sync.Event.Create.{
  create_sync_event, validate_sync_event, input_of, has_integrity, revision_pair,
}

pub revision_pair-ok :
    (r b : Num) (x : ℕ × ℕ)
    → revision_pair r b ≡ ok x
    → (x.0 ≡ x.1 + 1) × (r ≡ nat x.0) × (b ≡ nat x.1)
unfolding revision_pair
revision_pair-ok (nat r) (nat b) x h = ground arith
revision_pair-ok (nat r) (neg b) x h = cc
revision_pair-ok (nat r) Num.other x h = cc
revision_pair-ok (neg r) b x h = cc
revision_pair-ok Num.other b x h = cc

pub create_sync_event-revision :
    (p : Platform) (a : EventInput) (e : Event)
    → create_sync_event p a ≡ ok e
    → revision_pair a.revision a.base_revision ≡ ok (e.revision, e.base_revision)
unfolding create_sync_event
create_sync_event-revision p a e h = ground arith

pub validate_sync_event-ok :
    (p : Platform) (e : Event) (project : Text) (x : Event)
    → validate_sync_event p e project ≡ ok x
    → (c : Event) × (create_sync_event p (input_of e) ≡ ok c) × (has_integrity p e ≡ true)
unfolding validate_sync_event
validate_sync_event-ok p e project x h = ground arith

-- A valid event is one revision past its base.
pub validate_sync_event-revision :
    (p : Platform) (e : Event) (project : Text) (x : Event)
    → validate_sync_event p e project ≡ ok x
    → e.revision ≡ e.base_revision + 1
unfolding input_of
validate_sync_event-revision p e project x h =
    let (c, created, _) = validate_sync_event-ok p e project x h in
    let shape = create_sync_event-revision p (input_of e) c created in
    ground (
      arith,
      revision_pair-ok (nat e.revision) (nat e.base_revision) (c.revision, c.base_revision) shape,
    )
