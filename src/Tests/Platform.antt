-- ===== src/Tests/Platform.antt =====
-- A platform and a few events to run packages/sync/src/sync-protocol.mjs on.
use wendkeep.Prelude.{
  ℕ, zero, suc, ◌+◌, ◌%◌, ◌/◌, ◌≡◌, refl, ap, true, none, some, List, [], ◌∷◌, arith, length, drop,
}
use wendkeep.Prelude.Text.{Text, text, is_hex64, is_lower_hex, is_digit}
use wendkeep.Prelude.Json.{str}
use wendkeep.Platform.{Platform, IsDocumented}
use wendkeep.Sync.Canonical.{sync_sha256}
use wendkeep.Sync.Event.Data.{Draft, Event, put, shared, draft_json}

unfoldable pub repeat : ℕ → ℕ → Text
repeat zero c = []
repeat (suc n) c = c ∷ repeat n c

unfoldable pub total : Text → ℕ
total [] = 0
total (c ∷ s) = c + total s

-- A digest that tells the events below apart.
abbrev pub toy : Platform
toy = record {
  sha256_hex = λ t. (48 + total t % 10) ∷ (48 + total t / 10 % 10) ∷ repeat 62 48;
  parse_date = λ t. some (length t);
  to_iso = λ n. repeat n 48;
}

length-repeat : (n c : ℕ) → length (repeat n c) ≡ n
unfolding repeat
length-repeat zero c = refl
length-repeat (suc n) c = omega (arith, length-repeat n c)

toy-digest : (n : ℕ) → is_hex64 ((48 + n % 10) ∷ (48 + n / 10 % 10) ∷ repeat 62 48) ≡ true
unfolding is_hex64 is_lower_hex is_digit repeat
toy-digest n = ground arith

pub toy-IsDocumented : IsDocumented toy
toy-IsDocumented = record {
  digest_hex = λ t. toy-digest (total t);
  iso_parses = λ s t h. ap some (length-repeat t 48);
}

-- An event of the record `k` with the payload `body`.
abbrev pub draft_at : ℕ → List Text → Text → Draft
draft_at base parents body = record {
  schema_version = 1;
  project_id = text "p";
  record_key = text "k";
  revision = base + 1;
  base_revision = base;
  content_hash = sync_sha256 toy (str body);
  causal_parent_ids = parents;
  actor_id = text "a";
  device_id = text "d";
  lease_id = [];
  observed_at = repeat 4 48;
  operation = put;
  privacy = shared;
  policy_ref = none;
  payload = str body;
}

abbrev pub event_at : ℕ → List Text → Text → Event
event_at base parents body =
    let draft : Draft = draft_at base parents body in
    record { draft = draft; event_id = drop 7 (sync_sha256 toy (draft_json draft)) }

-- The first event, the next one, and one that competes with the next.
abbrev pub first_event : Event
first_event = event_at 0 [] (text "one")

abbrev pub second_event : Event
second_event = event_at 1 (first_event.event_id ∷ []) (text "two")

abbrev pub rival_event : Event
rival_event = event_at 0 [] (text "zwei")
