-- ===== src/Sync/Event/Kept.antt =====
-- What was cleaned once is cleaned to the same (packages/sync/src/sync-protocol.mjs).
use wendkeep.Prelude.{
  ℕ, ◌≡◌, refl, true, not, Option, none, some, List, [], ◌∷◌, arith, All, All-keep, all, drop, ◌∙◌,
  ap, sym, subst, sort,
}
use wendkeep.Prelude.Text.{
  Text, text, text_eq, trim, is_hex64, is_lower_hex, is_digit, text_leb, dedupe,
}
use wendkeep.Prelude.Text.Trim.{trim-trim}
use wendkeep.Prelude.Json.{Json, str}
use wendkeep.Prelude.Result.{ok, >>=-eq-ok, ok-injective}
use wendkeep.Sync.Event.Laws.{revision_pair-ok}
use wendkeep.Platform.{Platform, IsDocumented}
use wendkeep.Sync.Canonical.{sync_sha256}
use wendkeep.Sync.Event.Data.{
  Operation, tombstone, Privacy, private, Event, EventInput, PolicyRef, RawPolicyRef, Num, nat,
  draft_json,
}
use wendkeep.Sync.Event.Create.{
  required_text, required_texts, is_id, is_id_unit, is_sha256, create_sync_event,
  normalize_policy_ref, optional_policy_ref, raw_policy_ref, revision_pair, read_time,
  check_private, stored_payload, is_operation, is_privacy, version_of, join_commas,
}

pub required_text_idem : (m : ℕ) (v t : Text) → required_text m v ≡ ok t → required_text m t ≡ ok t
unfolding required_text
required_text_idem m v t h =
    let e : trim v ≡ t = ground arith in
    subst (λ x. required_text m x ≡ ok x) e (rw trim-trim (h ∙ ap ok (sym e)))

pub sync_sha256-hex :
    (p : Platform) (v : Json) → IsDocumented p → is_hex64 (drop 7 (sync_sha256 p v)) ≡ true
unfolding sync_sha256
sync_sha256-hex p (str s) d = d.digest_hex _
sync_sha256-hex p _ d = d.digest_hex _

pub sync_sha256-is_sha256 :
    (p : Platform) (v : Json) → IsDocumented p → is_sha256 (sync_sha256 p v) ≡ true
unfolding sync_sha256 is_sha256 text_eq
sync_sha256-is_sha256 p (str s) d = d.digest_hex _
sync_sha256-is_sha256 p _ d = d.digest_hex _

lower_hex_unit : (c : ℕ) → is_lower_hex c ≡ true → is_id_unit c ≡ true
unfolding is_lower_hex is_id_unit is_digit
lower_hex_unit c h = ground arith

lower_hex-id : (t : Text) → all is_lower_hex t ≡ true → all is_id_unit t ≡ true
lower_hex-id [] h = refl
lower_hex-id (c ∷ t) h = ground (arith, lower_hex_unit c, lower_hex-id t)

pub hex64-is_id : (t : Text) → is_hex64 t ≡ true → is_id t ≡ true
unfolding is_hex64 is_id
hex64-is_id t h = ground (arith, lower_hex-id t)

abbrev TimeOf : Platform → EventInput → Event → Type 0
TimeOf p a e = (t : ℕ) × (read_time p a.observed_at ≡ ok t) × (e.observed_at ≡ p.to_iso t)

abbrev ParentsOf : EventInput → Event → Type 0
ParentsOf a e =
    (ts : List Text) × (required_texts 128 a.causal_parent_ids ≡ ok ts)
    × (e.causal_parent_ids ≡ sort text_leb (dedupe ts))

-- What a created event is made of.
pub record IsMade (p : Platform) (a : EventInput) (e : Event) : Type 0 where
  pub project : required_text 160 a.project_id ≡ ok e.project_id
  pub key : required_text 2048 a.record_key ≡ ok e.record_key
  pub actor : required_text 160 a.actor_id ≡ ok e.actor_id
  pub device : required_text 160 a.device_id ≡ ok e.device_id
  pub revisions : revision_pair a.revision a.base_revision ≡ ok (e.revision, e.base_revision)
  pub operation : is_operation e.operation ≡ true
  pub privacy : is_privacy e.privacy ≡ true
  pub private_payload : check_private e.privacy a.payload ≡ ok tt
  pub payload : e.payload ≡ stored_payload e.operation a.payload
  pub same_privacy : e.privacy ≡ a.privacy
  pub time : TimeOf p a e
  pub parents : ParentsOf a e
  pub policy : optional_policy_ref a.policy_ref ≡ ok e.policy_ref
  pub schema : e.schema_version ≡ 1
  pub content : e.content_hash ≡ sync_sha256 p e.payload
  pub id : e.event_id ≡ drop 7 (sync_sha256 p (draft_json e.draft))

pub create_sync_event-IsMade :
    (p : Platform) (a : EventInput) (e : Event) → create_sync_event p a ≡ ok e → IsMade p a e
unfolding create_sync_event
create_sync_event-IsMade p a e h = record {
  project = ground arith;
  key = ground arith;
  actor = ground arith;
  device = ground arith;
  revisions = ground arith;
  operation = ground arith;
  privacy = ground arith;
  private_payload = ground arith;
  payload = ground arith;
  same_privacy = ground arith;
  time = ground arith;
  parents = ground arith;
  policy = ground arith;
  schema = ground arith;
  content = ground arith;
  id = ground arith;
}

-- Every text of the list passes the check unchanged.
abbrev pub AreClean : List Text → Type 0
AreClean ts = All (λ t. required_text 128 t ≡ ok t) ts

pub required_texts-AreClean : (xs ts : List Text) → required_texts 128 xs ≡ ok ts → AreClean ts
unfolding required_texts
required_texts-AreClean [] ts h = subst AreClean (ok-injective h) tt
required_texts-AreClean (x ∷ xs) ts h =
    let (t, et, h1) = >>=-eq-ok (required_text 128 x) _ h in
    let (us, eu, h2) = >>=-eq-ok (required_texts 128 xs) _ h1 in
    subst AreClean (ok-injective h2)
      (required_text_idem 128 x t et, required_texts-AreClean xs us eu)

pub required_texts_of_AreClean : (ts : List Text) → AreClean ts → required_texts 128 ts ≡ ok ts
unfolding required_texts
required_texts_of_AreClean [] h = refl
required_texts_of_AreClean (t ∷ ts) h = rw h.0 (rw (required_texts_of_AreClean ts h.1))

pub dedupe-AreClean : (ts : List Text) → AreClean ts → AreClean (dedupe ts)
unfolding dedupe
dedupe-AreClean [] h = tt
dedupe-AreClean (t ∷ ts) h = (
  h.0,
  All-keep (λ u. required_text 128 u ≡ ok u) (λ u. not (text_eq u t)) (dedupe ts)
      (dedupe-AreClean ts h.1),
)

pub revision_pair-again :
    (r b : Num) (x y : ℕ)
    → revision_pair r b ≡ ok (x, y)
    → revision_pair (nat x) (nat y) ≡ ok (x, y)
revision_pair-again r b x y h = let (_, er, eb) = revision_pair-ok r b (x, y) h in rw (← er, ← eb) h

normalize-again :
    (r : RawPolicyRef) (x : PolicyRef)
    → normalize_policy_ref r ≡ ok x
    → normalize_policy_ref (record {
      keys = text "policy_id" ∷ text "version" ∷ text "hash" ∷ [];
      policy_id = x.policy_id;
      version = nat x.version;
      hash = x.hash;
    })
      ≡ ok x
unfolding normalize_policy_ref version_of sort text_leb join_commas text_eq
normalize-again r x h = ground (arith, required_text_idem 160 r.policy_id x.policy_id)

pub optional_policy_ref-again :
    (o : Option RawPolicyRef) (x : Option PolicyRef)
    → optional_policy_ref o ≡ ok x
    → optional_policy_ref (raw_policy_ref x) ≡ ok x
unfolding optional_policy_ref raw_policy_ref
optional_policy_ref-again none x h =
    subst (λ y. optional_policy_ref (raw_policy_ref y) ≡ ok y) (ok-injective h) refl
optional_policy_ref-again (some r) x h =
    let (y, ey, h1) = >>=-eq-ok (normalize_policy_ref r) _ h in
    subst (λ z. optional_policy_ref (raw_policy_ref z) ≡ ok z) (ok-injective h1)
      (rw (normalize-again r y ey))

pub check_private-again :
    (o : Operation) (v : Privacy) (payload : Json)
    → check_private v payload ≡ ok tt
    → ((v ≡ private) → (o ≡ tombstone) → ⊥)
    → check_private v (stored_payload o payload) ≡ ok tt
unfolding check_private stored_payload
check_private-again tombstone private payload h n = absurd (n refl refl)
check_private-again tombstone _ payload h n = refl
check_private-again _ _ payload h n = h
