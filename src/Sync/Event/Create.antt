-- ===== src/Sync/Event/Create.antt =====
-- `requiredText`, `validatePrivatePayload`, `normalizePolicyRef`, `createSyncEvent` and
-- `validateSyncEvent` of packages/sync/src/sync-protocol.mjs.
use wendkeep.Prelude.{
  ℕ, ◌+◌, ◌-◌, ◌^◌, Bool, true, false, not, ◌&&◌, ◌||◌, ltb, leb, ◌==◌, if◌then◌else◌, Option, none,
  some, List, [], ◌∷◌, ◌++◌, length, all, take, drop, sort,
}
use wendkeep.Prelude.Text.{
  Text, text, text_eq, text_leb, trim, contains, is_hex64, is_digit, dedupe,
}
use wendkeep.Prelude.Json.{Json, null, bool, num, str, arr, obj, Fields, end, field}
use wendkeep.Prelude.Result.{Result, ok, err, ◌>>=◌, ◌>>◌, guard}
use wendkeep.Platform.{Platform}
use wendkeep.Sync.Canonical.{sync_sha256}
use wendkeep.Sync.Event.Data.{
  SyncError, schema_invalid, private_plaintext, policy_ref_invalid, revision_invalid,
  operation_invalid, privacy_invalid, time_invalid, event_invalid, project_mismatch, Num, nat,
  Operation, tombstone, Privacy, private, RawPolicyRef, PolicyRef, EventInput, Draft, Event,
  draft_json,
}

-- /[\0\r\n]/.test(text)
unfoldable pub has_control : Text → Bool
has_control t = contains 0 t || contains 13 t || contains 10 t

-- The trimmed text, if it is neither empty nor too long and holds no NUL and no line break.
unfoldable pub required_text : ℕ → Text → Result SyncError Text
unfolding has_control
required_text maximum value =
    let t = trim value in
    if (length t == 0) || ltb maximum (length t) || has_control t then err schema_invalid else ok t

-- The property of an object, `null` where it is missing.
unfoldable pub get_field : Text → Fields → Json
get_field k end = null
get_field k (field j v fs) = if text_eq j k then v else get_field k fs

unfoldable pub truthy : Json → Bool
truthy null = false
truthy (bool b) = b
truthy (num n) = not (text_eq n (text "0"))
truthy (str s) = not (length s == 0)
truthy (arr xs) = true
truthy (obj fs) = true

unfoldable pub is_number : Text → Json → Bool
is_number n (num m) = text_eq m n
is_number n _ = false

unfoldable pub is_text : Text → Json → Bool
is_text t (str s) = text_eq s t
is_text t _ = false

-- `validatePrivatePayload`, as a test.
unfoldable pub is_envelope : Json → Bool
unfolding get_field truthy is_number is_text
is_envelope (obj fs) =
    is_number (text "1") (get_field (text "schema_version") fs)
    && is_text (text "AES-256-GCM") (get_field (text "algorithm") fs)
    && truthy (get_field (text "key_id") fs)
    && truthy (get_field (text "iv") fs)
    && truthy (get_field (text "ciphertext") fs)
    && truthy (get_field (text "auth_tag") fs)
is_envelope _ = false

unfoldable pub validate_private_payload : Json → Result SyncError (Unit {0})
validate_private_payload payload = guard (is_envelope payload) private_plaintext

-- /^sha256:[a-f0-9]{64}$/
unfoldable pub is_sha256 : Text → Bool
is_sha256 t = text_eq (take 7 t) (text "sha256:") && is_hex64 (drop 7 t)

unfoldable pub is_id_unit : ℕ → Bool
unfolding is_digit
is_id_unit c =
    (leb 65 c && leb c 90)
    || (leb 97 c && leb c 122)
    || is_digit c
    || (c == 46)
    || (c == 95)
    || (c == 58)
    || (c == 64)
    || (c == 47)
    || (c == 45)

-- /^[A-Za-z0-9._:@/-]{1,512}$/
unfoldable pub is_id : Text → Bool
unfolding is_id_unit
is_id t = leb 1 (length t) && leb (length t) 512 && all is_id_unit t

-- Number.MAX_SAFE_INTEGER
abbrev pub max_safe : ℕ
max_safe = 2 ^ 53 - 1

unfoldable pub join_commas : List Text → Text
join_commas [] = []
join_commas (t ∷ []) = t
join_commas (t ∷ u ∷ ts) = t ++ 44 ∷ join_commas (u ∷ ts)

-- Number(value.version), if it is a safe integer from 1.
unfoldable pub version_of : Num → Result SyncError ℕ
version_of (nat n) = if leb n max_safe && leb 1 n then ok n else err policy_ref_invalid
version_of _ = err policy_ref_invalid

unfoldable pub normalize_policy_ref : RawPolicyRef → Result SyncError PolicyRef
normalize_policy_ref r = do
  guard (text_eq (join_commas (sort text_leb r.keys)) (text "hash,policy_id,version"))
      policy_ref_invalid
  guard (is_sha256 r.hash) policy_ref_invalid
  version ← version_of r.version
  policy_id ← required_text 160 r.policy_id
  ok (record { policy_id = policy_id; version = version; hash = r.hash })

unfoldable pub optional_policy_ref : Option RawPolicyRef → Result SyncError (Option PolicyRef)
optional_policy_ref none = ok none
optional_policy_ref (some r) = do policy_ref ← normalize_policy_ref r; ok (some policy_ref)

-- Both numbers are safe integers, and `revision` is `base_revision` + 1.
unfoldable pub revision_pair : Num → Num → Result SyncError (ℕ × ℕ)
revision_pair (nat revision) (nat base) =
    if leb revision max_safe && leb 1 revision && leb base max_safe && (revision == base + 1)
    then ok (revision, base)
    else err revision_invalid
revision_pair _ _ = err revision_invalid

-- OPERATIONS.has(operation)
unfoldable pub is_operation : Operation → Bool
is_operation (Operation.other _) = false
is_operation _ = true

unfoldable pub is_privacy : Privacy → Bool
is_privacy (Privacy.other _) = false
is_privacy _ = true

unfoldable pub check_private : Privacy → Json → Result SyncError (Unit {0})
check_private private payload = validate_private_payload payload
check_private _ payload = ok tt

unfoldable pub required_texts : ℕ → List Text → Result SyncError (List Text)
required_texts maximum [] = ok []
required_texts maximum (t ∷ ts) = do
  first ← required_text maximum t
  rest ← required_texts maximum ts
  ok (first ∷ rest)

unfoldable pub read_time : Platform → Text → Result SyncError ℕ
read_time p s = elim (p.parse_date s) [ none ↦ err time_invalid | some t ↦ ok t ]

-- The payload that an event stores: a tombstone has none.
unfoldable pub stored_payload : Operation → Json → Json
stored_payload tombstone payload = null
stored_payload _ payload = payload

unfoldable pub create_sync_event : Platform → EventInput → Result SyncError Event
create_sync_event p a = do
  project_id ← required_text 160 a.project_id
  record_key ← required_text 2048 a.record_key
  actor_id ← required_text 160 a.actor_id
  device_id ← required_text 160 a.device_id
  revisions ← revision_pair a.revision a.base_revision
  guard (is_operation a.operation) operation_invalid
  guard (is_privacy a.privacy) privacy_invalid
  check_private a.privacy a.payload
  timestamp ← read_time p a.observed_at
  parents ← required_texts 128 a.causal_parent_ids
  policy_ref ← optional_policy_ref a.policy_ref
  let payload = stored_payload a.operation a.payload
  let draft : Draft = record {
    schema_version = 1;
    project_id = project_id;
    record_key = record_key;
    revision = revisions.0;
    base_revision = revisions.1;
    content_hash = sync_sha256 p payload;
    causal_parent_ids = sort text_leb (dedupe parents);
    actor_id = actor_id;
    device_id = device_id;
    lease_id = a.lease_id;
    observed_at = p.to_iso timestamp;
    operation = a.operation;
    privacy = a.privacy;
    policy_ref = policy_ref;
    payload = payload;
  }
  ok (record { draft = draft; event_id = drop 7 (sync_sha256 p (draft_json draft)) })

-- A stored policy reference as the object that is checked again.
unfoldable pub raw_policy_ref : Option PolicyRef → Option RawPolicyRef
raw_policy_ref none = none
raw_policy_ref (some r) = some (record {
  keys = text "policy_id" ∷ text "version" ∷ text "hash" ∷ [];
  policy_id = r.policy_id;
  version = nat r.version;
  hash = r.hash;
})

-- The arguments with which `validateSyncEvent` creates an event again.
unfoldable pub input_of : Event → EventInput
input_of e = record {
  project_id = e.project_id;
  record_key = e.record_key;
  revision = nat e.revision;
  base_revision = nat e.base_revision;
  payload = e.payload;
  causal_parent_ids = e.causal_parent_ids;
  actor_id = e.actor_id;
  device_id = e.device_id;
  lease_id = e.lease_id;
  observed_at = e.observed_at;
  operation = e.operation;
  privacy = e.privacy;
  policy_ref = raw_policy_ref e.policy_ref;
}

-- The integrity test: the schema, the form of the ids, and the id as the hash of the rest.
unfoldable pub has_integrity : Platform → Event → Bool
has_integrity p e =
    (e.schema_version == 1)
    && is_id e.event_id
    && is_sha256 e.content_hash
    && text_eq e.event_id (drop 7 (sync_sha256 p (draft_json e.draft)))

-- `validateSyncEvent`; an empty `project_id` asks for no project.
unfoldable pub validate_sync_event : Platform → Event → Text → Result SyncError Event
validate_sync_event p e project_id = do
  guard (has_integrity p e) event_invalid
  guard ((length project_id == 0) || text_eq e.project_id project_id) project_mismatch
  _ ← create_sync_event p (input_of e)
  ok e
