-- ===== src/Harness/Lease.antt =====
-- The leases of a temporary profile of packages/harness/src/operating-profile.mjs.
pub mod Laws
pub mod Creation
use wendkeep.Prelude.{
  ℕ, Bool, true, false, not, ◌&&◌, ◌||◌, leb, ltb, ◌==◌, Option, none, some, List, [], ◌∷◌,
  if◌then◌else◌, length,
}
use wendkeep.Prelude.Text.{Text, text, text_eq, includes, trim, to_upper}
use wendkeep.Prelude.Result.{Result, ok, err, ◌>>=◌, ◌>>◌, guard}
use wendkeep.Platform.{Platform}
use wendkeep.Contracts.Strings.{filled}
use wendkeep.Sync.Event.Create.{max_safe}
use wendkeep.Harness.Profile.{ProfileError, task_profile_invalid, reason_invalid, context_invalid}

abbrev pub adaptive_operating_profiles : List Text
adaptive_operating_profiles = text "FLOW" ∷ text "GUIDE" ∷ text "GOVERN" ∷ text "ASSURE" ∷ []

-- What a lease is created from. A value that is no text is an empty one, and `turn_sequence` is
-- Number(value) if that is a natural number.
pub record ProfileLeaseInput : Type 0 where
  pub profile : Text
  pub reason : Text
  pub session_id : Text
  pub turn_id : Text
  pub turn_sequence : Option ℕ
  pub lease_id : Text
  pub issued_at : Text

-- A lease, as it is stored.
pub record ProfileLease : Type 0 where
  pub lease_id : Text
  pub state : Text
  pub profile : Text
  pub requested_by : Text
  pub reason : Text
  pub session_id : Text
  pub request_turn_id : Text
  pub request_turn_sequence : Option ℕ
  pub issued_at : Text
  pub expires_on : Text

unfoldable pub task_profile : Text → Result ProfileError Text
task_profile value =
    let profile = to_upper (trim value) in
    if includes adaptive_operating_profiles profile then ok profile else err task_profile_invalid

unfoldable pub task_reason : Text → Result ProfileError Text
task_reason value =
    let reason = trim value in
    if filled reason && leb (length reason) 500 then ok reason else err reason_invalid

unfoldable pub task_sequence : Option ℕ → Option ℕ
task_sequence none = none
task_sequence (some n) = if leb n max_safe && ltb 0 n then some n else none

-- The checks of the identity and the time, on trimmed texts.
unfoldable pub has_context : Platform → Text → Text → Option ℕ → Text → Text → Bool
has_context p session turn_id sequence id issued =
    filled session
    && filled turn_id
    && elim sequence [ none ↦ false | some n ↦ true ]
    && filled id
    && filled issued
    && elim (p.parse_date issued) [ none ↦ false | some t ↦ true ]

unfoldable pub create_profile_lease :
    Platform → ProfileLeaseInput → Result ProfileError ProfileLease
unfolding task_profile task_reason task_sequence has_context
create_profile_lease p i = do
  selected ← task_profile i.profile
  audited_reason ← task_reason i.reason
  let session = trim i.session_id
  let turn_id = trim i.turn_id
  let sequence = task_sequence i.turn_sequence
  let id = trim i.lease_id
  let issued = trim i.issued_at
  guard (has_context p session turn_id sequence id issued) context_invalid
  ok (record {
    lease_id = id;
    state = text "active";
    profile = selected;
    requested_by = text "llm-harness";
    reason = audited_reason;
    session_id = session;
    request_turn_id = turn_id;
    request_turn_sequence = sequence;
    issued_at = issued;
    expires_on = text "request-stop";
  })

-- The arguments with which an evaluation creates the lease again.
unfoldable pub recreation : ProfileLease → ProfileLeaseInput
recreation l = record {
  profile = l.profile;
  reason = l.reason;
  session_id = l.session_id;
  turn_id = l.request_turn_id;
  turn_sequence = l.request_turn_sequence;
  lease_id = l.lease_id;
  issued_at = l.issued_at;
}

-- The prompt at which a lease is evaluated.
pub record TurnContext : Type 0 where
  pub session_id : Text
  pub turn_id : Text
  pub turn_sequence : Option ℕ

-- An absent lease; an invalid one, with its id if it has one; or one with its state.
pub data LeaseEvaluation : Type 0 where
  is_absent : LeaseEvaluation
  is_invalid : Text → LeaseEvaluation
  is_lease : ProfileLease → LeaseEvaluation

abbrev pub in_state : ProfileLease → Text → LeaseEvaluation
in_state l state = is_lease (record l { state = state })

unfoldable pub same_sequence : Option ℕ → ℕ → Bool
same_sequence none n = false
same_sequence (some m) n = m == n

-- The end of the evaluation, for a lease that is active and the prompt's number in its turn.
unfoldable pub evaluate_active : ProfileLease → TurnContext → LeaseEvaluation
unfolding task_sequence same_sequence
evaluate_active normalized c = elim (task_sequence c.turn_sequence) [
  | none ↦ in_state normalized (text "invalid")
  | some current ↦
      if not (filled (trim c.session_id)) || not (filled (trim c.turn_id))
      then in_state normalized (text "invalid")
      else if not (text_eq normalized.session_id (trim c.session_id))
      then in_state normalized (text "invalid")
      else if not (text_eq normalized.request_turn_id (trim c.turn_id))
          || not (same_sequence normalized.request_turn_sequence current)
      then in_state normalized (text "expired")
      else is_lease normalized
]

-- The evaluation of a lease whose fields were accepted.
unfoldable pub evaluate_normalized : ProfileLease → ProfileLease → TurnContext → LeaseEvaluation
unfolding evaluate_active
evaluate_normalized lease normalized c =
    if not (text_eq lease.requested_by (text "llm-harness"))
      || not (text_eq lease.expires_on (text "request-stop"))
    then is_invalid normalized.lease_id
    else if text_eq lease.state (text "consumed") || text_eq lease.state (text "expired")
    then in_state normalized lease.state
    else if not (text_eq lease.state (text "active"))
    then is_invalid normalized.lease_id
    else evaluate_active normalized c

-- What is stored in the place of a lease.
pub data StoredLease : Type 0 where
  no_lease : StoredLease
  no_object : StoredLease
  stored : ProfileLease → StoredLease

-- `evaluateTaskOperatingProfileLease`
unfoldable pub evaluate_profile_lease : Platform → StoredLease → TurnContext → LeaseEvaluation
unfolding evaluate_normalized create_profile_lease recreation
evaluate_profile_lease p no_lease c = is_absent
evaluate_profile_lease p no_object c = is_invalid []
evaluate_profile_lease p (stored lease) c = elim (create_profile_lease p (recreation lease)) [
  | err e ↦ is_invalid lease.lease_id
  | ok normalized ↦ evaluate_normalized lease normalized c
]
