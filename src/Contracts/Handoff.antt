-- ===== src/Contracts/Handoff.antt =====
-- The hand-off contracts of packages/contracts/src/task-contracts.mjs: `deriveHandoffContract`,
-- `normalizeHandoffContract`, `evaluateHandoffContract` and `assertStructuredHandoffForProfile`.
pub mod Laws
use wendkeep.Prelude.{
  Bool, true, false, not, ◌&&◌, ◌||◌, Option, none, some, List, [], ◌∷◌, ◌++◌, if◌then◌else◌,
}
use wendkeep.Prelude.Text.{Text, text, text_eq, trim, to_upper}
use wendkeep.Prelude.Json.{Json, num, str, arr, obj, Items, nil, Fields, end, field}
use wendkeep.Prelude.Result.{Result, ok, err, ◌>>=◌, ◌>>◌, guard}
use wendkeep.Platform.{Platform}
use wendkeep.Contracts.Strings.{filled, unique_strings, canonical_json, texts_json}
use wendkeep.Contracts.Task.Data.{ContractError, handoff_invalid, handoff_structured_required}

pub data Authority : Type 0 where
  verified reported : Authority

-- What a host covered, with the findings and waivers about it, as parsed JSON.
pub record Coverage : Type 0 where
  pub host_coverage : Json
  pub findings : Items
  pub waivers : Items

-- A hand-off without its id.
pub record HandoffBody : Type 0 where
  pub from : Text
  pub to : Text
  pub active_context_id : Text
  pub task_id : Text
  pub task_contract_id : Text
  pub artifacts : List Text
  pub evidence : List Text
  pub decisions : List Text
  pub next_actions : List Text
  pub blockers : List Text
  pub tdd_attestation_ids : List Text
  pub head_sha : Text
  pub tasks_sha256 : Text
  pub spec_sha256 : Text
  pub coverage : Option Coverage
  pub authority : Authority

pub record Handoff : Type 0 where
  pub handoff_id : Text
  pub body : HandoffBody

unfoldable pub authority_text : Authority → Text
authority_text verified = text "verified"
authority_text reported = text "reported"

unfoldable pub coverage_fields : Option Coverage → Fields → Fields
coverage_fields none rest = rest
coverage_fields (some c) rest = field (text "host_coverage") c.host_coverage (
    field (text "coverage_findings") (arr c.findings)
      (field (text "coverage_waivers") (arr c.waivers) rest))

-- The object that the id of a hand-off is the hash of.
unfoldable pub handoff_json : HandoffBody → Json
unfolding authority_text coverage_fields texts_json
handoff_json h = obj (
    field (text "schema_version") (num (text "1")) (
      field (text "from") (str h.from) (
        field (text "to") (str h.to) (
          field (text "active_context_id") (str h.active_context_id) (
            field (text "task_id") (str h.task_id) (
              field (text "task_contract_id") (str h.task_contract_id) (
                field (text "artifacts") (arr (texts_json h.artifacts)) (
                  field (text "evidence") (arr (texts_json h.evidence)) (
                    field (text "decisions") (arr (texts_json h.decisions)) (
                      field (text "next_actions") (arr (texts_json h.next_actions)) (
                        field (text "blockers") (arr (texts_json h.blockers)) (
                          field (text "tdd_attestation_ids")
                            (arr (texts_json h.tdd_attestation_ids))
                            (field (text "head_sha") (str h.head_sha) (
                              field (text "tasks_sha256") (str h.tasks_sha256) (
                                field (text "spec_sha256") (str h.spec_sha256) (
                                  coverage_fields h.coverage (
                                    field (text "authority") (str (authority_text h.authority))
                                      end)))))))))))))))))

-- The lists of a hand-off, trimmed and without blanks and repetitions.
unfoldable pub clean_lists : HandoffBody → HandoffBody
unfolding unique_strings
clean_lists h = record h {
  artifacts = unique_strings h.artifacts;
  evidence = unique_strings h.evidence;
  decisions = unique_strings h.decisions;
  next_actions = unique_strings h.next_actions;
  blockers = unique_strings h.blockers;
  tdd_attestation_ids = unique_strings h.tdd_attestation_ids;
}

-- `deriveHandoffContract`; its input has the shape of the body.
unfoldable pub derive_handoff_contract : Platform → HandoffBody → Result ContractError Handoff
unfolding clean_lists handoff_json canonical_json
derive_handoff_contract p input = do
  let body = clean_lists input
  guard
      (filled body.from
        && filled body.to
        && filled body.active_context_id
        && filled body.head_sha
        && filled body.tasks_sha256
        && filled body.spec_sha256)
      handoff_invalid
  ok (record { handoff_id = p.sha256_hex (canonical_json (handoff_json body)); body = body })

-- A stored hand-off: nothing, a text, an object of another schema with its `summary`, or one of
-- schema 1. A missing text is empty, and a missing array too.
pub data StoredHandoff : Type 0 where
  nothing : StoredHandoff
  summary_text : Text → StoredHandoff
  unversioned : Text → StoredHandoff
  structured : Handoff → StoredHandoff

pub data Normalized : Type 0 where
  missing : Normalized
  legacy : Text → Normalized
  current : Handoff → Normalized

unfoldable pub legacy_summary : Text → Normalized
legacy_summary summary = if filled summary then legacy summary else missing

-- The check at the end of `normalizeHandoffContract`.
unfoldable pub is_complete_handoff : Handoff → Bool
is_complete_handoff h =
    filled h.handoff_id
    && filled h.body.active_context_id
    && filled h.body.head_sha
    && filled h.body.tasks_sha256
    && filled h.body.spec_sha256

unfoldable pub normalize_handoff_contract : StoredHandoff → Result ContractError Normalized
unfolding legacy_summary is_complete_handoff clean_lists
normalize_handoff_contract nothing = ok missing
normalize_handoff_contract (summary_text s) = ok (legacy_summary (trim s))
normalize_handoff_contract (unversioned s) = ok (legacy_summary (trim s))
normalize_handoff_contract (structured h) = do
  let normalized : Handoff = record h { body = clean_lists h.body }
  guard (is_complete_handoff normalized) handoff_invalid
  ok (current normalized)

pub data HandoffFinding : Type 0 where
  handoff_stale_head handoff_stale_tasks handoff_stale_spec : HandoffFinding

pub data HandoffState : Type 0 where
  legacy_reported : HandoffState
  handoff_verified : HandoffState
  handoff_stale : List HandoffFinding → HandoffState

-- The hashes that a hand-off is compared with.
pub record CurrentHashes : Type 0 where
  pub head_sha : Text
  pub tasks_sha256 : Text
  pub spec_sha256 : Text

unfoldable pub finding_if : Bool → HandoffFinding → List HandoffFinding
finding_if true code = code ∷ []
finding_if false code = []

unfoldable pub handoff_findings : HandoffBody → CurrentHashes → List HandoffFinding
unfolding finding_if
handoff_findings h now =
    finding_if (not (text_eq h.head_sha now.head_sha)) handoff_stale_head
    ++ finding_if (not (text_eq h.tasks_sha256 now.tasks_sha256)) handoff_stale_tasks
    ++ finding_if (not (text_eq h.spec_sha256 now.spec_sha256)) handoff_stale_spec

unfoldable pub state_of_findings : List HandoffFinding → HandoffState
state_of_findings [] = handoff_verified
state_of_findings (f ∷ fs) = handoff_stale (f ∷ fs)

unfoldable pub evaluate_handoff_contract : Normalized → CurrentHashes → HandoffState
unfolding handoff_findings state_of_findings
evaluate_handoff_contract (current h) now = state_of_findings (handoff_findings h.body now)
evaluate_handoff_contract _ now = legacy_reported

unfoldable pub is_verified : Authority → Bool
is_verified verified = true
is_verified reported = false

-- The profile ASSURE wants a verified hand-off; any other takes what there is.
unfoldable pub assert_structured_handoff : Text → Normalized → Result ContractError Normalized
unfolding is_verified
assert_structured_handoff profile (current h) =
    if text_eq (to_upper profile) (text "ASSURE") && not (is_verified h.body.authority)
    then err handoff_structured_required
    else ok (current h)
assert_structured_handoff profile other =
    if text_eq (to_upper profile) (text "ASSURE") then err handoff_structured_required else ok other
