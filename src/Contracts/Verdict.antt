-- ===== src/Contracts/Verdict.antt =====
-- `evaluateVerdict` of packages/contracts/src/verdict.mjs.
pub mod Laws
use wendkeep.Prelude.{
  Bool, true, false, not, ◌&&◌, ◌||◌, Option, none, some, List, [], ◌∷◌, if◌then◌else◌, any, keep,
}
use wendkeep.Prelude.Text.{Text, text_eq}
use wendkeep.Prelude.Table.{Table, lookup}
use wendkeep.Contracts.Strings.{filled}
use wendkeep.Contracts.Evaluate.{is_empty}

pub record CoverageItem : Type 0 where
  pub req : Text
  pub covered : Bool

-- A missing text is empty, a missing list too.
pub record Verdict : Type 0 where
  pub passed : Bool
  pub evidence_envelope_id : Text
  pub evidence_binding : Option (Table Text)
  pub tasks_hash : Text
  pub effective_spec_hash : Text
  pub coverage : List CoverageItem

pub record VerdictContext : Type 0 where
  pub tasks_hash : Text
  pub effective_spec_hash : Text
  pub evidence_envelope_id : Text
  pub evidence_binding : Option (Table Text)

pub data VerdictResult : Type 0 where
  granted : VerdictResult
  not_passed : VerdictResult
  verdict_stale : VerdictResult
  uncovered : List Text → VerdictResult

-- Does the bound table differ from the verdict's in the value of one of its keys?
unfoldable pub binding_differs : Option (Table Text) → Option (Table Text) → Bool
binding_differs none given = false
binding_differs (some wanted) none = true
binding_differs (some wanted) (some given) =
    any
      (λ (entry : Text × Text). elim (lookup entry.0 given) [
        | none ↦ true
        | some value ↦ not (text_eq value entry.1)
      ])
      wanted

-- Two hashes are compared only where both are given.
unfoldable pub hash_differs : Text → Text → Bool
hash_differs wanted given = filled wanted && filled given && not (text_eq given wanted)

unfoldable pub is_covered : List CoverageItem → Text → Bool
is_covered items id = any (λ (i : CoverageItem). i.covered && text_eq i.req id) items

-- What is missing of the requirements.
unfoldable pub coverage_result : List Text → VerdictResult
coverage_result [] = granted
coverage_result (id ∷ ids) = uncovered (id ∷ ids)

unfoldable pub judge : Verdict → List Text → VerdictContext → VerdictResult
unfolding binding_differs hash_differs is_covered coverage_result is_empty
judge v ids c =
    if not v.passed
    then not_passed
    else if filled c.evidence_envelope_id
        && not (text_eq v.evidence_envelope_id c.evidence_envelope_id)
    then verdict_stale
    else if binding_differs c.evidence_binding v.evidence_binding
    then verdict_stale
    else if is_empty ids
    then granted
    else if hash_differs c.tasks_hash v.tasks_hash
    then verdict_stale
    else if hash_differs c.effective_spec_hash v.effective_spec_hash
    then verdict_stale
    else coverage_result (keep (λ id. not (is_covered v.coverage id)) ids)

unfoldable pub evaluate_verdict : Option Verdict → List Text → VerdictContext → VerdictResult
unfolding judge is_empty
evaluate_verdict verdict ids c =
    if is_empty ids && not (filled c.evidence_envelope_id)
    then granted
    else elim verdict [ none ↦ not_passed | some v ↦ judge v ids c ]
