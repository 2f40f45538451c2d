-- ===== src/Tests/Handoff.antt =====
-- Runs of the artifact specifications, hand-offs and verdicts of packages/contracts/src.
use wendkeep.Prelude.{◌≡◌, refl, true, false, none, some, [], ◌∷◌, inr, All}
use wendkeep.Prelude.Text.{text, text_eq, trim, is_space, to_upper}
use wendkeep.Prelude.Result.{ok}
use wendkeep.Contracts.Artifacts.{
  Files, ArtifactSpec, ArtifactOutcome, natural, filesystem, evaluate_artifact_specs,
}
use wendkeep.Contracts.Artifacts.Laws.{evaluate_artifact_specs_lem}
use wendkeep.Contracts.Artifacts.Satisfies.{Satisfies}
use wendkeep.Contracts.Handoff.{
  verified, HandoffBody, Handoff, structured, current, CurrentHashes, derive_handoff_contract,
  normalize_handoff_contract, evaluate_handoff_contract,
}
use wendkeep.Contracts.Handoff.Laws.{IsStale, normalize-derive_handoff, evaluate-derive_handoff}
use wendkeep.Contracts.Verdict.{Verdict, VerdictContext, granted, evaluate_verdict, is_covered}
use wendkeep.Prelude.Table.{lookup}
use wendkeep.Contracts.Verdict.Laws.{evaluate_verdict_lem}
use wendkeep.Tests.Platform.{toy, toy-IsDocumented}

-- A project with two files, and a matcher that takes every pattern for one that matches.
abbrev project : Files
project = record {
  is_absolute = λ path. false;
  stays_inside = λ path. true;
  is_file = λ path. true;
  scan = ok (text "a.js" ∷ text "b.js" ∷ []);
  matches = λ pattern path. true;
}

abbrev two_files : ArtifactSpec
two_files = record {
  name = text "sources";
  type = text "file-count";
  path = [];
  glob = text "*.js";
  from_filesystem = true;
  min = natural 2;
  max = natural 2;
}

abbrev counted : ArtifactOutcome
counted = record {
  name = text "sources";
  type = text "file-count";
  satisfied = true;
  count = 2;
  source = filesystem;
}

counts : evaluate_artifact_specs project [] (two_files ∷ []) ≡ ok (true, counted ∷ [])
unfolding evaluate_artifact_specs trim is_space text_eq
counts = refl

evaluate_artifact_specs_lem_example : All (Satisfies project []) (two_files ∷ [])
evaluate_artifact_specs_lem_example =
    (evaluate_artifact_specs_lem project [] (two_files ∷ []) true (counted ∷ []) counts).1.0 refl

abbrev body : HandoffBody
body = record {
  from = text "s1";
  to = text "s2";
  active_context_id = text "x";
  task_id = text "1";
  task_contract_id = text "k";
  artifacts = text " a " ∷ text "a" ∷ [];
  evidence = [];
  decisions = [];
  next_actions = [];
  blockers = [];
  tdd_attestation_ids = [];
  head_sha = text "h";
  tasks_sha256 = text "t";
  spec_sha256 = text "s";
  coverage = none;
  authority = verified;
}

derived : Handoff
unfolding derive_handoff_contract
derived = elim (derive_handoff_contract toy body) [
  | ok h ↦ h
  | _ ↦ record { handoff_id = []; body = body }
]

derives : derive_handoff_contract toy body ≡ ok derived
unfolding derived derive_handoff_contract
derives = refl

normalize-derive_handoff_example :
    normalize_handoff_contract (structured derived) ≡ ok (current derived)
normalize-derive_handoff_example =
    normalize-derive_handoff toy body derived toy-IsDocumented derives

abbrev moved : CurrentHashes
moved = record { head_sha = text "h2"; tasks_sha256 = text "t"; spec_sha256 = text "s" }

evaluate-derive_handoff_example :
    IsStale (evaluate_handoff_contract (current derived) moved) body moved
unfolding to_upper
evaluate-derive_handoff_example =
    (evaluate-derive_handoff toy body derived moved (text "assure") derives refl).1 (λ q. cc (q.0))

abbrev passed : Verdict
passed = record {
  passed = true;
  evidence_envelope_id = [];
  evidence_binding = some ((text "head", text "h") ∷ []);
  tasks_hash = text "t";
  effective_spec_hash = [];
  coverage = record { req = text "R1"; covered = true } ∷ [];
}

abbrev asked : VerdictContext
asked = record {
  tasks_hash = text "t";
  effective_spec_hash = text "s";
  evidence_envelope_id = [];
  evidence_binding = some ((text "head", text "h") ∷ []);
}

evaluate_verdict_lem_example : evaluate_verdict (some passed) (text "R1" ∷ []) asked ≡ granted
unfolding is_covered text_eq lookup
evaluate_verdict_lem_example =
    (evaluate_verdict_lem (some passed) (text "R1" ∷ []) asked).1 (
      inr
        (passed, refl, (refl, λ e. cc, (refl, tt), λ e. ((λ q r. refl), (λ q r. cc)), (refl, tt))))
