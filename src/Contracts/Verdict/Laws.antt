-- ===== src/Contracts/Verdict/Laws.antt =====
-- What a granted verdict vouches for (packages/contracts/src/verdict.mjs).
use wendkeep.Prelude.{
  ◌≡◌, ◌≢◌, ◌↔◌, ◌⊎◌, refl, Bool, true, false, not, ◌&&◌, Option, none, some, List, [], ◌∷◌, arith,
  inl, inr, All, keep, if◌then◌else◌, sym, subst, some-injective,
}
use wendkeep.Prelude.Text.{Text, text_eq, text_eq_iff}
use wendkeep.Prelude.Table.{Table, lookup}
use wendkeep.Contracts.Strings.{filled}
use wendkeep.Contracts.Evaluate.{is_empty}
use wendkeep.Contracts.Verdict.{
  Verdict, VerdictContext, VerdictResult, CoverageItem, granted, not_passed, binding_differs,
  hash_differs, is_covered, coverage_result, judge, evaluate_verdict,
}

-- Every key of the wanted binding has the same value in the verdict's.
abbrev pub Binds : Option (Table Text) → Option (Table Text) → Type 0
Binds none given = Unit
Binds (some wanted) none = ⊥
Binds (some wanted) (some given) =
    All (λ (entry : Text × Text). lookup entry.0 given ≡ some entry.1) wanted

-- Hashes that are both given are the same.
abbrev pub Agree : Text → Text → Type 0
Agree wanted given = filled wanted ≡ true → filled given ≡ true → given ≡ wanted

-- What the verdict has to say for it to be granted.
abbrev pub Vouches : Verdict → List Text → VerdictContext → Type 0
Vouches v ids c =
    (v.passed ≡ true)
    × (filled c.evidence_envelope_id ≡ true → v.evidence_envelope_id ≡ c.evidence_envelope_id)
    × Binds c.evidence_binding v.evidence_binding
    × ((ids ≢ [])
        → Agree c.tasks_hash v.tasks_hash × Agree c.effective_spec_hash v.effective_spec_hash)
    × All (λ id. is_covered v.coverage id ≡ true) ids

entry_iff :
    (o : Option Text) (t : Text)
    → ((elim o [ none ↦ true | some value ↦ not (text_eq value t) ]) ≡ false) ↔ (o ≡ some t)
entry_iff none t = (λ e. cc, λ e. cc)
entry_iff (some u) t = ground (arith, text_eq_iff u t)

wanted_iff :
    (given wanted : Table Text)
    → (binding_differs (some wanted) (some given) ≡ false)
      ↔ All (λ (entry : Text × Text). lookup entry.0 given ≡ some entry.1) wanted
unfolding binding_differs
wanted_iff given [] = (λ e. tt, λ h. refl)
wanted_iff given (entry ∷ wanted) =
    ground (arith, entry_iff (lookup entry.0 given) entry.1, wanted_iff given wanted)

Binds-iff :
    (wanted given : Option (Table Text))
    → (binding_differs wanted given ≡ false) ↔ Binds wanted given
unfolding binding_differs
Binds-iff none given = (λ e. tt, λ h. refl)
Binds-iff (some wanted) none = (λ e. cc, λ h. absurd h)
Binds-iff (some wanted) (some given) = wanted_iff given wanted

Agree-iff : (wanted given : Text) → (hash_differs wanted given ≡ false) ↔ Agree wanted given
unfolding hash_differs
Agree-iff wanted given = ground (arith, text_eq_iff given wanted)

covered_iff :
    (items : List CoverageItem) (ids : List Text)
    → (coverage_result (keep (λ id. not (is_covered items id)) ids) ≡ granted)
      ↔ All (λ id. is_covered items id ≡ true) ids
unfolding coverage_result
covered_iff items [] = (λ e. tt, λ h. refl)
covered_iff items (id ∷ ids) = ground (arith, covered_iff items ids)

judge_iff :
    (v : Verdict) (ids : List Text) (c : VerdictContext)
    → (judge v ids c ≡ granted) ↔ Vouches v ids c
unfolding judge is_empty coverage_result
judge_iff v [] c = ground (
  arith,
  text_eq_iff v.evidence_envelope_id c.evidence_envelope_id,
  Binds-iff c.evidence_binding v.evidence_binding,
)
judge_iff v (id ∷ ids) c = ground (
  arith,
  text_eq_iff v.evidence_envelope_id c.evidence_envelope_id,
  Binds-iff c.evidence_binding v.evidence_binding,
  Agree-iff c.tasks_hash v.tasks_hash,
  Agree-iff c.effective_spec_hash v.effective_spec_hash,
  covered_iff v.coverage (id ∷ ids),
)

judged_iff :
    (verdict : Option Verdict) (ids : List Text) (c : VerdictContext)
    → ((elim verdict [ none ↦ not_passed | some v ↦ judge v ids c ]) ≡ granted)
      ↔ ((v : Verdict) × (verdict ≡ some v) × Vouches v ids c)
judged_iff none ids c = (λ q. cc, λ (v, same, _). cc)
judged_iff (some v) ids c = (
  λ q. (v, refl, (judge_iff v ids c).0 q),
  λ (w, same, vouches).
      (judge_iff v ids c).1 (subst (λ u. Vouches u ids c) (sym (some-injective same)) vouches),
)

nothing_asked_iff :
    (ids : List Text) (envelope : Text)
    → ((is_empty ids && not (filled envelope)) ≡ true) ↔ ((ids ≡ []) × (filled envelope ≡ false))
unfolding is_empty
nothing_asked_iff [] envelope = ground arith
nothing_asked_iff (id ∷ ids) envelope = (λ q. cc, λ h. cc (h.0))

if_granted_iff {κ ι} :
    {P : Type κ} {Q : Type ι} (b : Bool) (r : VerdictResult)
    → (b ≡ true) ↔ P
    → (r ≡ granted) ↔ Q
    → ((if b then granted else r) ≡ granted) ↔ (P ⊎ Q)
if_granted_iff true r h k = (λ q. inl (h.0 refl), λ q. refl)
if_granted_iff false r h k = (λ q. inr (k.0 q), λ q. elim q [ inl p ↦ cc (h.1 p) | inr v ↦ k.1 v ])

-- When a verdict is granted: exactly if nothing is asked for, neither a requirement nor an evidence
-- envelope, or there is a verdict that passed, is for the envelope that is asked for, has the wanted
-- value under each key of the wanted binding, covers every requirement, and, if there are
-- requirements, was given for the current hashes of the tasks and of the specification, where both
-- sides name one.
pub evaluate_verdict_lem :
    (verdict : Option Verdict) (ids : List Text) (c : VerdictContext)
    → (evaluate_verdict verdict ids c ≡ granted) ↔ (
        ((ids ≡ []) × (filled c.evidence_envelope_id ≡ false))
        ⊎ ((v : Verdict) × (verdict ≡ some v) × Vouches v ids c))
unfolding evaluate_verdict
evaluate_verdict_lem verdict ids c =
    if_granted_iff (is_empty ids && not (filled c.evidence_envelope_id)) _
      (nothing_asked_iff ids c.evidence_envelope_id) (judged_iff verdict ids c)
