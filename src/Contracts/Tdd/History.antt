-- ===== src/Contracts/Tdd/History.antt =====
-- What an attestation vouches for, in whatever way it came about
-- (packages/contracts/src/tdd-attestation.mjs).
use wendkeep.Prelude.{Bool, ◌&&◌, Option, none, ◌≡◌, ◌≢◌, refl, some, inl, inr, sym, ◌∙◌, subst, ap}
use wendkeep.Prelude.Text.{Text}
use wendkeep.Prelude.Result.{ok, guard, >>=-eq-ok, ok-injective}
use wendkeep.Contracts.Strings.{filled}
use wendkeep.Contracts.Tdd.Paths.{waiver_authority_required}
use wendkeep.Platform.{Platform}
use wendkeep.Contracts.Tdd.Observe.{RepoSnapshot}
use wendkeep.Contracts.Tdd.Machine.{
  RedInput, WaiverInput, GreenInput, judged_red, classify_red, create_red_attestation,
  waive_tdd_attestation, complete_green_attestation, evaluate_tdd_attestation,
}
use wendkeep.Contracts.Tdd.Attestation.{
  InvalidReason, base_attestation, green_observed, Red, Green, Attestation, invalidate,
}
use wendkeep.Contracts.Tdd.Valid.{
  IsValid, Reached, last_green, create_red-IsValid, waive-IsValid, observed_red, granted_waiver,
  completed_green, evaluated,
}
use wendkeep.Contracts.Tdd.Laws.{complete_green-IsValid, evaluate_in-cases}
use wendkeep.Contracts.Tdd.Named.{AreProduction}
use wendkeep.Contracts.Tdd.Green.{complete_green_causal}

-- A failing red run is on record, and a green one after it that was the last of the runs; its paths
-- are exactly those that changed between the two and are no tests declared before or after it.
abbrev pub IsCausal : Option (Attestation × GreenInput) → Attestation → Type 0
IsCausal last a =
    (before : Attestation) × (i : GreenInput) × (red : Red) × (g : Green) × (last
      ≡ some (before, i))
    × (a.red ≡ some red)
    × (a.green ≡ some g)
    × (g.snapshot ≡ i.snapshot)
    × AreProduction red before.test_paths i a.test_paths g.production_paths

complete_green-IsCausal :
    (p : Platform) (sanitize : Text → Text) (a b : Attestation) (i : GreenInput)
    → complete_green_attestation p sanitize a i ≡ ok b
    → b.state ≡ green_observed
    → IsCausal (some (a, i)) b
complete_green-IsCausal p sanitize a b i h green =
    let (_, _, _, _, _, (red, g, _, kept, _, recorded, seen, _, paths), _) =
      complete_green_causal p sanitize a b i h green in
    (a, i, red, g, refl, kept, recorded, seen, paths)

-- An attestation that is still green was not changed.
evaluate_green-same :
    (a : Attestation) (now : RepoSnapshot) (survivors : Bool)
    → (evaluate_tdd_attestation a now survivors).state ≡ green_observed
    → evaluate_tdd_attestation a now survivors ≡ a
unfolding evaluate_tdd_attestation invalidate
evaluate_green-same a now survivors green = elim (evaluate_in-cases a.state a now survivors) [
  | inl same ↦ same
  | inr (_, (reason, e)) ↦ cc (green, e)
]

judged_red-not_green :
    (o : Option InvalidReason) (a : Attestation) → (judged_red o a).state ≢ green_observed
unfolding judged_red invalidate
judged_red-not_green none a e = cc
judged_red-not_green (some reason) a e = cc

create_red-not_green :
    (p : Platform) (sanitize : Text → Text) (i : RedInput) (a : Attestation)
    → create_red_attestation p sanitize i ≡ ok a
    → a.state ≢ green_observed
unfolding create_red_attestation
create_red-not_green p sanitize i a h =
    let (base, _, built) = >>=-eq-ok (base_attestation p i.identity i.test_paths) _ h in
    subst (λ (x : Attestation). x.state ≢ green_observed) (ok-injective built)
      (judged_red-not_green (classify_red i.result) _)

waive-not_green :
    (p : Platform) (sanitize : Text → Text) (i : WaiverInput) (a : Attestation)
    → waive_tdd_attestation p sanitize i ≡ ok a
    → a.state ≢ green_observed
unfolding waive_tdd_attestation
waive-not_green p sanitize i a h green =
    let named = filled (sanitize i.authority) && filled (sanitize i.reason) in
    let (_, _, h1) = >>=-eq-ok (guard named waiver_authority_required) _ h in
    let (base, _, built) = >>=-eq-ok (base_attestation p i.identity i.test_paths) _ h1 in
    cc (green, ap (λ (x : Attestation). x.state) (ok-injective built))

reached-IsCausal :
    (p : Platform) (sanitize : Text → Text) (a : Attestation) (r : Reached p sanitize a)
    → a.state ≡ green_observed
    → IsCausal (last_green r) a
unfolding last_green
reached-IsCausal p sanitize a (observed_red i h) green =
    absurd (create_red-not_green p sanitize i a h green)
reached-IsCausal p sanitize a (granted_waiver i h) green =
    absurd (waive-not_green p sanitize i a h green)
reached-IsCausal p sanitize a (completed_green i {a = b} r h) green =
    complete_green-IsCausal p sanitize b a i h green
reached-IsCausal p sanitize _ (evaluated now survivors {a = b} r) green =
    let same = evaluate_green-same b now survivors green in
    subst (IsCausal (last_green r)) (sym same)
      (reached-IsCausal p sanitize b r (sym (ap (λ (x : Attestation). x.state) same) ∙ green))

every_reached :
    (p : Platform) (sanitize : Text → Text) (a : Attestation) → Reached p sanitize a → IsValid a
unfolding invalidate evaluate_tdd_attestation
every_reached p sanitize a (observed_red i h) = create_red-IsValid p sanitize i a h
every_reached p sanitize a (granted_waiver i h) = waive-IsValid p sanitize i a h
every_reached p sanitize a (completed_green i {a = b} r h) =
    complete_green-IsValid p sanitize b a i (every_reached p sanitize b r) h
every_reached p sanitize _ (evaluated now survivors {a = b} r) =
    let valid = every_reached p sanitize b r in
    elim (evaluate_in-cases b.state b now survivors) [
      | inl same ↦ subst IsValid (sym same) valid
      | inr (_, (reason, e)) ↦ subst IsValid (sym e) tt
    ]

-- The invariant of attestations. However an attestation came about, by a red run or a waiver and
-- then by any number of green runs and evaluations, it has on record what its state says: if it is
-- red, a run that did not exit with 0; if it is waived, who waived it and why, in at most 200 and
-- 1,000 units and neither of them empty; if it is green, such a red run and a green one that exited
-- with 0, which is the last that it was completed with, and, at least one, exactly the paths that
-- changed between the two and are no declared test, before or after it, nor below one.
pub Reached-IsValid :
    (p : Platform) (sanitize : Text → Text) (a : Attestation) (r : Reached p sanitize a)
    → IsValid a × (a.state ≡ green_observed → IsCausal (last_green r) a)
Reached-IsValid p sanitize a r = (every_reached p sanitize a r, reached-IsCausal p sanitize a r)
