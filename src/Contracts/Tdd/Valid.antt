-- ===== src/Contracts/Tdd/Valid.antt =====
-- The invariant of an attestation, and the transitions that make or end one
-- (packages/contracts/src/tdd-attestation.mjs).
use wendkeep.Prelude.{
  ℕ, zero, suc, ◌≤◌, ◌≡◌, ◌≢◌, ◌↔◌, refl, Bool, true, false, ◌&&◌, Option, none, some, List, [],
  ◌∷◌, arith, subst, length, take, ◌==◌,
}
use wendkeep.Prelude.Text.{Text}
use wendkeep.Prelude.Result.{ok, guard, >>=-eq-ok, guard-ok, ok-injective}
use wendkeep.Platform.{Platform}
use wendkeep.Contracts.Strings.{filled}
use wendkeep.Contracts.Tdd.Paths.{waiver_authority_required}
use wendkeep.Contracts.Tdd.Observe.{RunResult, command_observation, RepoSnapshot, succeeded}
use wendkeep.Contracts.Tdd.Machine.{
  RedInput, GreenInput, WaiverInput, classify_red, create_red_attestation, judged_red, settle_green,
  complete_green_attestation, evaluate_tdd_attestation, waive_tdd_attestation,
}
use wendkeep.Contracts.Tdd.Attestation.{
  TddState, invalid, red_observed, green_observed, waived, InvalidReason, Red, Green, Waiver,
  Attestation, base_attestation, invalidate,
}

-- A failing run is on record.
abbrev pub HasRed : Attestation → Type 0
HasRed a = (r : Red) × (a.red ≡ some r) × (r.execution.exit_code ≢ some 0)

-- A passing run is on record, after changes outside the tests.
abbrev HasGreen : Attestation → Type 0
HasGreen a =
    (g : Green) × (a.green ≡ some g) × (g.execution.exit_code ≡ some 0) × (g.production_paths ≢ [])

-- A waiver is on record that names who granted it, and why.
abbrev HasWaiver : Attestation → Type 0
HasWaiver a =
    (w : Waiver) × (a.waiver ≡ some w)
    × (w.authority ≢ [])
    × (length w.authority ≤ 200)
    × (w.reason ≢ [])
    × (length w.reason ≤ 1000)

abbrev pub ValidIn : TddState → Attestation → Type 0
ValidIn invalid a = Unit
ValidIn red_observed a = HasRed a
ValidIn green_observed a = HasRed a × HasGreen a
ValidIn waived a = HasWaiver a

-- An attestation has on record what its state says.
abbrev pub IsValid : Attestation → Type 0
IsValid a = ValidIn a.state a

-- The attestations that the functions of the module can make, one after another.
pub data Reached (p : Platform) (sanitize : Text → Text) : Attestation → Type 0 where
  observed_red :
      (i : RedInput) {a : Attestation}
      → create_red_attestation p sanitize i ≡ ok a
      → Reached p sanitize a
  granted_waiver :
      (i : WaiverInput) {a : Attestation}
      → waive_tdd_attestation p sanitize i ≡ ok a
      → Reached p sanitize a
  completed_green :
      (i : GreenInput) {a b : Attestation}
      → Reached p sanitize a
      → complete_green_attestation p sanitize a i ≡ ok b
      → Reached p sanitize b
  evaluated :
      (now : RepoSnapshot) (survivors : Bool) {a : Attestation}
      → Reached p sanitize a
      → Reached p sanitize (evaluate_tdd_attestation a now survivors)

-- The last green run that an attestation was completed with, and the attestation before it.
unfoldable pub last_green :
    {p : Platform} {sanitize : Text → Text} {a : Attestation}
    → Reached p sanitize a
    → Option (Attestation × GreenInput)
last_green (observed_red i h) = none
last_green (granted_waiver i h) = none
last_green (completed_green i {a = before} r h) = some (before, i)
last_green (evaluated now survivors r) = last_green r

pub succeeded_iff : (r : RunResult) → (succeeded r ≡ true) ↔ (r.status ≡ some 0)
unfolding succeeded
succeeded_iff r = status_iff r.status
  where
    status_iff :
        (o : Option ℕ) → ((elim o [ none ↦ false | some code ↦ code == 0 ]) ≡ true) ↔ (o ≡ some 0)
    status_iff none = (λ e. cc, λ e. cc)
    status_iff (some code) = ground (arith)

judged_red-IsValid :
    (o : Option InvalidReason) (a : Attestation) → (o ≡ none → HasRed a) → IsValid (judged_red o a)
unfolding judged_red invalidate
judged_red-IsValid none a red = red refl
judged_red-IsValid (some reason) a red = tt

classify_red-none : (r : RunResult) → classify_red r ≡ none → r.status ≢ some 0
unfolding classify_red
classify_red-none r h e = cc ((succeeded_iff r).1 e, h)

pub create_red-IsValid :
    (p : Platform) (sanitize : Text → Text) (i : RedInput) (a : Attestation)
    → create_red_attestation p sanitize i ≡ ok a
    → IsValid a
unfolding create_red_attestation command_observation
create_red-IsValid p sanitize i a h =
    let (base, ebase, built) = >>=-eq-ok (base_attestation p i.identity i.test_paths) _ h in
    subst IsValid (ok-injective built)
      (judged_red-IsValid (classify_red i.result) _ (λ e. (_, refl, classify_red-none i.result e)))

pub length-take_le {ℓ} : {A : Type ℓ} (n : ℕ) (xs : List A) → length (take n xs) ≤ n
length-take_le zero xs = omega arith
length-take_le (suc n) [] = omega arith
length-take_le (suc n) (x ∷ xs) = omega (arith, length-take_le n xs)

take-filled : (n : ℕ) (t : Text) → filled t ≡ true → take (suc n) t ≢ []
take-filled n [] h e = cc
take-filled n (c ∷ t) h e = cc

pub waive-IsValid :
    (p : Platform) (sanitize : Text → Text) (i : WaiverInput) (a : Attestation)
    → waive_tdd_attestation p sanitize i ≡ ok a
    → IsValid a
unfolding waive_tdd_attestation
waive-IsValid p sanitize i a h =
    let named = filled (sanitize i.authority) && filled (sanitize i.reason) in
    let (_, checked, h1) = >>=-eq-ok (guard named waiver_authority_required) _ h in
    let (base, ebase, built) = >>=-eq-ok (base_attestation p i.identity i.test_paths) _ h1 in
    let both : (filled (sanitize i.authority) ≡ true) × (filled (sanitize i.reason) ≡ true) =
      ground (arith, guard-ok named waiver_authority_required checked) in
    subst IsValid (ok-injective built) (
      _,
      refl,
      take-filled 199 (sanitize i.authority) both.0,
      length-take_le 200 (sanitize i.authority),
      take-filled 999 (sanitize i.reason) both.1,
      length-take_le 1000 (sanitize i.reason),
    )

pub settle_green-IsValid :
    (p : Platform) (sanitize : Text → Text) (a : Attestation) (i : GreenInput)
    (next paths : List Text)
    → HasRed a
    → i.result.status ≡ some 0
    → IsValid (settle_green p sanitize a i next paths)
unfolding settle_green invalidate command_observation
settle_green-IsValid p sanitize a i next [] red passed = tt
settle_green-IsValid p sanitize a i next (path ∷ paths) red passed =
    (red, (_, refl, passed, λ e. cc))
