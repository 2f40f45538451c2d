-- ===== src/Contracts/Artifacts/Laws.antt =====
-- What it takes to satisfy an artifact specification (packages/contracts/src/task-contracts.mjs).
use wendkeep.Prelude.{
  ◌≡◌, ◌↔◌, ◌⊎◌, refl, Bool, true, false, ◌&&◌, List, [], ◌∷◌, arith, all, inl, inr, Bool-cases,
  subst, All, Pairwise,
}
use wendkeep.Prelude.Text.{Text, text, text_eq, text_eq_iff, text_eq_ne, includes, trim}
use wendkeep.Prelude.Result.{ok, guard, >>=-eq-ok, guard-ok, ok-injective}
use wendkeep.Contracts.Strings.{filled}
use wendkeep.Contracts.Artifacts.{
  Files, spec_invalid, ArtifactSpec, ArtifactOutcome, is_spec_type, evaluate_on_disk, evaluate_spec,
  evaluate_specs, evaluate_artifact_specs,
}
use wendkeep.Contracts.Artifacts.Satisfies.{
  path-OnDisk, counted-OnDisk, OnDisk, Satisfies, apart, path_ne_glob, path_ne_count, name_ne_path,
  name_ne_glob, name_ne_count,
}

-- The types that `is_spec_type` admits.
is_spec_type-cases :
    (type : Text)
    → is_spec_type type ≡ true
    → (type ≡ text "name")
      ⊎ (type ≡ text "path")
      ⊎ (type ≡ text "glob")
      ⊎ (type ≡ text "file-count")
unfolding is_spec_type
is_spec_type-cases type h = ground (
  arith,
  h,
  text_eq_iff (text "name") type,
  text_eq_iff (text "path") type,
  text_eq_iff (text "glob") type,
  text_eq_iff (text "file-count") type,
)

not_name-OnDisk :
    (fs : Files) (spec : ArtifactSpec)
    → OnDisk fs spec
    → text_eq (trim spec.type) (text "name") ≡ false
not_name-OnDisk fs spec (inl (is, _)) = text_eq_ne _ _ (λ e. apart _ _ _ name_ne_path e is)
not_name-OnDisk fs spec (inr (_, _, inl (is, _))) =
    text_eq_ne _ _ (λ e. apart _ _ _ name_ne_glob e is)
not_name-OnDisk fs spec (inr (_, _, inr (is, _))) =
    text_eq_ne _ _ (λ e. apart _ _ _ name_ne_count e is)

evaluate_on_disk_iff :
    (fs : Files) (spec : ArtifactSpec) (r : ArtifactOutcome)
    → is_spec_type (trim spec.type) ≡ true
    → text_eq (trim spec.type) (text "name") ≡ false
    → evaluate_on_disk fs (trim spec.name) (trim spec.type) spec ≡ ok r
    → (r.satisfied ≡ true) ↔ OnDisk fs spec
evaluate_on_disk_iff fs spec r known no_name h = elim (is_spec_type-cases (trim spec.type) known) [
  | inl name ↦ cc ((text_eq_iff _ _).1 name, no_name)
  | inr (inl path) ↦ path-OnDisk fs spec r ((text_eq_iff _ _).1 path) h
  | inr (inr counted) ↦
      let no_path : text_eq (trim spec.type) (text "path") ≡ false = text_eq_ne _ _ (λ e.
        elim counted [
          | inl glob ↦ apart _ _ _ path_ne_glob e glob
          | inr files ↦ apart _ _ _ path_ne_count e files
        ]) in
      counted-OnDisk fs spec r no_path counted h
]

evaluate_spec_iff :
    (fs : Files) (names : List Text) (spec : ArtifactSpec) (r : ArtifactOutcome)
    → evaluate_spec fs names spec ≡ ok r
    → (r.satisfied ≡ true) ↔ Satisfies fs names spec
unfolding evaluate_spec
evaluate_spec_iff fs names spec r h =
    let known = filled (trim spec.name) && is_spec_type (trim spec.type) in
    let (_, checked, h1) = >>=-eq-ok (guard known spec_invalid) _ h in
    let admitted : is_spec_type (trim spec.type) ≡ true =
      ground (arith, guard-ok known spec_invalid checked) in
    elim (Bool-cases (includes names (trim spec.name))) [
      | inl e ↦ (λ q. inl e, λ q. cc (rw e at h1))
      | inr e ↦ elim (Bool-cases (text_eq (trim spec.type) (text "name"))) [
        | inl n ↦ (
          λ q. cc (rw (e, n) at h1, q),
          λ q. elim q [
            | inl there_is ↦ cc (there_is, e)
            | inr (_, disk) ↦ cc (not_name-OnDisk fs spec disk, n)
          ],
        )
        | inr n ↦ elim (Bool-cases spec.from_filesystem) [
          | inl f ↦
              let (to, from) = evaluate_on_disk_iff fs spec r admitted n (rw (e, n, f) at h1) in
              (
                λ q. inr (f, to q),
                λ q. elim q [ inl there_is ↦ cc (there_is, e) | inr (_, disk) ↦ from disk ],
              )
          | inr f ↦ (
            λ q. cc (rw (e, n, f) at h1, q),
            λ q. elim q [ inl there_is ↦ cc (there_is, e) | inr (allowed, _) ↦ cc (allowed, f) ],
          )
        ]
      ]
    ]

-- Each outcome of the list belongs to its specification.
abbrev pub Outcomes : Files → List Text → List ArtifactSpec → List ArtifactOutcome → Type 0
Outcomes fs names specs results =
    Pairwise
      (λ (spec : ArtifactSpec) (r : ArtifactOutcome).
        (r.satisfied ≡ true) ↔ Satisfies fs names spec)
      specs results

evaluate_specs-Outcomes :
    (fs : Files) (names : List Text) (specs : List ArtifactSpec) (results : List ArtifactOutcome)
    → evaluate_specs fs names specs ≡ ok results
    → Outcomes fs names specs results
      × ((all (λ (r : ArtifactOutcome). r.satisfied) results ≡ true)
          ↔ All (Satisfies fs names) specs)
unfolding evaluate_specs
evaluate_specs-Outcomes fs names [] [] h = (tt, (λ e. tt, λ a. refl))
evaluate_specs-Outcomes fs names [] (r ∷ results) h = cc
evaluate_specs-Outcomes fs names (spec ∷ specs) results h =
    let (r, er, h1) = >>=-eq-ok (evaluate_spec fs names spec) _ h in
    let (rs, ers, h2) = >>=-eq-ok (evaluate_specs fs names specs) _ h1 in
    let (to, from) = evaluate_spec_iff fs names spec r er in
    let (others, (to', from')) = evaluate_specs-Outcomes fs names specs rs ers in
    subst
      (λ xs.
        Outcomes fs names (spec ∷ specs) xs
        × ((all (λ (x : ArtifactOutcome). x.satisfied) xs ≡ true)
            ↔ All (Satisfies fs names) (spec ∷ specs)))
      (ok-injective h2)
      (
        ((to, from), others),
        (
          λ e.
              let both : (r.satisfied ≡ true)
                  × (all (λ (x : ArtifactOutcome). x.satisfied) rs ≡ true) =
                ground (arith, e) in
              (to both.0, to' both.1),
          λ a. rw (from a.0, from' a.1) refl,
        ),
      )

-- Evaluating artifact specifications. If the evaluation returns, there is one outcome for each
-- specification, in order, which is satisfied exactly if an artifact of the trimmed name is
-- registered, or the specification may read the disk and finds there what it asks for: the file of
-- a `path`, one match at least of a `glob`, or a number of matches of a `file-count` that is within
-- its bounds, from one match on if `min` is unset. The whole is ok exactly if every specification is
-- satisfied.
pub evaluate_artifact_specs_lem :
    (fs : Files) (names : List Text) (specs : List ArtifactSpec) (all_ok : Bool)
    (results : List ArtifactOutcome)
    → evaluate_artifact_specs fs names specs ≡ ok (all_ok, results)
    → Outcomes fs names specs results × ((all_ok ≡ true) ↔ All (Satisfies fs names) specs)
unfolding evaluate_artifact_specs
evaluate_artifact_specs_lem fs names specs all_ok results h =
    let (rs, ers, built) = >>=-eq-ok (evaluate_specs fs names specs) _ h in
    let same = ok-injective built in
    let (each, whole) = evaluate_specs-Outcomes fs names specs rs ers in
    subst
      (λ (x : Bool × List ArtifactOutcome).
        Outcomes fs names specs x.1 × ((x.0 ≡ true) ↔ All (Satisfies fs names) specs))
      same (each, whole)
