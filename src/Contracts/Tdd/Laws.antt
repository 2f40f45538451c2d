-- ===== src/Contracts/Tdd/Laws.antt =====
-- What a green run and an evaluation leave of an attestation
-- (packages/contracts/src/tdd-attestation.mjs).
use wendkeep.Prelude.{
  ◌≡◌, ◌⊎◌, refl, Bool, true, false, none, some, List, arith, inl, inr, Bool-cases, Option-cases,
  if◌then◌else◌, sym, subst,
}
use wendkeep.Prelude.Text.{Text, text_eq, text_eq_iff}
use wendkeep.Prelude.Result.{ok, >>=-eq-ok, ok-injective}
use wendkeep.Platform.{Platform}
use wendkeep.Contracts.Evaluate.{is_empty}
use wendkeep.Contracts.Tdd.Paths.{test_paths_of}
use wendkeep.Contracts.Tdd.Observe.{
  RepoSnapshot, Causal, succeeded, same_identity, texts_eq, causal_texts,
}
use wendkeep.Contracts.Tdd.Machine.{
  GreenInput, settle_green, green_refusal, production_paths_of, observe_green, is_observed,
  red_branch, complete_green_attestation, is_stale_green, evaluate_in,
}
use wendkeep.Contracts.Tdd.Attestation.{
  TddState, invalid, red_observed, green_observed, waived, InvalidReason, red_required,
  mutation_survivor, green_stale_after_refactor, Red, Attestation, invalidate,
}
use wendkeep.Contracts.Tdd.Valid.{HasRed, ValidIn, IsValid, succeeded_iff, settle_green-IsValid}

same_identity-eq : (a b : Causal) → same_identity a b ≡ true → a ≡ b
unfolding same_identity texts_eq causal_texts
same_identity-eq a b h =
    let same : (a.project_id ≡ b.project_id)
        × (a.repository_id ≡ b.repository_id)
        × (a.worktree_id ≡ b.worktree_id)
        × (a.work_session_id ≡ b.work_session_id)
        × (a.change_slug ≡ b.change_slug)
        × (a.task_id ≡ b.task_id)
        × (a.requirement_id ≡ b.requirement_id) =
      ground (
        arith,
        h,
        text_eq_iff a.project_id b.project_id,
        text_eq_iff a.repository_id b.repository_id,
        text_eq_iff a.worktree_id b.worktree_id,
        text_eq_iff a.work_session_id b.work_session_id,
        text_eq_iff a.change_slug b.change_slug,
        text_eq_iff a.task_id b.task_id,
        text_eq_iff a.requirement_id b.requirement_id,
      ) in
    let (project, repository, worktree, session, change, task, requirement) = same in
    cc (project, repository, worktree, session, change, task, requirement)

refused_without_red :
    (a : Attestation) (i : GreenInput) → a.red ≡ none → green_refusal a i ≡ none → ⊥
unfolding green_refusal
refused_without_red a i e h = elim (Bool-cases (same_identity a.causal i.identity)) [
  | inl same ↦ ground (arith, rw (e, same) at h)
  | inr differ ↦ ground (arith, rw (e, differ) at h)
]

-- What a green run has to be for it not to be refused at once.
pub green_refusal-none :
    (a : Attestation) (i : GreenInput)
    → green_refusal a i ≡ none
    → (is_observed a.state ≡ true)
      × (i.result.status ≡ some 0)
      × (i.is_ancestor ≡ true)
      × (a.causal ≡ i.identity)
      × ((red : Red) × (a.red ≡ some red) × (red.snapshot.branch ≡ i.snapshot.branch))
unfolding green_refusal red_branch
green_refusal-none a i h = elim (Option-cases a.red) [
  | inl e ↦ absurd (refused_without_red a i e h)
  | inr (red, e) ↦
      let facts : (same_identity a.causal i.identity ≡ true)
          × (text_eq red.snapshot.branch i.snapshot.branch ≡ true)
          × (is_observed a.state ≡ true)
          × (succeeded i.result ≡ true)
          × (i.is_ancestor ≡ true) =
        ground (arith, rw e at h) in
      let (same, branch, observed, passed, ancestor) = facts in
      (
        observed,
        (succeeded_iff i.result).0 passed,
        ancestor,
        same_identity-eq a.causal i.identity same,
        (red, e, (text_eq_iff _ _).0 branch),
      )
]

-- An observed attestation that is valid has its red run on record.
HasRed-of_observed : (a : Attestation) → is_observed a.state ≡ true → IsValid a → HasRed a
unfolding is_observed
HasRed-of_observed a observed valid = by_state a.state observed valid
  where
    by_state : (s : TddState) → is_observed s ≡ true → ValidIn s a → HasRed a
    by_state invalid h v = cc
    by_state red_observed h v = v
    by_state green_observed h v = v.0
    by_state waived h v = cc

-- What a green run was that was observed, and the attestation before and after it.
pub complete_green-parts :
    (p : Platform) (sanitize : Text → Text) (a b : Attestation) (i : GreenInput)
    → complete_green_attestation p sanitize a i ≡ ok b
    → ((reason : InvalidReason) × (b ≡ invalidate a reason))
      ⊎ ((green_refusal a i ≡ none)
          × ((red : Red) × (next : List Text) × (paths : List Text) × (a.red ≡ some red)
              × (test_paths_of (if is_empty i.test_paths then a.test_paths else i.test_paths)
                  ≡ ok next)
              × (production_paths_of red a i next ≡ ok paths)
              × (b ≡ settle_green p sanitize a i next paths)))
unfolding complete_green_attestation observe_green
complete_green-parts p sanitize a b i h = elim (Option-cases (green_refusal a i)) [
  | inr (reason, e) ↦ inl (reason, sym (ok-injective (rw (e, complete_green_attestation) at h)))
  | inl e ↦
      let h' = rw (e, complete_green_attestation) at h in
      elim (Option-cases a.red) [
        | inl none_red ↦ inl (red_required, sym (ok-injective (rw none_red at h')))
        | inr (red, er) ↦
            let (next, enext, h1) =
              >>=-eq-ok
                (test_paths_of (if is_empty i.test_paths then a.test_paths else i.test_paths)) _
                (rw er at h') in
            let (paths, epaths, built) = >>=-eq-ok (production_paths_of red a i next) _ h1 in
            inr (e, (red, next, paths, er, enext, epaths, sym (ok-injective built)))
      ]
]

pub complete_green-IsValid :
    (p : Platform) (sanitize : Text → Text) (a b : Attestation) (i : GreenInput)
    → IsValid a
    → complete_green_attestation p sanitize a i ≡ ok b
    → IsValid b
unfolding invalidate
complete_green-IsValid p sanitize a b i valid h = elim (complete_green-parts p sanitize a b i h) [
  | inl (reason, e) ↦ subst IsValid (sym e) tt
  | inr (fits, (red, next, paths, er, enext, epaths, e)) ↦
      let (observed, passed, _, _, _) = green_refusal-none a i fits in
      subst IsValid (sym e) (
        settle_green-IsValid p sanitize a i next paths (HasRed-of_observed a observed valid) passed)
]

pub evaluate_in-cases :
    (s : TddState) (a : Attestation) (now : RepoSnapshot) (survivors : Bool)
    → (evaluate_in s a now survivors ≡ a)
      ⊎ ((s ≡ green_observed)
          × ((reason : InvalidReason) × (evaluate_in s a now survivors ≡ invalidate a reason)))
unfolding evaluate_in
evaluate_in-cases invalid a now survivors = inl refl
evaluate_in-cases red_observed a now survivors = inl refl
evaluate_in-cases waived a now survivors = inl refl
evaluate_in-cases green_observed a now true = inr (refl, (mutation_survivor, refl))
evaluate_in-cases green_observed a now false = elim (Bool-cases (is_stale_green a.green now)) [
  | inl stale ↦ inr (refl, (green_stale_after_refactor, rw stale refl))
  | inr fresh ↦ inl (rw fresh refl)
]
