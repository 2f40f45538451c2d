-- ===== src/Contracts/Tdd/Green.antt =====
-- When a run counts as green, and how long it stays so
-- (packages/contracts/src/tdd-attestation.mjs).
use wendkeep.Prelude.{
  ◌≡◌, ◌≢◌, ◌↔◌, refl, Bool, true, false, some, List, [], ◌∷◌, arith, inl, inr, Bool-cases, sym,
  ◌∙◌, subst, ap, some-injective,
}
use wendkeep.Prelude.Text.{Text, text_eq_iff}
use wendkeep.Prelude.Result.{ok}
use wendkeep.Platform.{Platform}
use wendkeep.Contracts.Tdd.Observe.{RepoSnapshot}
use wendkeep.Contracts.Tdd.Machine.{
  GreenInput, is_observed, settle_green, history_of, complete_green_attestation, is_stale_green,
  evaluate_in, evaluate_tdd_attestation,
}
use wendkeep.Contracts.Tdd.Attestation.{
  TddState, invalid, red_observed, green_observed, waived, Red, Green, Attestation, invalidate,
}
use wendkeep.Contracts.Tdd.Changes.{production_paths_of-AreProduction, test_paths_of-AreNext}
use wendkeep.Contracts.Tdd.Named.{AreNext, AreProduction}
use wendkeep.Contracts.Tdd.Laws.{complete_green-parts, green_refusal-none}

settle_green-green :
    (p : Platform) (sanitize : Text → Text) (a : Attestation) (i : GreenInput)
    (next paths : List Text)
    → (settle_green p sanitize a i next paths).state ≡ green_observed
    → (paths ≢ [])
      × ((g : Green) × ((settle_green p sanitize a i next paths).green ≡ some g)
          × (g.production_paths ≡ paths)
          × (g.snapshot ≡ i.snapshot))
      × ((settle_green p sanitize a i next paths).green_history ≡ history_of a)
      × ((settle_green p sanitize a i next paths).test_paths ≡ next)
      × ((settle_green p sanitize a i next paths).red ≡ a.red)
unfolding settle_green invalidate
settle_green-green p sanitize a i next [] h = cc
settle_green-green p sanitize a i next (path ∷ paths) h =
    (λ e. cc, (_, refl, refl, refl), refl, refl, refl)

-- When completing makes an attestation green: only if it was red or green before, the run is for
-- the same project, worktree, session, change, task and requirement and on the branch of its red
-- run, it exited with 0, and the red commit is an ancestor. The tests declared from then on are those
-- that the run gives, or else the old ones. Recorded are the snapshot of the run and exactly the
-- paths, at least one, whose hash in the manifest is another than at the red run or that a commit
-- touched, and that are none of the declared tests, old or new, nor below one. The red run stays, and
-- a green run that is replaced is added to the history.
pub complete_green_causal :
    (p : Platform) (sanitize : Text → Text) (a b : Attestation) (i : GreenInput)
    → complete_green_attestation p sanitize a i ≡ ok b
    → b.state ≡ green_observed
    → (is_observed a.state ≡ true)
      × (a.causal ≡ i.identity)
      × (i.result.status ≡ some 0)
      × (i.is_ancestor ≡ true)
      × AreNext a.test_paths i b.test_paths
      × ((red : Red) × (g : Green) × (a.red ≡ some red)
          × (b.red ≡ some red)
          × (red.snapshot.branch ≡ i.snapshot.branch)
          × (b.green ≡ some g)
          × (g.snapshot ≡ i.snapshot)
          × (g.production_paths ≢ [])
          × AreProduction red a.test_paths i b.test_paths g.production_paths)
      × (b.green_history ≡ history_of a)
unfolding invalidate
complete_green_causal p sanitize a b i h green = elim (complete_green-parts p sanitize a b i h) [
  | inl (reason, e) ↦ cc (green, ap (λ (x : Attestation). x.state) e)
  | inr (fits, (red, next, paths, er, enext, epaths, e)) ↦
      let (observed, passed, ancestor, same, (red', er', branch)) = green_refusal-none a i fits in
      let (some_path, (g, eg, recorded, seen), history, tests, kept) =
        settle_green-green p sanitize a i next paths
          (sym (ap (λ (x : Attestation). x.state) e) ∙ green) in
      let tests_are : b.test_paths ≡ next = ap (λ (x : Attestation). x.test_paths) e ∙ tests in
      let same_red : red' ≡ red = some-injective (sym er' ∙ er) in
      (
        observed,
        same,
        passed,
        ancestor,
        subst (AreNext a.test_paths i) (sym tests_are)
            (test_paths_of-AreNext a.test_paths i next enext),
        (
          red,
          g,
          er,
          ap (λ (x : Attestation). x.red) e ∙ kept ∙ er,
          subst (λ (r : Red). r.snapshot.branch ≡ i.snapshot.branch) same_red branch,
          ap (λ (x : Attestation). x.green) e ∙ eg,
          seen,
          subst (λ ps. ps ≢ []) (sym recorded) some_path,
          subst (λ ts. AreProduction red a.test_paths i ts g.production_paths) (sym tests_are)
              (subst (AreProduction red a.test_paths i next) (sym recorded)
                (production_paths_of-AreProduction red a i next paths epaths)),
        ),
        ap (λ (x : Attestation). x.green_history) e ∙ history,
      )
]

not_stale_iff :
    (g : Green) (now : RepoSnapshot)
    → (is_stale_green (some g) now ≡ false) ↔ (
        (g.snapshot.head_sha ≡ now.head_sha)
        × (g.snapshot.index_tree_sha ≡ now.index_tree_sha)
        × (g.snapshot.worktree_digest ≡ now.worktree_digest))
unfolding is_stale_green
not_stale_iff g now = ground (
  arith,
  text_eq_iff g.snapshot.head_sha now.head_sha,
  text_eq_iff g.snapshot.index_tree_sha now.index_tree_sha,
  text_eq_iff g.snapshot.worktree_digest now.worktree_digest,
)

still_green_iff :
    (a : Attestation) (now : RepoSnapshot) (survivors : Bool)
    → a.state ≡ green_observed
    → ((evaluate_in green_observed a now survivors).state ≡ green_observed)
      ↔ ((survivors ≡ false) × (is_stale_green a.green now ≡ false))
unfolding evaluate_in invalidate
still_green_iff a now true e = (λ q. cc, λ q. cc (q.0))
still_green_iff a now false e = elim (Bool-cases (is_stale_green a.green now)) [
  | inl stale ↦ rw stale (λ q. cc, λ q. cc (q.1))
  | inr fresh ↦ rw fresh (λ q. (refl, refl), λ q. e)
]

-- How long green lasts. An attestation with a green run on record that is evaluated as green was
-- green before, and it stays green exactly while no mutant survives and the head, the index and the
-- worktree are those of the green run; evaluating never makes another one green.
pub evaluate_tdd_green :
    (a : Attestation) (g : Green) (now : RepoSnapshot) (survivors : Bool)
    → a.green ≡ some g
    → ((evaluate_tdd_attestation a now survivors).state ≡ green_observed) ↔ (
        (a.state ≡ green_observed)
        × (survivors ≡ false)
        × (g.snapshot.head_sha ≡ now.head_sha)
        × (g.snapshot.index_tree_sha ≡ now.index_tree_sha)
        × (g.snapshot.worktree_digest ≡ now.worktree_digest))
unfolding evaluate_tdd_attestation
evaluate_tdd_green a g now survivors recorded = by_state a.state refl
  where
    by_state :
        (s : TddState)
        → a.state ≡ s
        → ((evaluate_in s a now survivors).state ≡ green_observed) ↔ (
            (s ≡ green_observed)
            × (survivors ≡ false)
            × (g.snapshot.head_sha ≡ now.head_sha)
            × (g.snapshot.index_tree_sha ≡ now.index_tree_sha)
            × (g.snapshot.worktree_digest ≡ now.worktree_digest))
    by_state invalid e = (λ q. cc (sym e ∙ q), λ q. cc (q.0))
    by_state red_observed e = (λ q. cc (sym e ∙ q), λ q. cc (q.0))
    by_state waived e = (λ q. cc (sym e ∙ q), λ q. cc (q.0))
    by_state green_observed e =
        let (to, from) = still_green_iff a now survivors e in
        let (same_to, same_from) = not_stale_iff g now in
        let found = ap (λ o. is_stale_green o now) recorded in
        (
          λ q.
              let (head, index, worktree) = same_to (sym found ∙ (to q).1) in
              (refl, (to q).0, head, index, worktree),
          λ (_, alive, head, index, worktree).
              from (alive, found ∙ same_from (head, index, worktree)),
        )
