-- ===== src/Contracts/Artifacts/Satisfies.antt =====
-- When a specification holds of the files on disk
-- (packages/contracts/src/task-contracts.mjs).
use wendkeep.Prelude.{
  ℕ, ◌≤◌, ◌≡◌, ◌↔◌, ◌⊎◌, refl, Bool, true, false, ◌&&◌, List, arith, inl, inr, ltb, ltb→lt, lt→ltb,
  if◌then◌else◌, sym, ◌∙◌, subst, ap,
}
use wendkeep.Prelude.Text.{Text, text, text_eq, text_eq_iff, text_eq_ne, includes, trim}
use wendkeep.Prelude.Result.{ok, >>=-eq-ok, ok-injective}
use wendkeep.Contracts.Artifacts.{
  Files, ArtifactSpec, ArtifactOutcome, Limit, unset, natural, negative, at_least, at_most,
  count_matches, safe_relative_path, evaluate_on_disk, forward_slashes,
}

-- The bounds that `min` and `max` stand for: at least one file and no upper bound, if unset.
abbrev InBounds : Limit → Limit → ℕ → Type 0
InBounds low high count =
    (elim low [ unset ↦ 1 ≤ count | natural n ↦ n ≤ count | negative ↦ Unit ])
    × (elim high [ unset ↦ Unit | natural n ↦ count ≤ n | negative ↦ ⊥ ])

InBounds-iff :
    (low high : Limit) (count : ℕ)
    → ((at_least low count && at_most high count) ≡ true) ↔ InBounds low high count
unfolding at_least at_most
InBounds-iff unset unset count = ground arith
InBounds-iff unset (natural n) count = ground arith
InBounds-iff unset negative count = ground arith
InBounds-iff (natural m) unset count = ground arith
InBounds-iff (natural m) (natural n) count = ground arith
InBounds-iff (natural m) negative count = ground arith
InBounds-iff negative unset count = ground arith
InBounds-iff negative (natural n) count = ground arith
InBounds-iff negative negative count = ground arith

-- What a specification that reads the disk asks of the project.
abbrev pub OnDisk : Files → ArtifactSpec → Type 0
OnDisk fs spec =
    ((trim spec.type ≡ text "path") × (fs.is_file (forward_slashes spec.path) ≡ true))
    ⊎ ((files : List Text) × (fs.scan ≡ ok files)
        × (((trim spec.type ≡ text "glob") × (1 ≤ count_matches fs spec.glob files))
            ⊎ ((trim spec.type ≡ text "file-count")
                × InBounds spec.min spec.max (count_matches fs spec.glob files))))

-- A specification is satisfied by a registered artifact of its name, or on the disk, if it may read
-- the disk.
abbrev pub Satisfies : Files → List Text → ArtifactSpec → Type 0
Satisfies fs names spec =
    (includes names (trim spec.name) ≡ true) ⊎ ((spec.from_filesystem ≡ true) × OnDisk fs spec)

safe_relative_path-ok :
    (fs : Files) (value raw : Text)
    → safe_relative_path fs value ≡ ok raw
    → raw ≡ forward_slashes value
unfolding safe_relative_path
safe_relative_path-ok fs value raw h = ground (arith, h)

pub apart : (a s t : Text) {P : Type 0} → text_eq s t ≡ false → a ≡ s → a ≡ t → P
apart a s t differ p q = absurd (no s t differ (sym p ∙ q))
  where
    no : (s t : Text) → text_eq s t ≡ false → s ≡ t → ⊥
    no s t differ e = let same = (text_eq_iff s t).1 e in cc (same, differ)

pub path_ne_glob : text_eq (text "path") (text "glob") ≡ false
unfolding text_eq
path_ne_glob = refl

pub path_ne_count : text_eq (text "path") (text "file-count") ≡ false
unfolding text_eq
path_ne_count = refl

pub name_ne_path : text_eq (text "name") (text "path") ≡ false
unfolding text_eq
name_ne_path = refl

pub name_ne_glob : text_eq (text "name") (text "glob") ≡ false
unfolding text_eq
name_ne_glob = refl

pub name_ne_count : text_eq (text "name") (text "file-count") ≡ false
unfolding text_eq
name_ne_count = refl

glob_ne_count : text_eq (text "glob") (text "file-count") ≡ false
unfolding text_eq
glob_ne_count = refl

module _ (fs : Files) (spec : ArtifactSpec) (r : ArtifactOutcome) where
  pub path-OnDisk :
      text_eq (trim spec.type) (text "path") ≡ true
      → evaluate_on_disk fs (trim spec.name) (trim spec.type) spec ≡ ok r
      → (r.satisfied ≡ true) ↔ OnDisk fs spec
  unfolding evaluate_on_disk
  path-OnDisk is_path h =
      let is = (text_eq_iff (trim spec.type) (text "path")).0 is_path in
      let (raw, eraw, built) = >>=-eq-ok (safe_relative_path fs spec.path) _ (rw is_path at h) in
      let same = safe_relative_path-ok fs spec.path raw eraw in
      let value : r.satisfied ≡ fs.is_file (forward_slashes spec.path) = cc (built, same) in
      (
        λ e. inl (is, sym value ∙ e),
        λ d. elim d [
          | inl (_, file) ↦ value ∙ file
          | inr (files, _, inl (glob, _)) ↦ apart _ _ _ path_ne_glob is glob
          | inr (files, _, inr (counted, _)) ↦ apart _ _ _ path_ne_count is counted
        ],
      )

  -- The two types that count files; any other type was refused before.
  pub counted-OnDisk :
      text_eq (trim spec.type) (text "path") ≡ false
      → (trim spec.type ≡ text "glob") ⊎ (trim spec.type ≡ text "file-count")
      → evaluate_on_disk fs (trim spec.name) (trim spec.type) spec ≡ ok r
      → (r.satisfied ≡ true) ↔ OnDisk fs spec
  unfolding evaluate_on_disk
  counted-OnDisk no_path kind h =
      let (_, _, h1) = >>=-eq-ok (safe_relative_path fs spec.glob) _ (rw no_path at h) in
      let (files, scanned, built) = >>=-eq-ok fs.scan _ h1 in
      let count = count_matches fs spec.glob files in
      let value : r.satisfied ≡ (
          if text_eq (trim spec.type) (text "glob")
          then ltb 0 count
          else at_least spec.min count && at_most spec.max count) =
        cc built in
      let pick = λ (b : Bool).
        if b then ltb 0 count else at_least spec.min count && at_most spec.max count in
      let same = λ (files' : List Text) (e : fs.scan ≡ ok files'). ok-injective (sym scanned ∙ e) in
      elim kind [
        | inl glob ↦
            let flag : r.satisfied ≡ ltb 0 count = value ∙ ap pick ((text_eq_iff _ _).1 glob) in
            (
              λ e. inr (files, scanned, inl (glob, ltb→lt 0 count (sym flag ∙ e))),
              λ d. elim d [
                | inl (is, _) ↦ apart _ _ _ path_ne_glob is glob
                | inr (files', e, inl (_, some_file)) ↦
                    flag
                    ∙ lt→ltb 0 count (
                        subst (λ fl. 1 ≤ count_matches fs spec.glob fl) (sym (same files' e))
                          some_file)
                | inr (files', e, inr (counted, _)) ↦ apart _ _ _ glob_ne_count glob counted
              ],
            )
        | inr counted ↦
            let other : text_eq (trim spec.type) (text "glob") ≡ false =
              text_eq_ne _ _ (λ e. apart _ _ _ glob_ne_count e counted) in
            let flag : r.satisfied ≡ (at_least spec.min count && at_most spec.max count) =
              value ∙ ap pick other in
            let (to, from) = InBounds-iff spec.min spec.max count in
            (
              λ e. inr (files, scanned, inr (counted, to (sym flag ∙ e))),
              λ d. elim d [
                | inl (is, _) ↦ apart _ _ _ path_ne_count is counted
                | inr (files', e, inl (glob, _)) ↦ apart _ _ _ glob_ne_count glob counted
                | inr (files', e, inr (_, bounds)) ↦
                    flag
                    ∙ from (
                        subst (λ fl. InBounds spec.min spec.max (count_matches fs spec.glob fl))
                          (sym (same files' e)) bounds)
              ],
            )
      ]
