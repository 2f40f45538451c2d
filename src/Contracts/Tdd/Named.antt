-- ===== src/Contracts/Tdd/Named.antt =====
-- The specification of changed and declared paths, and what normalizing and trimming keep
-- (packages/contracts/src/tdd-attestation.mjs).
use wendkeep.Prelude.{
  ◌≡◌, ◌≢◌, ◌↔◌, ◌⊎◌, refl, Bool, true, false, ◌&&◌, ◌||◌, List, [], ◌∷◌, ◌++◌, arith, inl, inr,
  Bool-cases, if◌then◌else◌, sym, ◌∙◌, ap, map,
}
use wendkeep.Prelude.Text.{Text, text_eq, text_eq_iff, eq_of_text_eq, includes, trim, starts_with}
use wendkeep.Prelude.Result.{ok, >>=-eq-ok, ok-injective}
use wendkeep.Contracts.Strings.{filled, unique_strings}
use wendkeep.Contracts.Strings.Laws.{includes-unique_strings}
use wendkeep.Contracts.Evaluate.{is_empty}
use wendkeep.Contracts.Tdd.Paths.{normalized_path, normalized_paths, manifest_at}
use wendkeep.Contracts.Tdd.Machine.{GreenInput}
use wendkeep.Contracts.Tdd.Attestation.{Red}

-- One of the texts that are meant, trimmed, is not empty and normalizes to the path.
abbrev pub NamedBy : (Text → Type 0) → Text → Type 0
NamedBy IsMeant path =
    (raw : Text) × IsMeant raw × (filled (trim raw) ≡ true) × (normalized_path (trim raw) ≡ ok path)

-- Another hash in the manifest of the green run than in that of the red one, or a path of a commit.
abbrev IsChanged : Red → GreenInput → Text → Type 0
IsChanged red i raw =
    (manifest_at red.snapshot.change_manifest raw ≢ manifest_at i.snapshot.change_manifest raw)
    ⊎ (includes i.committed_paths raw ≡ true)

-- The declared tests, the old ones and the new.
abbrev AreDeclared : List Text → List Text → List Text → Type 0
AreDeclared old new declared =
    (path : Text)
    → (includes declared path ≡ true) ↔ NamedBy (λ raw. includes (old ++ new) raw ≡ true) path

-- The test paths that are declared from a green run on: those that it gives, or else the old ones.
abbrev pub AreNext : List Text → GreenInput → List Text → Type 0
AreNext old i new =
    (path : Text)
    → (includes new path ≡ true)
      ↔ NamedBy (λ raw. includes (if is_empty i.test_paths then old else i.test_paths) raw ≡ true)
          path

-- Normalized once more, the path is none of the declared ones, nor below one.
abbrev pub IsOutside : List Text → Text → Type 0
IsOutside declared path =
    (normal : Text) × (normalized_path path ≡ ok normal)
    × ((test : Text)
        → includes declared test ≡ true
        → (normal ≢ test) × ((below : Text) → normal ≢ (test ++ 47 ∷ []) ++ below))

-- The paths are exactly those that changed and are no declared test, nor below one.
abbrev pub AreProduction : Red → List Text → GreenInput → List Text → List Text → Type 0
AreProduction red old i new paths =
    (declared : List Text) × AreDeclared old new declared
    × ((path : Text)
        → (includes paths path ≡ true) ↔ (NamedBy (IsChanged red i) path × IsOutside declared path))

pub true_or_false : {P : Type 0} → true ≡ false → P
true_or_false e = cc

pub either : (x y : Bool) → (x || y) ≡ true → (x ≡ true) ⊎ (y ≡ true)
either true y e = inl refl
either false y e = inr e

pub in_second : (x y : Bool) → y ≡ true → (x || y) ≡ true
in_second true y e = refl
in_second false y e = e

-- The test that `isDeclaredTestPath` makes of a declared path.
abbrev pub is_test : Text → Text → Bool
is_test normal test = text_eq normal test || starts_with normal (test ++ 47 ∷ [])

includes-map-trim :
    (xs : List Text) (u : Text)
    → (includes (map trim xs) u ≡ true) ↔ ((raw : Text) × (includes xs raw ≡ true) × (trim raw ≡ u))
includes-map-trim [] u = (λ e. cc, λ q. cc (q.1))
includes-map-trim (x ∷ xs) u =
    let (to, from) = includes-map-trim xs u in
    (
      λ e. elim (Bool-cases (text_eq (trim x) u)) [
        | inl same ↦ (x, ground (arith, text_eq_iff x x), eq_of_text_eq (trim x) u same)
        | inr other ↦ let (raw, there, is) = to (rw other at e) in (raw, ground (arith, there), is)
      ],
      λ (raw, there, is). elim (Bool-cases (text_eq x raw)) [
        | inl same ↦
            let here : text_eq (trim x) u ≡ true =
              (text_eq_iff (trim x) u).1 (ap trim (eq_of_text_eq x raw same) ∙ is) in
            rw here refl
        | inr other ↦
            let later : includes (map trim xs) u ≡ true = from (raw, (rw other at there), is) in
            ground (arith, later)
      ],
    )

normalized_paths-includes :
    (values paths : List Text) (path : Text)
    → normalized_paths values ≡ ok paths
    → (includes paths path ≡ true)
      ↔ ((value : Text) × (includes values value ≡ true) × (normalized_path value ≡ ok path))
unfolding normalized_paths
normalized_paths-includes [] paths path h =
    (λ e. true_or_false (sym e ∙ ap (λ ps. includes ps path) (sym (ok-injective h))), λ q. cc (q.1))
normalized_paths-includes (v ∷ values) paths path h =
    let (first, ev, h1) = >>=-eq-ok (normalized_path v) _ h in
    let (rest, er, built) = >>=-eq-ok (normalized_paths values) _ h1 in
    let made : first ∷ rest ≡ paths = ok-injective built in
    let (to, from) = normalized_paths-includes values rest path er in
    (
      λ e.
          let here : includes (first ∷ rest) path ≡ true = ap (λ ps. includes ps path) made ∙ e in
          elim (Bool-cases (text_eq first path)) [
            | inl same ↦
                (v, ground (arith, text_eq_iff v v), ev ∙ ap ok (eq_of_text_eq first path same))
            | inr other ↦
                let (value, there, is) = to (rw other at here) in (value, ground (arith, there), is)
          ],
      λ (value, there, is).
          ap (λ ps. includes ps path) (sym made) ∙ elim (Bool-cases (text_eq v value)) [
            | inl same ↦
                let first_is : first ≡ path =
                  ok-injective (sym ev ∙ ap normalized_path (eq_of_text_eq v value same) ∙ is) in
                rw ((text_eq_iff first path).1 first_is) refl
            | inr other ↦
                let later : includes rest path ≡ true = from (value, (rw other at there), is) in
                ground (arith, later)
          ],
    )

-- The two lemmas above, for the lists that the code makes of texts.
pub normalized_unique-NamedBy :
    (xs paths : List Text) (path : Text)
    → normalized_paths (unique_strings xs) ≡ ok paths
    → (includes paths path ≡ true) ↔ NamedBy (λ raw. includes xs raw ≡ true) path
normalized_unique-NamedBy xs paths path h =
    let (to, from) = normalized_paths-includes (unique_strings xs) paths path h in
    (
      λ e.
          let (value, there, is) = to e in
          let kept : (filled value ≡ true) × (includes (map trim xs) value ≡ true) =
            both (filled value) (includes (map trim xs) value)
              (sym (includes-unique_strings xs value) ∙ there) in
          let (raw, among, same) = (includes-map-trim xs value).0 kept.1 in
          (raw, among, ap filled same ∙ kept.0, ap normalized_path same ∙ is),
      λ (raw, among, some_text, is).
          let there : includes (map trim xs) (trim raw) ≡ true =
            (includes-map-trim xs (trim raw)).1 (raw, among, refl) in
          from (trim raw, includes-unique_strings xs (trim raw) ∙ rw (some_text, there) refl, is),
    )
  where
    both : (a b : Bool) → (a && b) ≡ true → (a ≡ true) × (b ≡ true)
    both true b e = (refl, e)
    both false b e = cc
