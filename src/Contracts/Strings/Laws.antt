-- ===== src/Contracts/Strings/Laws.antt =====
-- What `unique_strings` keeps (packages/contracts/src/task-contracts.mjs).
use wendkeep.Prelude.{
  ◌≡◌, refl, Bool, true, false, not, ◌&&◌, List, [], ◌∷◌, arith, keep, map, All, All-keep,
  All-keep_test, inl, inr, Bool-cases, ap, ◌∙◌, sym,
}
use wendkeep.Prelude.Text.{Text, text_eq, text_eq_iff, includes, trim, dedupe, eq_of_text_eq}
use wendkeep.Prelude.Text.Trim.{trim-trim}
use wendkeep.Contracts.Strings.{filled, unique_strings}

pub includes-keep_ne :
    (xs : List Text) (t u : Text)
    → includes (keep (λ v. not (text_eq v t)) xs) u ≡ (includes xs u && not (text_eq u t))
includes-keep_ne [] t u = refl
includes-keep_ne (x ∷ xs) t u =
    ground (arith, includes-keep_ne xs t u, text_eq_iff x t, text_eq_iff u t, text_eq_iff x u)

pub includes-dedupe : (xs : List Text) (u : Text) → includes (dedupe xs) u ≡ includes xs u
unfolding dedupe
includes-dedupe [] u = refl
includes-dedupe (x ∷ xs) u = ground (
  arith,
  includes-keep_ne (dedupe xs) x u,
  includes-dedupe xs u,
  text_eq_iff x u,
  text_eq_iff u x,
)

includes-keep-filled :
    (xs : List Text) (u : Text) → includes (keep filled xs) u ≡ (filled u && includes xs u)
includes-keep-filled [] u = ground arith
includes-keep-filled (x ∷ xs) u = ground (arith, includes-keep-filled xs u, text_eq_iff x u)

-- Membership after `unique_strings`: some text of the list trims to it.
pub includes-unique_strings :
    (xs : List Text) (u : Text)
    → includes (unique_strings xs) u ≡ (filled u && includes (map trim xs) u)
unfolding unique_strings
includes-unique_strings xs u =
    includes-dedupe (keep filled (map trim xs)) u ∙ includes-keep-filled (map trim xs) u

pub All-dedupe {κ} : (P : Text → Type κ) (xs : List Text) → All P xs → All P (dedupe xs)
unfolding dedupe
All-dedupe P [] h = tt
All-dedupe P (x ∷ xs) h =
    (h.0, All-keep P (λ u. not (text_eq u x)) (dedupe xs) (All-dedupe P xs h.1))

pub unique_strings-filled : (xs : List Text) → All (λ t. filled t ≡ true) (unique_strings xs)
unfolding unique_strings
unique_strings-filled xs =
    All-dedupe (λ t. filled t ≡ true) (keep filled (map trim xs))
      (All-keep_test filled (map trim xs))

-- Each text is its own trimmed form.
abbrev pub AreTrimmed : List Text → Type 0
AreTrimmed xs = All (λ t. trim t ≡ t) xs

map-trim-AreTrimmed : (xs : List Text) → AreTrimmed (map trim xs)
map-trim-AreTrimmed [] = tt
map-trim-AreTrimmed (x ∷ xs) = (trim-trim x, map-trim-AreTrimmed xs)

pub map-trim_of_AreTrimmed : (xs : List Text) → AreTrimmed xs → map trim xs ≡ xs
map-trim_of_AreTrimmed [] h = refl
map-trim_of_AreTrimmed (x ∷ xs) h = rw (h.0, map-trim_of_AreTrimmed xs h.1)

module _ {ℓ} {A : Type ℓ} where
  keep-keep_comm : (f g : A → Bool) (xs : List A) → keep f (keep g xs) ≡ keep g (keep f xs)
  keep-keep_comm f g [] = refl
  keep-keep_comm f g (x ∷ xs) = ground (arith, keep-keep_comm f g xs)

  keep-keep_same : (f : A → Bool) (xs : List A) → keep f (keep f xs) ≡ keep f xs
  keep-keep_same f [] = refl
  keep-keep_same f (x ∷ xs) = ground (arith, keep-keep_same f xs)

  keep_of_All : (f : A → Bool) (xs : List A) → All (λ x. f x ≡ true) xs → keep f xs ≡ xs
  keep_of_All f [] h = refl
  keep_of_All f (x ∷ xs) h = rw h.0 (ap (◌∷◌ x) (keep_of_All f xs h.1))

-- Leaving out a text that the test refuses anyway.
keep-keep_ne :
    (f : Text → Bool) (x : Text) (xs : List Text)
    → f x ≡ false
    → keep f (keep (λ u. not (text_eq u x)) xs) ≡ keep f xs
keep-keep_ne f x [] h = refl
keep-keep_ne f x (y ∷ ys) h = elim (Bool-cases (text_eq y x)) [
  | inl e ↦
      let gone : f y ≡ false = ap f (eq_of_text_eq y x e) ∙ h in
      rw (e, gone) (keep-keep_ne f x ys h)
  | inr e ↦ ground (arith, keep-keep_ne f x ys h)
]

dedupe-keep : (f : Text → Bool) (xs : List Text) → dedupe (keep f xs) ≡ keep f (dedupe xs)
unfolding dedupe
dedupe-keep f [] = refl
dedupe-keep f (x ∷ xs) = elim (Bool-cases (f x)) [
  | inl e ↦
      rw (e, dedupe-keep f xs) (ap (◌∷◌ x) (keep-keep_comm (λ u. not (text_eq u x)) f (dedupe xs)))
  | inr e ↦ rw e (dedupe-keep f xs ∙ sym (keep-keep_ne f x (dedupe xs) e))
]

dedupe-dedupe : (xs : List Text) → dedupe (dedupe xs) ≡ dedupe xs
unfolding dedupe
dedupe-dedupe [] = refl
dedupe-dedupe (x ∷ xs) =
    let other = λ (u : Text). not (text_eq u x) in
    ap (λ ys. x ∷ keep other ys)
      (dedupe-keep other (dedupe xs) ∙ ap (keep other) (dedupe-dedupe xs))
    ∙ ap (◌∷◌ x) (keep-keep_same other (dedupe xs))

pub unique_strings-AreTrimmed : (xs : List Text) → AreTrimmed (unique_strings xs)
unfolding unique_strings
unique_strings-AreTrimmed xs =
    All-dedupe (λ t. trim t ≡ t) (keep filled (map trim xs))
      (All-keep (λ t. trim t ≡ t) filled (map trim xs) (map-trim-AreTrimmed xs))

pub unique_strings-unique_strings :
    (xs : List Text) → unique_strings (unique_strings xs) ≡ unique_strings xs
unfolding unique_strings
unique_strings-unique_strings xs =
    ap (λ ys. dedupe (keep filled ys))
      (map-trim_of_AreTrimmed (unique_strings xs) (unique_strings-AreTrimmed xs))
    ∙ ap dedupe (keep_of_All filled (unique_strings xs) (unique_strings-filled xs))
    ∙ dedupe-dedupe (keep filled (map trim xs))
