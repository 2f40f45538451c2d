-- ===== src/Prelude/Text/Trim.antt =====
-- `trim` of JavaScript strings removes nothing from its own results.
use mathlib.Core.Path.{◌≡◌, refl, ap, ◌∙◌, sym, subst}
use mathlib.Core.Logic.{inl, inr}
use mathlib.Core.Bool.{false}
use mathlib.Core.List.{[], ◌∷◌, ◌++◌, reverse, reverse-append, reverse-reverse}
use wendkeep.Prelude.Tests.{Bool-cases}
use wendkeep.Prelude.Text.{Text, is_space, trim_start, trim}

-- The text does not begin with white space.
abbrev NoLead : Text → Type 0
NoLead [] = Unit
NoLead (c ∷ s) = is_space c ≡ false

trim_start-NoLead : (s : Text) → NoLead (trim_start s)
unfolding trim_start
trim_start-NoLead [] = tt
trim_start-NoLead (c ∷ s) = elim (Bool-cases (is_space c)) [
  | inl e ↦ rw e (trim_start-NoLead s)
  | inr e ↦ rw e e
]

trim_start_of_NoLead : (s : Text) → NoLead s → trim_start s ≡ s
unfolding trim_start
trim_start_of_NoLead [] h = refl
trim_start_of_NoLead (c ∷ s) h = rw h

trim_start-split : (s : Text) → (z : Text) × (s ≡ z ++ trim_start s)
unfolding trim_start
trim_start-split [] = ([], refl)
trim_start-split (c ∷ s) = elim (Bool-cases (is_space c)) [
  | inl e ↦ let (z, q) = trim_start-split s in (c ∷ z, rw e (ap (◌∷◌ c) q))
  | inr e ↦ ([], rw e)
]

NoLead-of_prefix : (s t : Text) → NoLead (s ++ t) → NoLead s
NoLead-of_prefix [] t h = tt
NoLead-of_prefix (c ∷ s) t h = h

-- What is left after the end was trimmed begins as before.
trim_end-split : (u : Text) → (z : Text) × (u ≡ reverse (trim_start (reverse u)) ++ z)
trim_end-split u =
    let (z, q) = trim_start-split (reverse u) in
    (reverse z, sym (reverse-reverse u) ∙ ap reverse q ∙ reverse-append z (trim_start (reverse u)))

pub trim-trim : (s : Text) → trim (trim s) ≡ trim s
unfolding trim
trim-trim s =
    let u = trim_start s in
    let w = trim_start (reverse u) in
    let (z, q) = trim_end-split u in
    let lead = NoLead-of_prefix (reverse w) z (subst NoLead q (trim_start-NoLead s)) in
    ap (λ x. reverse (trim_start (reverse x))) (trim_start_of_NoLead (reverse w) lead)
    ∙ ap (λ x. reverse (trim_start x)) (reverse-reverse w)
    ∙ ap reverse (trim_start_of_NoLead w (trim_start-NoLead (reverse u)))
