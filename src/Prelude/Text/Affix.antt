-- ===== src/Prelude/Text/Affix.antt =====
-- What `startsWith`, `endsWith` and `slice(0, -1)` say of a text.
use mathlib.Core.Path.{◌≡◌, refl, ap, ◌∙◌, sym}
use mathlib.Core.Logic.{◌↔◌}
use mathlib.Core.Bool.{true}
use mathlib.Core.List.{[], ◌∷◌, ◌++◌}
use Prim.Native.Nat.{ℕ, zero, suc, ◌-◌}
use native.Mathlib.Omega.{arith}
use wendkeep.Prelude.Lists.{length, length-append, take, drop}
use wendkeep.Prelude.Text.{
  Text, text_eq, text_eq_refl, eq_of_text_eq, starts_with, ends_with, drop_last,
}

pub take_append_drop : (n : ℕ) (s : Text) → take n s ++ drop n s ≡ s
take_append_drop zero s = refl
take_append_drop (suc n) [] = refl
take_append_drop (suc n) (c ∷ s) = ap (◌∷◌ c) (take_append_drop n s)

take-append_length : (s t : Text) → take (length s) (s ++ t) ≡ s
take-append_length [] t = refl
take-append_length (c ∷ s) t = ap (◌∷◌ c) (take-append_length s t)

pub drop-append_length : (s t : Text) → drop (length s) (s ++ t) ≡ t
drop-append_length [] t = refl
drop-append_length (c ∷ s) t = drop-append_length s t

pub starts_with_iff :
    (s prefix : Text) → (starts_with s prefix ≡ true) ↔ ((rest : Text) × (s ≡ prefix ++ rest))
unfolding starts_with
starts_with_iff s prefix = (
  λ h.
      let same = eq_of_text_eq (take (length prefix) s) prefix h in
      (
        drop (length prefix) s,
        sym (take_append_drop (length prefix) s) ∙ ap (λ t. t ++ drop (length prefix) s) same,
      ),
  λ (rest, e).
      ap (λ t. text_eq (take (length prefix) t) prefix) e
      ∙ ap (λ t. text_eq t prefix) (take-append_length prefix rest)
      ∙ text_eq_refl prefix,
)

pub ends_with_iff :
    (s suffix : Text) → (ends_with s suffix ≡ true) ↔ ((front : Text) × (s ≡ front ++ suffix))
unfolding ends_with
ends_with_iff s suffix = (
  λ h.
      let n = length s - length suffix in
      let same = eq_of_text_eq (drop n s) suffix h in
      (take n s, sym (take_append_drop n s) ∙ ap (λ t. take n s ++ t) same),
  λ (front, e).
      let count : length s - length suffix ≡ length front =
        ap (λ t. length t - length suffix) e ∙ omega (arith, length-append front suffix) in
      ap (λ n. text_eq (drop n s) suffix) count
      ∙ ap (λ t. text_eq (drop (length front) t) suffix) e
      ∙ ap (λ t. text_eq t suffix) (drop-append_length front suffix)
      ∙ text_eq_refl suffix,
)

pub drop_last-snoc : (s : Text) (c : ℕ) → drop_last (s ++ c ∷ []) ≡ s
drop_last-snoc [] c = refl
drop_last-snoc (d ∷ []) c = refl
drop_last-snoc (d ∷ e ∷ s) c = ap (◌∷◌ d) (drop_last-snoc (e ∷ s) c)
