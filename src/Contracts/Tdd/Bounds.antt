-- ===== src/Contracts/Tdd/Bounds.antt =====
-- How much of a command and its output is kept
-- (packages/contracts/src/tdd-attestation.mjs).
use wendkeep.Prelude.{
  ℕ, zero, suc, ◌-◌, ◌≤◌, ◌<◌, leb, take, ◌⊎◌, ◌≡◌, refl, List, [], ◌∷◌, ◌++◌, arith, inl, inr,
  Bool-cases, sym, subst, length, drop,
}
use wendkeep.Prelude.Text.Affix.{take_append_drop}
use wendkeep.Prelude.Text.{Text}
use wendkeep.Platform.{Platform}
use wendkeep.Contracts.Tdd.Observe.{RunResult, command_observation, bounded_tail, raw_output}
use wendkeep.Contracts.Tdd.Valid.{length-take_le}

length-drop {ℓ} : {A : Type ℓ} (n : ℕ) (xs : List A) → length (drop n xs) ≡ length xs - n
length-drop zero xs = omega arith
length-drop (suc n) [] = omega arith
length-drop (suc n) (x ∷ xs) = omega (arith, length-drop n xs)

take-prefix :
    (n : ℕ) (s : Text) → (s ≡ take n s ++ drop n s) × ((drop n s ≡ []) ⊎ (length (take n s) ≡ n))
take-prefix n s = (sym (take_append_drop n s), all_or_full n s)
  where
    all_or_full : (n : ℕ) (s : Text) → (drop n s ≡ []) ⊎ (length (take n s) ≡ n)
    all_or_full zero s = inr refl
    all_or_full (suc n) [] = inl refl
    all_or_full (suc n) (c ∷ s) = elim (all_or_full n s) [
      | inl e ↦ inl e
      | inr e ↦ inr (omega (arith, e))
    ]

-- The text as a whole, or an ellipsis and the last 1,999 units of it.
abbrev pub IsTailOf : Text → Text → Type 0
IsTailOf tail whole =
    ((tail ≡ whole) × (length whole ≤ 2000))
    ⊎ ((cut : Text) × (last : Text) × (whole ≡ cut ++ last)
        × (length last ≡ 1999)
        × (2000 < length whole)
        × (tail ≡ 0x2026 ∷ last))

bounded_tail-IsTailOf :
    (sanitize : Text → Text) (value : Text)
    → IsTailOf (bounded_tail sanitize value) (sanitize value)
unfolding bounded_tail
bounded_tail-IsTailOf sanitize value =
    let s = sanitize value in
    let n = length s - 1999 in
    elim (Bool-cases (leb (length s) 2000)) [
      | inl e ↦ inl (rw e refl, ground (arith, e))
      | inr e ↦ inr (
        take n s,
        drop n s,
        sym (take_append_drop n s),
        ground (arith, e, length-drop n s),
        ground (arith, e),
        rw e refl,
      )
    ]

IsTailOf-bound : (tail whole : Text) → IsTailOf tail whole → length tail ≤ 2000
IsTailOf-bound tail whole (inl (same, short)) = subst (λ t. length t ≤ 2000) (sym same) short
IsTailOf-bound tail whole (inr (cut, last, _, size, _, same)) =
    subst (λ t. length t ≤ 2000) (sym same) (omega (arith, size))

-- An observation is bounded. Whatever redaction makes of a command and its output, of the redacted
-- command the first 1,000 units are kept, or all of it if it is shorter. Of the redacted output all
-- is kept if that is at most 2,000 units, and otherwise an ellipsis and its last 1,999 units, so
-- that what is kept never has more than 2,000.
pub command_observation_bounds :
    (p : Platform) (sanitize : Text → Text) (command : Text) (r : RunResult) (observed_at : Text)
    → ((rest : Text) × (sanitize command
          ≡ (command_observation p sanitize command r observed_at).command ++ rest)
        × ((rest ≡ [])
            ⊎ (length (command_observation p sanitize command r observed_at).command ≡ 1000)))
      × (length (command_observation p sanitize command r observed_at).command ≤ 1000)
      × IsTailOf
          (command_observation p sanitize command r observed_at).output_tail
          (sanitize (raw_output r))
      × (length (command_observation p sanitize command r observed_at).output_tail ≤ 2000)
unfolding command_observation
command_observation_bounds p sanitize command r observed_at =
    let tail = bounded_tail-IsTailOf sanitize (raw_output r) in
    let (whole, full) = take-prefix 1000 (sanitize command) in
    (
      (drop 1000 (sanitize command), whole, full),
      length-take_le 1000 (sanitize command),
      tail,
      IsTailOf-bound (bounded_tail sanitize (raw_output r)) (sanitize (raw_output r)) tail,
    )
