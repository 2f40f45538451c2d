-- ===== src/Prelude/Text.antt =====
-- JavaScript strings as lists of UTF-16 code units: equality, code-unit order, `trim`, patterns.
pub mod Trim
pub mod Affix
use Prim.Native.Char.{code}
use Prim.Native.String.{String}
use Prim.Native.Nat.{ℕ, zero, suc, ◌+◌, ◌-◌, ◌/◌, ◌%◌}
use mathlib.Core.Path.{◌≡◌, refl}
use mathlib.Core.Logic.{◌↔◌, ◌≢◌, inl, inr}
use mathlib.Core.Bool.{Bool, true, false, not, ◌&&◌, ◌||◌}
use mathlib.Core.List.{List, [], ◌∷◌, ◌++◌, reverse}
use native.Mathlib.Omega.{arith}
use wendkeep.Prelude.Tests.{ltb, leb, ◌==◌, if◌then◌else◌, Bool-cases}
use wendkeep.Prelude.Lists.{length, any, all, keep, take, drop}

abbrev pub Text : Type 0
Text = List ℕ

-- The code units of a literal, which is ASCII throughout.
abbrev pub text : String → Text
text String.[] = []
text (String.◌∷◌ c s) = code c ∷ text s

-- a === b
unfoldable pub text_eq : Text → Text → Bool
text_eq [] [] = true
text_eq (a ∷ s) (b ∷ t) = (a == b) && text_eq s t
text_eq _ _ = false

pub text_eq_refl : (s : Text) → text_eq s s ≡ true
unfolding text_eq
text_eq_refl [] = refl
text_eq_refl (a ∷ s) = ground (arith, text_eq_refl s)

pub eq_of_text_eq : (s t : Text) → text_eq s t ≡ true → s ≡ t
unfolding text_eq
eq_of_text_eq [] [] h = refl
eq_of_text_eq (a ∷ s) (b ∷ t) h = ground (arith, eq_of_text_eq s t)
eq_of_text_eq [] (b ∷ t) h = cc
eq_of_text_eq (a ∷ s) [] h = cc

pub text_eq_iff : (s t : Text) → (text_eq s t ≡ true) ↔ (s ≡ t)
text_eq_iff s t = (eq_of_text_eq s t, λ e. rw e (text_eq_refl t))

-- The default order of `sort`: by code units, a prefix first.
unfoldable pub text_leb : Text → Text → Bool
text_leb [] t = true
text_leb (a ∷ s) [] = false
text_leb (a ∷ s) (b ∷ t) = ltb a b || ((a == b) && text_leb s t)

-- WhiteSpace and LineTerminator of ECMAScript, which `trim` removes at both ends.
unfoldable pub is_space : ℕ → Bool
is_space c =
    (leb 9 c && leb c 13)
    || (c == 32)
    || (c == 160)
    || (c == 5760)
    || (leb 8192 c && leb c 8202)
    || (c == 8232)
    || (c == 8233)
    || (c == 8239)
    || (c == 8287)
    || (c == 12288)
    || (c == 65279)

unfoldable pub trim_start : Text → Text
trim_start [] = []
trim_start (c ∷ s) = if is_space c then trim_start s else c ∷ s

-- s.trim()
unfoldable pub trim : Text → Text
unfolding trim_start
trim s = reverse (trim_start (reverse (trim_start s)))

-- s.includes(c), for one code unit
abbrev pub contains : ℕ → Text → Bool
contains c s = any (λ d. d == c) s

-- xs.includes(s)
abbrev pub includes : List Text → Text → Bool
includes xs s = any (λ x. text_eq x s) xs

-- [...new Set(texts)]: the first of each, in order.
unfoldable pub dedupe : List Text → List Text
dedupe [] = []
dedupe (t ∷ ts) = t ∷ keep (λ u. not (text_eq u t)) (dedupe ts)

unfoldable pub is_digit : ℕ → Bool
is_digit c = leb 48 c && leb c 57

unfoldable pub is_lower_hex : ℕ → Bool
unfolding is_digit
is_lower_hex c = is_digit c || (leb 97 c && leb c 102)

-- /^[a-f0-9]{64}$/
unfoldable pub is_hex64 : Text → Bool
is_hex64 s = (length s == 64) && all is_lower_hex s

-- Number.prototype.toString of a natural number; one digit of fuel for each unit is plenty.
unfoldable pub decimal_from : ℕ → ℕ → Text → Text
decimal_from zero n out = out
decimal_from (suc f) n out =
    let out' = (48 + n % 10) ∷ out in
    let rest = decimal_from f (n / 10) out' in if ltb n 10 then out' else rest

unfoldable pub decimal : ℕ → Text
unfolding decimal_from
decimal n = decimal_from (suc n) n []

pub text_eq_ne : (s t : Text) → s ≢ t → text_eq s t ≡ false
text_eq_ne s t ne = elim (Bool-cases (text_eq s t)) [
  | inl e ↦ absurd (ne (eq_of_text_eq s t e))
  | inr e ↦ e
]

-- s.toLowerCase() and s.toUpperCase(), for the letters whose other case is ASCII. Any other unit is
-- kept, which no ASCII text holds, so a comparison with an ASCII text comes out as in the language.
lower_unit : ℕ → Text
lower_unit c =
    if leb 65 c && leb c 90
    then (c + 32) ∷ []
    else if c == 0x130
    then 105 ∷ 0x307 ∷ []
    else if c == 0x212a
    then 107 ∷ []
    else c ∷ []

upper_unit : ℕ → Text
upper_unit c =
    if leb 97 c && leb c 122
    then (c - 32) ∷ []
    else if c == 0xdf
    then text "SS"
    else if c == 0x131
    then text "I"
    else if c == 0x17f
    then text "S"
    else if c == 0xfb00
    then text "FF"
    else if c == 0xfb01
    then text "FI"
    else if c == 0xfb02
    then text "FL"
    else if c == 0xfb03
    then text "FFI"
    else if c == 0xfb04
    then text "FFL"
    else if (c == 0xfb05) || (c == 0xfb06)
    then text "ST"
    else c ∷ []

unfoldable pub to_lower : Text → Text
unfolding lower_unit
to_lower [] = []
to_lower (c ∷ s) = lower_unit c ++ to_lower s

unfoldable pub to_upper : Text → Text
unfolding upper_unit
to_upper [] = []
to_upper (c ∷ s) = upper_unit c ++ to_upper s

-- s.startsWith(prefix)
unfoldable pub starts_with : Text → Text → Bool
starts_with s prefix = text_eq (take (length prefix) s) prefix

-- s.slice(0, -1)
abbrev pub drop_last : Text → Text
drop_last [] = []
drop_last (c ∷ []) = []
drop_last (c ∷ d ∷ s) = c ∷ drop_last (d ∷ s)

-- s.endsWith(suffix)
unfoldable pub ends_with : Text → Text → Bool
ends_with s suffix = text_eq (drop (length s - length suffix) s) suffix
