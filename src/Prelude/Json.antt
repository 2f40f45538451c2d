-- ===== src/Prelude/Json.antt =====
-- JSON values and `JSON.stringify` without indentation.
use Prim.Native.Nat.{ℕ, ◌+◌, ◌/◌, ◌%◌}
use mathlib.Core.Bool.{Bool, true, false, ◌&&◌, ◌||◌}
use mathlib.Core.List.{[], ◌∷◌, ◌++◌}
use wendkeep.Prelude.Tests.{ltb, leb, ◌==◌, if◌then◌else◌}
use wendkeep.Prelude.Text.{Text, text}

-- A number is its shortest decimal rendering, by which JSON texts show it.
mutual
  pub data Json : Type 0 where
    null : Json
    bool : Bool → Json
    num : Text → Json
    str : Text → Json
    arr : Items → Json
    obj : Fields → Json

  pub data Items : Type 0 where
    nil : Items
    cons : Json → Items → Items

  pub data Fields : Type 0 where
    end : Fields
    field : Text → Json → Fields → Fields

-- The hexadecimal digit of a number below 16.
hex_digit : ℕ → ℕ
hex_digit d = if ltb d 10 then 48 + d else 87 + d

hex4 : ℕ → Text
unfolding hex_digit
hex4 c =
    hex_digit (c / 4096 % 16)
    ∷ hex_digit (c / 256 % 16)
    ∷ hex_digit (c / 16 % 16)
    ∷ hex_digit (c % 16)
    ∷ []

-- A code unit as `\uxxxx`.
unicode_escape : ℕ → Text
unfolding hex4
unicode_escape c = 92 ∷ 117 ∷ hex4 c

is_lead_surrogate : ℕ → Bool
is_lead_surrogate c = leb 0xd800 c && leb c 0xdbff

is_trail_surrogate : ℕ → Bool
is_trail_surrogate c = leb 0xdc00 c && leb c 0xdfff

-- QuoteJSONString for a code unit that is no surrogate.
unfoldable pub escape_unit : ℕ → Text
unfolding unicode_escape
escape_unit c =
    if c == 8
    then 92 ∷ b'b' ∷ []
    else if c == 9
    then 92 ∷ b't' ∷ []
    else if c == 10
    then 92 ∷ b'n' ∷ []
    else if c == 12
    then 92 ∷ b'f' ∷ []
    else if c == 13
    then 92 ∷ b'r' ∷ []
    else if (c == 34) || (c == 92)
    then 92 ∷ c ∷ []
    else if ltb c 32
    then unicode_escape c
    else c ∷ []

-- A surrogate pair is kept, and a surrogate on its own is escaped.
unfoldable pub escape : Text → Text
unfolding escape_unit unicode_escape is_lead_surrogate is_trail_surrogate
escape [] = []
escape (c ∷ []) =
    if is_lead_surrogate c || is_trail_surrogate c then unicode_escape c else escape_unit c
escape (c ∷ d ∷ s) =
    let pair = c ∷ d ∷ escape s in
    let alone = unicode_escape c ++ escape (d ∷ s) in
    let plain = escape_unit c ++ escape (d ∷ s) in
    if is_lead_surrogate c && is_trail_surrogate d
    then pair
    else if is_lead_surrogate c || is_trail_surrogate c
    then alone
    else plain

unfoldable pub quote : Text → Text
unfolding escape
quote s = 34 ∷ (escape s ++ 34 ∷ [])

unfoldable mutual
  unfolding quote

  pub stringify : Json → Text
  stringify null = text "null"
  stringify (bool true) = text "true"
  stringify (bool false) = text "false"
  stringify (num n) = n
  stringify (str s) = quote s
  stringify (arr xs) = 91 ∷ stringify_items xs
  stringify (obj fs) = 123 ∷ stringify_fields fs

  -- The elements with their separators, and the closing bracket.
  pub stringify_items : Items → Text
  stringify_items nil = 93 ∷ []
  stringify_items (cons x nil) = stringify x ++ 93 ∷ []
  stringify_items (cons x (cons y xs)) = stringify x ++ 44 ∷ stringify_items (cons y xs)

  pub stringify_fields : Fields → Text
  stringify_fields end = 125 ∷ []
  stringify_fields (field k v end) = quote k ++ 58 ∷ (stringify v ++ 125 ∷ [])
  stringify_fields (field k v (field j w fs)) =
      quote k ++ 58 ∷ (stringify v ++ 44 ∷ stringify_fields (field j w fs))
