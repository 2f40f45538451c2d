-- ===== src/Contracts/Strings.antt =====
-- `uniqueStrings`, `stableValue`, `canonicalJson` and `sha256` of
-- packages/contracts/src/task-contracts.mjs, for lists of texts.
pub mod Laws
use wendkeep.Prelude.{
  Bool, true, false, not, Option, none, some, List, [], ◌∷◌, if◌then◌else◌, keep, map,
}
use wendkeep.Prelude.Text.{Text, text, text_eq, trim, dedupe}
use wendkeep.Prelude.Json.{Json, str, Items, nil, cons, stringify}
use wendkeep.Sync.Canonical.{stable}

-- Boolean(text)
abbrev pub filled : Text → Bool
filled [] = false
filled (c ∷ s) = true

unfoldable pub unique_strings : List Text → List Text
unique_strings values = dedupe (keep filled (map trim values))

-- a || b, for texts
unfoldable pub or_default : Text → Text → Text
or_default a b = if filled a then a else b

-- `stable` of the sync package is the same code as `stableValue`.
unfoldable pub canonical_json : Json → Text
canonical_json value = stringify (stable value)

-- An array of texts.
unfoldable pub texts_json : List Text → Items
texts_json [] = nil
texts_json (t ∷ ts) = cons (str t) (texts_json ts)

-- xs.find((x) => key(x) === k) of the last x: what a Map of pairs holds under the key.
unfoldable pub last_with {ℓ} : {A : Type ℓ} → (A → Text) → Text → List A → Option A
last_with key k [] = none
last_with key k (x ∷ xs) = elim (last_with key k xs) [
  | none ↦ if text_eq (key x) k then some x else none
  | some y ↦ some y
]
