-- ===== src/Mcp/Verify.antt =====
-- The verification of an effect manifest (packages/mcp/src/effects.mjs).
use wendkeep.Prelude.{
  ℕ, Bool, true, false, not, ◌&&◌, ◌||◌, leb, ltb, ◌==◌, List, [], ◌∷◌, ◌++◌, if◌then◌else◌, length,
  take, drop, all,
}
use wendkeep.Prelude.Text.{Text, text, text_eq, includes, is_digit, starts_with, dedupe}
use wendkeep.Platform.{Platform}
use wendkeep.Contracts.Strings.{filled}
use wendkeep.Mcp.Catalog.{
  effects, McpTool, EffectManifest, input_schema_id, output_schema_id, manifest_integrity,
}

unfoldable pub is_lower : ℕ → Bool
is_lower c = leb 97 c && leb c 122

-- /^\d{4}-\d{2}-\d{2}$/
unfoldable is_catalog_version : Text → Bool
unfolding is_digit starts_with
is_catalog_version s =
    (length s == 10)
    && all is_digit (take 4 s)
    && starts_with (drop 4 s) (text "-")
    && all is_digit (take 2 (drop 5 s))
    && starts_with (drop 7 s) (text "-")
    && all is_digit (drop 8 s)

-- /^[a-z][a-z0-9-]*$/
unfoldable pub is_alias : Text → Bool
unfolding is_lower is_digit
is_alias [] = false
is_alias (c ∷ s) = is_lower c && all (λ d. is_lower d || is_digit d || (d == 45)) s

-- /^wendkeep_[a-z0-9_]+$/
unfoldable pub is_tool_name : Text → Bool
unfolding is_lower is_digit starts_with
is_tool_name s =
    starts_with s (text "wendkeep_")
    && filled (drop 9 s)
    && all (λ d. is_lower d || is_digit d || (d == 95)) (drop 9 s)

-- What may follow one letter of /^[a-z]+:[a-z]+$/.
word_colon : Text → Bool
unfolding is_lower
word_colon [] = false
word_colon (c ∷ s) =
    let rest = word_colon s in if c == 58 then filled s && all is_lower s else is_lower c && rest

-- /^[a-z]+:[a-z]+$/
unfoldable pub is_capability : Text → Bool
unfolding is_lower word_colon
is_capability [] = false
is_capability (c ∷ s) = is_lower c && word_colon s

-- if (!passes) errors.push(error)
unfoldable pub error_unless : Bool → Text → List Text
error_unless true error = []
error_unless false error = error ∷ []

-- The loop over the aliases; `aliases` has those before.
unfoldable pub alias_errors : List Text → List Text → List Text
unfolding error_unless is_alias
alias_errors aliases [] = []
alias_errors aliases (alias ∷ rest) =
    error_unless (is_alias alias && not (includes aliases alias)) (text "server_alias")
    ++ alias_errors (alias ∷ aliases) rest

unfoldable pub tool_errors : List Text → McpTool → List Text
unfolding error_unless is_tool_name is_capability
tool_errors names tool =
    error_unless (is_tool_name tool.name && not (includes names tool.name)) (text "tool_name")
    ++ error_unless (includes effects tool.effect) (text "tool_effect")
    ++ error_unless (is_capability tool.capability) (text "tool_capability")
    ++ error_unless (tool.effect_version == 1) (text "effect_version")
    ++ error_unless (text_eq tool.input_schema input_schema_id) (text "input_schema")
    ++ error_unless (text_eq tool.output_schema output_schema_id) (text "output_schema")

-- The loop over the tools; `names` has the names before.
unfoldable pub tools_errors : List Text → List McpTool → List Text
unfolding tool_errors
tools_errors names [] = []
tools_errors names (tool ∷ rest) = tool_errors names tool ++ tools_errors (tool.name ∷ names) rest

unfoldable pub manifest_errors : Platform → EffectManifest → List Text
unfolding error_unless is_catalog_version alias_errors tools_errors manifest_integrity
manifest_errors p m =
    error_unless (m.schema_version == 1) (text "schema_version")
    ++ error_unless (is_catalog_version m.catalog_version) (text "catalog_version")
    ++ error_unless (ltb 0 (length m.server_aliases)) (text "server_aliases")
    ++ alias_errors [] m.server_aliases
    ++ error_unless (ltb 0 (length m.tools)) (text "tools")
    ++ tools_errors [] m.tools
    ++ error_unless (text_eq m.integrity (manifest_integrity p m)) (text "integrity")

pub record ManifestVerification : Type 0 where
  pub valid : Bool
  pub errors : List Text
  pub expected_integrity : Text

unfoldable pub verify_manifest : Platform → EffectManifest → ManifestVerification
unfolding manifest_errors manifest_integrity
verify_manifest p m =
    let errors = manifest_errors p m in
    record {
      valid = length errors == 0;
      errors = dedupe errors;
      expected_integrity = manifest_integrity p m;
    }
