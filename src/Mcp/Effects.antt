-- ===== src/Mcp/Effects.antt =====
-- The names of a tool, and its effect (packages/mcp/src/effects.mjs).
pub mod Laws
pub mod Verified
use wendkeep.Prelude.{
  ℕ, ◌≡◌, Bool, true, false, not, ◌&&◌, ◌||◌, leb, ltb, ◌==◌, Option, none, some, List, [], ◌∷◌,
  ◌++◌, if◌then◌else◌, length, take, drop, all, any, find, map,
}
use wendkeep.Prelude.Text.{Text, text, text_eq, includes, is_digit, starts_with, dedupe, decimal}
use wendkeep.Prelude.Json.{
  Json, num, str, arr, obj, Items, nil, cons, Fields, end, field, stringify,
}
use wendkeep.Platform.{Platform}
use wendkeep.Contracts.Strings.{filled}
use wendkeep.Mcp.Catalog.{
  effects, McpTool, EffectManifest, input_schema_id, output_schema_id, tools, manifest_integrity,
}
use wendkeep.Mcp.Verify.{verify_manifest}

abbrev pub alias_prefix : Text → Text
alias_prefix alias = text "mcp__" ++ alias ++ text "__"

-- The loop over the aliases.
unfoldable pub strip_alias : List Text → Text → Text
unfolding starts_with
strip_alias [] name = []
strip_alias (alias ∷ rest) name =
    let later = strip_alias rest name in
    if starts_with name (alias_prefix alias) then drop (length (alias_prefix alias)) name else later

unfoldable pub semantic_tool_name : Text → EffectManifest → Text
unfolding strip_alias starts_with
semantic_tool_name name m =
    if starts_with name (text "wendkeep_") then name else strip_alias m.server_aliases name

pub record ToolEffect : Type 0 where
  pub known : Bool
  pub name : Text
  pub effect : Text
  pub capability : Text
  pub effect_version : ℕ

abbrev pub unknown_tool : Text → ToolEffect
unknown_tool name = record {
  known = false;
  name = name;
  effect = text "unknown";
  capability = [];
  effect_version = 0;
}

abbrev pub known_tool : McpTool → ToolEffect
known_tool tool = record {
  known = true;
  name = tool.name;
  effect = tool.effect;
  capability = tool.capability;
  effect_version = tool.effect_version;
}

-- `resolveMcpToolEffect`
unfoldable pub resolve_tool_effect : Platform → Text → EffectManifest → ToolEffect
unfolding verify_manifest semantic_tool_name
resolve_tool_effect p tool_name m =
    let name = semantic_tool_name tool_name m in
    if not (verify_manifest p m).valid
    then unknown_tool []
    else elim (find (λ (c : McpTool). text_eq c.name name) m.tools) [
      | some tool ↦ known_tool tool
      | none ↦ unknown_tool name
    ]
