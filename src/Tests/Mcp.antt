-- ===== src/Tests/Mcp.antt =====
-- Runs of packages/mcp/src/effects.mjs.
use wendkeep.Prelude.{◌≡◌, refl, true, [], ◌∷◌}
use wendkeep.Prelude.Text.{text, text_eq, is_digit, starts_with}
use wendkeep.Prelude.Json.{stringify}
use wendkeep.Mcp.Effects.{resolve_tool_effect, known_tool}
use wendkeep.Mcp.Verify.{
  is_lower, is_alias, is_tool_name, is_capability, alias_errors, tools_errors, verify_manifest,
}
use wendkeep.Mcp.Catalog.{
  McpTool, EffectManifest, native_tool, mcp_effect_manifest, manifest_integrity,
}
use wendkeep.Mcp.Effects.Laws.{resolve-alias_prefix}
use wendkeep.Tests.Platform.{toy, repeat, total}

-- The catalog of the program has no error but perhaps its digest.
catalog_tools : tools_errors [] mcp_effect_manifest.tools ≡ []
unfolding mcp_effect_manifest tools_errors is_tool_name is_capability text_eq starts_with is_lower
    is_digit
catalog_tools = refl

catalog_aliases : alias_errors [] mcp_effect_manifest.server_aliases ≡ []
unfolding mcp_effect_manifest alias_errors is_alias text_eq is_lower is_digit
catalog_aliases = refl

abbrev claim_tool : McpTool
claim_tool = native_tool (text "wendkeep_task_claim") (text "write") (text "task:claim")

abbrev unsigned : EffectManifest
unsigned = record {
  schema_version = 1;
  catalog_version = text "2026-08-27";
  server_aliases = text "wendkeep" ∷ text "wendkeep-native" ∷ [];
  tools =
      native_tool (text "wendkeep_task_show") (text "read") (text "task:show") ∷ claim_tool ∷ [];
  integrity = [];
}

abbrev signed : EffectManifest
signed = record unsigned { integrity = manifest_integrity toy unsigned }

verifies : (verify_manifest toy signed).valid ≡ true
unfolding verify_manifest text_eq starts_with is_lower is_digit native_tool total stringify repeat
verifies = refl

resolve-alias_prefix_example :
    resolve_tool_effect toy (text "mcp__wendkeep-native__wendkeep_task_claim") signed
    ≡ known_tool claim_tool
unfolding native_tool text_eq
resolve-alias_prefix_example =
    (resolve-alias_prefix toy signed
      (native_tool (text "wendkeep_task_show") (text "read") (text "task:show") ∷ []) [] claim_tool
      (text "wendkeep-native") verifies refl refl).1
