-- ===== src/Mcp/Catalog.antt =====
-- The effect manifest of packages/mcp/src/effects.mjs, and its digest.
use wendkeep.Prelude.{ℕ, List, [], ◌∷◌, ◌++◌}
use wendkeep.Prelude.Text.{Text, text, decimal}
use wendkeep.Prelude.Json.{Json, num, str, arr, obj, Items, nil, cons, end, field, stringify}
use wendkeep.Platform.{Platform}

abbrev pub effects : List Text
effects = text "read" ∷ text "write" ∷ text "destructive" ∷ []

pub record McpTool : Type 0 where
  pub name : Text
  pub effect : Text
  pub capability : Text
  pub effect_version : ℕ
  pub input_schema : Text
  pub output_schema : Text

-- A manifest with all of its fields, each of the type that the code gives it.
pub record EffectManifest : Type 0 where
  pub schema_version : ℕ
  pub catalog_version : Text
  pub server_aliases : List Text
  pub tools : List McpTool
  pub integrity : Text

abbrev pub input_schema_id : Text
input_schema_id = text "wendkeep://schema/mcp-tool-input-v1"

abbrev pub output_schema_id : Text
output_schema_id = text "wendkeep://schema/mcp-tool-result-v1"

-- The objects that TOOLS is mapped to.
unfoldable pub native_tool : Text → Text → Text → McpTool
native_tool name effect capability = record {
  name = name;
  effect = effect;
  capability = capability;
  effect_version = 1;
  input_schema = input_schema_id;
  output_schema = output_schema_id;
}

unfoldable pub tools : List McpTool
unfolding native_tool
tools =
    native_tool (text "wendkeep_project_status") (text "read") (text "project:status")
    ∷ native_tool (text "wendkeep_context_status") (text "read") (text "context:status")
    ∷ native_tool (text "wendkeep_memory_recall") (text "read") (text "memory:recall")
    ∷ native_tool (text "wendkeep_evidence_recall") (text "read") (text "evidence:recall")
    ∷ native_tool (text "wendkeep_memory_conflicts") (text "read") (text "memory:conflicts")
    ∷ native_tool (text "wendkeep_change_list") (text "read") (text "change:list")
    ∷ native_tool (text "wendkeep_change_show") (text "read") (text "change:show")
    ∷ native_tool (text "wendkeep_change_status") (text "read") (text "change:status")
    ∷ native_tool (text "wendkeep_spec_effective") (text "read") (text "spec:effective")
    ∷ native_tool (text "wendkeep_task_show") (text "read") (text "task:show")
    ∷ native_tool (text "wendkeep_task_evaluate") (text "read") (text "task:evaluate")
    ∷ native_tool (text "wendkeep_handoff_current") (text "read") (text "handoff:current")
    ∷ native_tool (text "wendkeep_evidence_latest") (text "read") (text "evidence:latest")
    ∷ native_tool (text "wendkeep_observer_query") (text "read") (text "observer:query")
    ∷ native_tool (text "wendkeep_memory_assert") (text "write") (text "memory:assert")
    ∷ native_tool (text "wendkeep_checkpoint_create") (text "write") (text "checkpoint:create")
    ∷ native_tool (text "wendkeep_context_select") (text "write") (text "context:select")
    ∷ native_tool (text "wendkeep_task_claim") (text "write") (text "task:claim")
    ∷ native_tool (text "wendkeep_task_complete") (text "write") (text "task:complete")
    ∷ native_tool (text "wendkeep_handoff_publish") (text "write") (text "handoff:publish")
    ∷ []

unfoldable pub mcp_effect_manifest : EffectManifest
unfolding tools
mcp_effect_manifest = record {
  schema_version = 1;
  catalog_version = text "2026-08-27";
  server_aliases = text "wendkeep" ∷ text "wendkeep-native" ∷ [];
  tools = tools;
  integrity = text "sha256:1bb4d5dc62008ed23afa0d850a89bbbb77ea9cc31da79cde557aa2f02034fdde";
}

text_items : List Text → Items
text_items [] = nil
text_items (t ∷ ts) = cons (str t) (text_items ts)

-- A tool, its fields in the order of TOOLS.
tool_json : McpTool → Json
unfolding decimal
tool_json t = obj (
    field (text "name") (str t.name) (
      field (text "effect") (str t.effect) (
        field (text "capability") (str t.capability) (
          field (text "effect_version") (num (decimal t.effect_version)) (
            field (text "input_schema") (str t.input_schema)
              (field (text "output_schema") (str t.output_schema) end))))))

tool_items : List McpTool → Items
unfolding tool_json
tool_items [] = nil
tool_items (t ∷ ts) = cons (tool_json t) (tool_items ts)

unfoldable manifest_payload : EffectManifest → Json
unfolding text_items tool_items decimal
manifest_payload m = obj (
    field (text "schema_version") (num (decimal m.schema_version)) (
      field (text "catalog_version") (str m.catalog_version) (
        field (text "server_aliases") (arr (text_items m.server_aliases))
          (field (text "tools") (arr (tool_items m.tools)) end))))

unfoldable pub manifest_integrity : Platform → EffectManifest → Text
unfolding manifest_payload
manifest_integrity p m = text "sha256:" ++ p.sha256_hex (stringify (manifest_payload m))
