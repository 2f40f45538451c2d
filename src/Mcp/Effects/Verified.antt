-- ===== src/Mcp/Effects/Verified.antt =====
-- What an accepted manifest says of its aliases and tools (packages/mcp/src/effects.mjs).
use wendkeep.Prelude.{
  ◌≡◌, refl, Bool, true, false, not, ◌&&◌, ◌==◌, some, List, [], ◌∷◌, ◌++◌, find, arith,
}
use wendkeep.Prelude.Text.{Text, text, text_eq, text_eq_refl, includes}
use wendkeep.Mcp.Verify.{
  is_alias, is_tool_name, is_capability, error_unless, alias_errors, tool_errors, tools_errors,
}
use wendkeep.Mcp.Catalog.{effects, McpTool, input_schema_id, output_schema_id}

pub append-empty : (xs ys : List Text) → xs ++ ys ≡ [] → (xs ≡ []) × (ys ≡ [])
append-empty [] ys h = (refl, h)
append-empty (x ∷ xs) ys h = cc

first_two : (a b c d e f : List Text) → a ++ b ++ c ++ d ++ e ++ f ≡ [] → (a ≡ []) × (b ≡ [])
first_two a b c d e f h =
    let four = (append-empty (a ++ b ++ c ++ d) e (append-empty (a ++ b ++ c ++ d ++ e) f h).0).0 in
    append-empty a b (append-empty (a ++ b) c (append-empty (a ++ b ++ c) d four).0).0

error_unless-empty : (b : Bool) (e : Text) → error_unless b e ≡ [] → b ≡ true
unfolding error_unless
error_unless-empty true e h = refl
error_unless-empty false e h = cc

tool_errors-empty :
    (names : List Text) (tool : McpTool)
    → tool_errors names tool ≡ []
    → (is_tool_name tool.name ≡ true)
      × (includes names tool.name ≡ false)
      × (includes effects tool.effect ≡ true)
unfolding tool_errors
tool_errors-empty names tool h =
    let named = is_tool_name tool.name && not (includes names tool.name) in
    let effect = includes effects tool.effect in
    let (name_ok, effect_ok) =
      first_two (error_unless named (text "tool_name")) (error_unless effect (text "tool_effect"))
        (error_unless (is_capability tool.capability) (text "tool_capability"))
        (error_unless (tool.effect_version == 1) (text "effect_version"))
        (error_unless (text_eq tool.input_schema input_schema_id) (text "input_schema"))
        (error_unless (text_eq tool.output_schema output_schema_id) (text "output_schema")) h in
    let both : named ≡ true = error_unless-empty named (text "tool_name") name_ok in
    (
      ground (arith, both),
      ground (arith, both),
      error_unless-empty effect (text "tool_effect") effect_ok,
    )

tools_errors-tail :
    (names : List Text) (tool : McpTool) (rest : List McpTool)
    → tools_errors names (tool ∷ rest) ≡ []
    → (tool_errors names tool ≡ []) × (tools_errors (tool.name ∷ names) rest ≡ [])
unfolding tools_errors
tools_errors-tail names tool rest h = append-empty (tool_errors names tool) _ h

pub alias_errors-tail :
    (seen : List Text) (a : Text) (rest : List Text)
    → alias_errors seen (a ∷ rest) ≡ []
    → (is_alias a ≡ true) × (alias_errors (a ∷ seen) rest ≡ [])
unfolding alias_errors
alias_errors-tail seen a rest h =
    let fits = is_alias a && not (includes seen a) in
    let (here, later) = append-empty (error_unless fits (text "server_alias")) _ h in
    let good : fits ≡ true = error_unless-empty fits (text "server_alias") here in
    (ground (arith, good), later)

-- A tool of a manifest without errors has a name that no tool before it has.
pub tools_errors-fresh :
    (names : List Text) (before after : List McpTool) (tool : McpTool)
    → tools_errors names (before ++ tool ∷ after) ≡ []
    → (is_tool_name tool.name ≡ true)
      × (includes names tool.name ≡ false)
      × (includes effects tool.effect ≡ true)
tools_errors-fresh names [] after tool h =
    tool_errors-empty names tool (tools_errors-tail names tool after h).0
tools_errors-fresh names (b ∷ before) after tool h =
    let later = (tools_errors-tail names b (before ++ tool ∷ after) h).1 in
    let (named, fresh, effect) = tools_errors-fresh (b.name ∷ names) before after tool later in
    let not_seen : includes names tool.name ≡ false = ground (arith, fresh) in
    (named, not_seen, effect)

pub find_tool :
    (names : List Text) (before after : List McpTool) (tool : McpTool)
    → tools_errors names (before ++ tool ∷ after) ≡ []
    → find (λ (c : McpTool). text_eq c.name tool.name) (before ++ tool ∷ after) ≡ some tool
find_tool names [] after tool h = rw (text_eq_refl tool.name) refl
find_tool names (b ∷ before) after tool h =
    let later = (tools_errors-tail names b (before ++ tool ∷ after) h).1 in
    let (_, fresh, _) = tools_errors-fresh (b.name ∷ names) before after tool later in
    let other : text_eq b.name tool.name ≡ false = ground (arith, fresh) in
    rw other (find_tool (b.name ∷ names) before after tool later)
