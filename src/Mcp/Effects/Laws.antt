-- ===== src/Mcp/Effects/Laws.antt =====
-- A tool has one effect under all of its names (packages/mcp/src/effects.mjs).
use wendkeep.Prelude.{
  ◌≡◌, refl, Bool, true, false, not, ◌||◌, ltb, ◌==◌, Option, none, some, List, [], ◌∷◌, ◌++◌,
  length, drop, all, find, inl, inr, Bool-cases, sym, ◌∙◌, subst, ap, arith,
}
use wendkeep.Prelude.Text.{Text, text, text_eq, text_eq_iff, includes, is_digit, starts_with}
use wendkeep.Prelude.Text.Affix.{starts_with_iff, drop-append_length}
use wendkeep.Platform.{Platform}
use wendkeep.Mcp.Effects.{
  alias_prefix, strip_alias, semantic_tool_name, known_tool, unknown_tool, resolve_tool_effect,
}
use wendkeep.Mcp.Verify.{
  is_lower, is_alias, is_tool_name, error_unless, alias_errors, tools_errors, manifest_errors,
  verify_manifest,
}
use wendkeep.Mcp.Catalog.{effects, McpTool, EffectManifest, manifest_integrity}
use wendkeep.Mcp.Effects.Verified.{append-empty, alias_errors-tail, tools_errors-fresh, find_tool}

abbrev plain : Text → Bool
plain = all (λ c. not (c == 95))

alias_units-plain :
    (s : Text) → all (λ d. is_lower d || is_digit d || (d == 45)) s ≡ true → plain s ≡ true
unfolding is_lower is_digit
alias_units-plain [] h = refl
alias_units-plain (c ∷ s) h = ground (arith, h, alias_units-plain s)

is_alias-plain : (s : Text) → is_alias s ≡ true → plain s ≡ true
unfolding is_alias is_lower is_digit
is_alias-plain [] h = refl
is_alias-plain (c ∷ s) h = ground (arith, h, alias_units-plain s)

alias_errors-plain :
    (seen aliases : List Text) (alias : Text)
    → alias_errors seen aliases ≡ []
    → includes aliases alias ≡ true
    → plain alias ≡ true
alias_errors-plain seen [] alias h k = cc
alias_errors-plain seen (a ∷ rest) alias h k =
    let (good, later) = alias_errors-tail seen a rest h in
    elim (Bool-cases (text_eq a alias)) [
      | inl e ↦ subst (λ t. plain t ≡ true) ((text_eq_iff a alias).0 e) (is_alias-plain a good)
      | inr e ↦ alias_errors-plain (a ∷ seen) rest alias later (rw e at k)
    ]

-- Two texts without an underscore that are followed by one in the same text are the same.
same_up_to_underscore :
    (a b s t : Text) → plain a ≡ true → plain b ≡ true → a ++ 95 ∷ s ≡ b ++ 95 ∷ t → a ≡ b
same_up_to_underscore [] [] s t pa pb e = refl
same_up_to_underscore [] (d ∷ b) s t pa pb e = ground (arith, pb, e)
same_up_to_underscore (c ∷ a) [] s t pa pb e = ground (arith, pa, e)
same_up_to_underscore (c ∷ a) (d ∷ b) s t pa pb e =
    ground (arith, pa, pb, e, same_up_to_underscore a b s t)

append_assoc : (a b c : Text) → (a ++ b) ++ c ≡ a ++ (b ++ c)
append_assoc [] b c = refl
append_assoc (x ∷ a) b c = ap (◌∷◌ x) (append_assoc a b c)

same_alias :
    (a alias name : Text)
    → plain a ≡ true
    → plain alias ≡ true
    → starts_with (alias_prefix alias ++ name) (alias_prefix a) ≡ true
    → a ≡ alias
same_alias a alias name pa pb h =
    let (rest, e) = (starts_with_iff (alias_prefix alias ++ name) (alias_prefix a)).0 h in
    same_up_to_underscore a alias (95 ∷ rest) (95 ∷ name) pa pb (
      sym (append_assoc a (text "__") rest)
      ∙ sym (ap (drop 5) e)
      ∙ append_assoc alias (text "__") name)

strip_alias-prefix :
    (seen aliases : List Text) (alias name : Text)
    → alias_errors seen aliases ≡ []
    → includes aliases alias ≡ true
    → strip_alias aliases (alias_prefix alias ++ name) ≡ name
unfolding strip_alias
strip_alias-prefix seen [] alias name h k = cc
strip_alias-prefix seen (a ∷ rest) alias name h k =
    let whole = alias_prefix alias ++ name in
    let stripped = drop-append_length (alias_prefix alias) name in
    let (good, later) = alias_errors-tail seen a rest h in
    let plain_a = is_alias-plain a good in
    let plain_alias = alias_errors-plain seen (a ∷ rest) alias h k in
    elim (Bool-cases (starts_with whole (alias_prefix a))) [
      | inl e ↦
          let same = same_alias a alias name plain_a plain_alias e in
          rw e (ap (λ (t : Text). drop (length (alias_prefix t)) whole) same ∙ stripped)
      | inr e ↦
          let other : text_eq a alias ≡ false = elim (Bool-cases (text_eq a alias)) [
            | inl same ↦
                let here_too : starts_with whole (alias_prefix a) ≡ true =
                  (starts_with_iff whole (alias_prefix a)).1
                    (name, ap (λ t. alias_prefix t ++ name) (sym ((text_eq_iff a alias).0 same))) in
                cc
            | inr distinct ↦ distinct
          ] in
          rw e (strip_alias-prefix (a ∷ seen) rest alias name later (rw other at k))
    ]

-- What a manifest without errors says of its aliases and tools.
valid-parts :
    (p : Platform) (m : EffectManifest)
    → (verify_manifest p m).valid ≡ true
    → (alias_errors [] m.server_aliases ≡ []) × (tools_errors [] m.tools ≡ [])
unfolding verify_manifest manifest_errors
valid-parts p m h =
    let empty = none_left (manifest_errors p m) h in
    let seven =
      (append-empty _
        (error_unless (text_eq m.integrity (manifest_integrity p m)) (text "integrity")) empty).0 in
    let (rest, names) = append-empty _ (tools_errors [] m.tools) seven in
    let five = (append-empty _ (error_unless (ltb 0 (length m.tools)) (text "tools")) rest).0 in
    ((append-empty _ (alias_errors [] m.server_aliases) five).1, names)
  where
    none_left : (xs : List Text) → (length xs == 0) ≡ true → xs ≡ []
    none_left [] k = refl
    none_left (x ∷ xs) k = ground (arith, k)

-- The name of a tool is the whole of it: no alias is read off it, and no name of a server begins
-- like one.
semantic-tool_name :
    (m : EffectManifest) (name : Text) → is_tool_name name ≡ true → semantic_tool_name name m ≡ name
unfolding semantic_tool_name is_tool_name
semantic-tool_name m name h =
    let own : starts_with name (text "wendkeep_") ≡ true = ground (arith, h) in rw own refl

semantic-alias_prefix :
    (m : EffectManifest) (alias name : Text)
    → alias_errors [] m.server_aliases ≡ []
    → includes m.server_aliases alias ≡ true
    → semantic_tool_name (alias_prefix alias ++ name) m ≡ name
unfolding semantic_tool_name starts_with text_eq
semantic-alias_prefix m alias name h k = strip_alias-prefix [] m.server_aliases alias name h k

resolve_semantic :
    (p : Platform) (m : EffectManifest) (before after : List McpTool) (tool : McpTool)
    (asked : Text)
    → (verify_manifest p m).valid ≡ true
    → m.tools ≡ before ++ tool ∷ after
    → semantic_tool_name asked m ≡ tool.name
    → resolve_tool_effect p asked m ≡ known_tool tool
unfolding resolve_tool_effect
resolve_semantic p m before after tool asked h listed named =
    let errors : tools_errors [] (before ++ tool ∷ after) ≡ [] =
      subst (λ ts. tools_errors [] ts ≡ []) listed (valid-parts p m h).1 in
    let found = find_tool [] before after tool errors in
    let named_so = λ (n : Text) (c : McpTool). text_eq c.name n in
    rw h (
      ap
        (λ (o : Option McpTool). elim o [
          | some t ↦ known_tool t
          | none ↦ unknown_tool (semantic_tool_name asked m)
        ])
        (ap (λ n. find (named_so n) m.tools) named ∙ ap (find (named_so tool.name)) listed ∙ found))

-- A tool has one effect under all of its names. In a manifest that verifyMcpEffectManifest accepts,
-- every tool of the list is resolved, by its own name and by its name qualified by any of the
-- aliases of the server, to its own effect, capability and version, and the effect is one of the
-- three.
pub resolve-alias_prefix :
    (p : Platform) (m : EffectManifest) (before after : List McpTool) (tool : McpTool)
    (alias : Text)
    → (verify_manifest p m).valid ≡ true
    → m.tools ≡ before ++ tool ∷ after
    → includes m.server_aliases alias ≡ true
    → (resolve_tool_effect p tool.name m ≡ known_tool tool)
      × (resolve_tool_effect p (alias_prefix alias ++ tool.name) m ≡ known_tool tool)
      × (includes effects tool.effect ≡ true)
resolve-alias_prefix p m before after tool alias h listed alias_of =
    let (aliases, names) = valid-parts p m h in
    let errors : tools_errors [] (before ++ tool ∷ after) ≡ [] =
      subst (λ ts. tools_errors [] ts ≡ []) listed names in
    let (named, _, effect) = tools_errors-fresh [] before after tool errors in
    (
      resolve_semantic p m before after tool tool.name h listed
          (semantic-tool_name m tool.name named),
      resolve_semantic p m before after tool (alias_prefix alias ++ tool.name) h listed
          (semantic-alias_prefix m alias tool.name aliases alias_of),
      effect,
    )
