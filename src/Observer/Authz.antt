-- ===== src/Observer/Authz.antt =====
-- `authorizeObserverPrincipal` of packages/observer/src/authz.mjs.
pub mod Laws
use wendkeep.Prelude.{Bool, true, false, not, ◌&&◌, ◌||◌, List, [], ◌∷◌, if◌then◌else◌, any}
use wendkeep.Prelude.Text.{Text, text, text_eq, includes, starts_with, ends_with, drop_last}
use wendkeep.Prelude.Result.{Result, ok, err}
use wendkeep.Observer.Tokens.{Refusal}
use wendkeep.Observer.Tokens.Register.{TokenRow}

abbrev pub viewer_capabilities : List Text
viewer_capabilities =
    text "project:read"
    ∷ text "usage:summary:read"
    ∷ text "usage:breakdown:read"
    ∷ text "memory:metadata:read"
    ∷ text "sync:read"
    ∷ []

abbrev pub auditor_capabilities : List Text
auditor_capabilities =
    text "project:read"
    ∷ text "usage:summary:read"
    ∷ text "usage:breakdown:read"
    ∷ text "usage:calls:read"
    ∷ text "transcript:read"
    ∷ text "memory:metadata:read"
    ∷ text "memory:content:read"
    ∷ text "audit:read"
    ∷ text "sync:read"
    ∷ []

abbrev pub publisher_capabilities : List Text
publisher_capabilities =
    text "project:read"
    ∷ text "project:write"
    ∷ text "ingest:write"
    ∷ text "memory:write"
    ∷ text "snapshot:write"
    ∷ text "sync:write"
    ∷ []

-- ROLE_CAPABILITIES[role] || new Set()
unfoldable pub role_capabilities : Text → List Text
role_capabilities role =
    if text_eq role (text "viewer")
    then viewer_capabilities
    else if text_eq role (text "auditor")
    then auditor_capabilities
    else if text_eq role (text "publisher")
    then publisher_capabilities
    else if text_eq role (text "admin")
    then text "*" ∷ []
    else []

unfoldable pub scope_matches : List Text → Text → Bool
scope_matches scopes capability =
    includes scopes (text "*")
    || includes scopes capability
    || any (λ scope. ends_with scope (text ":*") && starts_with capability (drop_last scope)) scopes

pub data AuthDecision : Type 0 where
  authorized : AuthDecision
  unauthenticated : Refusal → AuthDecision
  project_forbidden role_forbidden scope_forbidden : AuthDecision

unfoldable pub authorize_observer_principal : Result Refusal TokenRow → Text → Text → AuthDecision
unfolding role_capabilities scope_matches
authorize_observer_principal (err refusal) project_id capability = unauthenticated refusal
authorize_observer_principal (ok row) project_id capability =
    let grants = role_capabilities row.role in
    if not (includes row.project_ids (text "*")) && not (includes row.project_ids project_id)
    then project_forbidden
    else if not (includes grants (text "*")) && not (includes grants capability)
    then role_forbidden
    else if not (scope_matches row.scopes capability)
    then scope_forbidden
    else authorized
