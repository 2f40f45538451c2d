-- ===== src/Observer/Authz/Laws.antt =====
-- Who is authorized, from the token to the capability (packages/observer/src/authz.mjs and
-- token-registry.mjs).
use wendkeep.Prelude.{
  ℕ, ◌<◌, ◌≡◌, ◌↔◌, ◌⊎◌, refl, Bool, true, false, not, ◌&&◌, ◌||◌, leb, Option, none, some,
  some-injective, List, [], ◌∷◌, ◌++◌, arith, inl, inr, any, Bool-cases, Option-cases,
  if◌then◌else◌, sym, ◌∙◌, subst, ap,
}
use wendkeep.Prelude.Text.{
  Text, text, text_eq, text_eq_iff, includes, starts_with, ends_with, drop_last,
}
use wendkeep.Prelude.Text.Affix.{starts_with_iff, ends_with_iff, drop_last-snoc}
use wendkeep.Prelude.Result.{ok, Result-cases}
use wendkeep.Platform.{Platform}
use wendkeep.Observer.Tokens.{is_past, is_revoked_at, resolve_row, resolve_observer_principal}
use wendkeep.Observer.Tokens.Register.{TokenRow, TokenTable, by_hash, hash_observer_token}
use wendkeep.Observer.Tokens.Resolve.{resolve-found, resolve-ok, resolve_row-some}
use wendkeep.Observer.Authz.{
  authorized, project_forbidden, role_forbidden, scope_forbidden, role_capabilities, scope_matches,
  authorize_observer_principal,
}

-- Some element has the property.
abbrev pub Some {ℓ} : {A : Type ℓ} → (A → Type 0) → List A → Type 0
Some P [] = ⊥
Some P (x ∷ xs) = P x ⊎ Some P xs

-- A scope covers a capability: by `*`, by its own name, or, as `front:*`, by a name below `front:`.
abbrev pub Covers : Text → Text → Type 0
Covers capability scope =
    (scope ≡ text "*")
    ⊎ (scope ≡ capability)
    ⊎ ((front : Text) × (rest : Text) × (scope ≡ front ++ text ":*")
        × (capability ≡ (front ++ text ":") ++ rest))

Some-iff {ℓ} :
    {A : Type ℓ} (P : A → Type 0) (test : A → Bool)
    → ((x : A) → (test x ≡ true) ↔ P x)
    → (xs : List A) → (any test xs ≡ true) ↔ Some P xs
Some-iff P test h [] = (λ e. cc, λ s. absurd s)
Some-iff P test h (x ∷ xs) =
    let (to, from) = h x in
    let (to', from') = Some-iff P test h xs in
    (
      λ e. elim (Bool-cases (test x)) [
        | inl here ↦ inl (to here)
        | inr other ↦ inr (to' (rw other at e))
      ],
      λ s. elim s [ inl here ↦ rw (from here) refl | inr later ↦ ground (arith, from' later) ],
    )

any-or {ℓ} :
    {A : Type ℓ} (f g : A → Bool) (xs : List A) → (any f xs || any g xs) ≡ any (λ x. f x || g x) xs
any-or f g [] = refl
any-or f g (x ∷ xs) = ground (arith, any-or f g xs)

append-append : (s t u : Text) → s ++ (t ++ u) ≡ (s ++ t) ++ u
append-append [] t u = refl
append-append (c ∷ s) t u = ap (◌∷◌ c) (append-append s t u)

-- `front:*` without its last unit.
front_of : (front : Text) → drop_last (front ++ text ":*") ≡ front ++ text ":"
front_of front =
    ap drop_last (append-append front (text ":") (text "*")) ∙ drop_last-snoc (front ++ text ":") 42

below_iff :
    (capability scope : Text)
    → ((ends_with scope (text ":*") && starts_with capability (drop_last scope)) ≡ true) ↔ (
        (front : Text) × (rest : Text) × (scope ≡ front ++ text ":*")
        × (capability ≡ (front ++ text ":") ++ rest))
below_iff capability scope = (
  λ h.
      let both : (ends_with scope (text ":*") ≡ true)
          × (starts_with capability (drop_last scope) ≡ true) =
        ground (arith, h) in
      let (front, e) = (ends_with_iff scope (text ":*")).0 both.0 in
      let (rest, k) = (starts_with_iff capability (drop_last scope)).0 both.1 in
      (front, rest, e, k ∙ ap (λ t. t ++ rest) (ap drop_last e ∙ front_of front)),
  λ (front, rest, e, k).
      let last = ap drop_last e ∙ front_of front in
      let ends = (ends_with_iff scope (text ":*")).1 (front, e) in
      let starts =
        (starts_with_iff capability (drop_last scope)).1
          (rest, k ∙ ap (λ t. t ++ rest) (sym last)) in
      rw ends starts,
)

Covers-iff :
    (capability scope : Text)
    → ((text_eq scope (text "*")
          || text_eq scope capability
          || (ends_with scope (text ":*") && starts_with capability (drop_last scope)))
        ≡ true)
      ↔ Covers capability scope
Covers-iff capability scope =
    ground (
      arith,
      text_eq_iff scope (text "*"),
      text_eq_iff scope capability,
      below_iff capability scope,
    )

scope_matches_iff :
    (scopes : List Text) (capability : Text)
    → (scope_matches scopes capability ≡ true) ↔ Some (Covers capability) scopes
unfolding scope_matches
scope_matches_iff scopes capability =
    let every = λ (scope : Text). text_eq scope (text "*") in
    let itself = λ (scope : Text). text_eq scope capability in
    let below =
      λ (scope : Text). ends_with scope (text ":*") && starts_with capability (drop_last scope) in
    let (to, from) =
      Some-iff (Covers capability) (λ scope. every scope || itself scope || below scope)
        (Covers-iff capability) scopes in
    let joined : scope_matches scopes capability
        ≡ any (λ scope. every scope || itself scope || below scope) scopes =
      ground (
        arith,
        any-or every itself scopes,
        any-or (λ scope. every scope || itself scope) below scopes,
      ) in
    (λ e. to (sym joined ∙ e), λ h. joined ∙ from h)

-- The row is in force at a time: no revocation has come yet, nor the end.
abbrev pub InForce : Platform → TokenRow → ℕ → Type 0
InForce p row t =
    ((time : Text) (r : ℕ) → row.revoked_at ≡ some time → p.parse_date time ≡ some r → t < r)
    × ((e : ℕ) → p.parse_date row.expires_at ≡ some e → t < e)

-- What the row permits: the project, by the role, and by a scope.
abbrev pub Permits : TokenRow → Text → Text → Type 0
Permits row project_id capability =
    ((includes row.project_ids (text "*") ≡ true) ⊎ (includes row.project_ids project_id ≡ true))
    × ((includes (role_capabilities row.role) (text "*") ≡ true)
        ⊎ (includes (role_capabilities row.role) capability ≡ true))
    × Some (Covers capability) row.scopes

is_past_iff :
    (p : Platform) (time : Text) (t : ℕ)
    → (is_past p time (some t) ≡ false) ↔ ((e : ℕ) → p.parse_date time ≡ some e → t < e)
unfolding is_past
is_past_iff p time t = elim (Option-cases (p.parse_date time)) [
  | inl invalid ↦ (λ q e k. cc (invalid, k), λ q. rw (invalid, is_past) refl)
  | inr (u, valid) ↦ (
    λ q e k.
        let late : leb u t ≡ false = rw (valid, is_past) at q in
        let same : u ≡ e = some-injective (sym valid ∙ k) in
        subst (λ n. t < n) same (ground (arith, late)),
    λ q. rw (valid, is_past) (ground (arith, q u valid)),
  )
]

is_revoked_iff :
    (p : Platform) (o : Option Text) (t : ℕ)
    → (is_revoked_at p o (some t) ≡ false)
      ↔ ((time : Text) (r : ℕ) → o ≡ some time → p.parse_date time ≡ some r → t < r)
unfolding is_revoked_at
is_revoked_iff p none t = (λ q time r e. cc, λ q. refl)
is_revoked_iff p (some time) t =
    let (to, from) = is_past_iff p time t in
    (
      λ q u r e k. to q r (ap p.parse_date (some-injective e) ∙ k),
      λ q. from (λ e k. q time e refl k),
    )

-- The tests of the function, one after another.
tests_iff :
    (a b c d e : Bool)
    → ((if not a && not b
          then project_forbidden
          else if not c && not d
          then role_forbidden
          else if not e
          then scope_forbidden
          else authorized)
        ≡ authorized)
      ↔ (((a ≡ true) ⊎ (b ≡ true)) × ((c ≡ true) ⊎ (d ≡ true)) × (e ≡ true))
tests_iff a b c d e = ground arith

authorize-ok :
    (row : TokenRow) (project_id capability : Text)
    → (authorize_observer_principal (ok row) project_id capability ≡ authorized)
      ↔ Permits row project_id capability
unfolding authorize_observer_principal
authorize-ok row project_id capability =
    let grants = role_capabilities row.role in
    let (to, from) =
      tests_iff (includes row.project_ids (text "*")) (includes row.project_ids project_id)
        (includes grants (text "*")) (includes grants capability)
        (scope_matches row.scopes capability) in
    let (to', from') = scope_matches_iff row.scopes capability in
    (
      λ q. let (project, role, scope) = to q in (project, role, to' scope),
      λ (project, role, scope). from (project, role, from' scope),
    )

-- Who gets access. At a valid time, a token is authorized for a capability in a project exactly if
-- it hashes to a row of the table that is in force, neither revoked nor expired by then, and that
-- permits it: it names the project or `*`, its role grants the capability or everything, and one of
-- its scopes covers it, as `*`, as the capability itself, or as `front:*` with the capability below
-- `front:`.
pub authorize-resolve :
    (p : Platform) (rows : TokenTable) (token now project_id capability : Text) (t : ℕ)
    → p.parse_date now ≡ some t
    → (authorize_observer_principal
          (resolve_observer_principal p rows token now)
          project_id
          capability
        ≡ authorized)
      ↔ ((hash : Text) × (row : TokenRow) × (hash_observer_token p token ≡ ok hash)
          × (by_hash hash rows ≡ some row)
          × InForce p row t
          × Permits row project_id capability)
unfolding authorize_observer_principal
authorize-resolve p rows token now project_id capability t at_t = (
  λ h. elim (Result-cases (resolve_observer_principal p rows token now)) [
    | inr (refusal, e) ↦ cc (h, ap (λ r. authorize_observer_principal r project_id capability) e)
    | inl (row, e) ↦
        let (hash, ehash, found, unrevoked, unexpired) = resolve-found p rows token now row e in
        let permits =
          (authorize-ok row project_id capability).0
            (sym (ap (λ r. authorize_observer_principal r project_id capability) e) ∙ h) in
        (
          hash,
          row,
          ehash,
          found,
          (
            (is_revoked_iff p row.revoked_at t).0
                (sym (ap (is_revoked_at p row.revoked_at) at_t) ∙ unrevoked),
            (is_past_iff p row.expires_at t).0
                (sym (ap (is_past p row.expires_at) at_t) ∙ unexpired),
          ),
          permits,
        )
  ],
  λ (hash, row, ehash, found, (unrevoked, unexpired), permits).
      let resolves : resolve_observer_principal p rows token now ≡ ok row =
        resolve-ok p rows token now hash ehash
        ∙ ap (λ o. resolve_row p o (p.parse_date now)) found
        ∙ ap (resolve_row p (some row)) at_t
        ∙ resolve_row-some p row t ((is_revoked_iff p row.revoked_at t).1 unrevoked)
            ((is_past_iff p row.expires_at t).1 unexpired) in
      ap (λ r. authorize_observer_principal r project_id capability) resolves
      ∙ (authorize-ok row project_id capability).1 permits,
)
