-- ===== src/Observer/Tokens/Laws.antt =====
-- The token table keeps its keys unique (packages/observer/src/token-registry.mjs).
use wendkeep.Prelude.{
  ℕ, ◌≡◌, ◌⊎◌, refl, Bool, true, false, not, ◌&&◌, none, some, arith, any, map, inl, inr,
  Option-cases, sym, ◌∙◌, subst, ap, ltb,
}
use wendkeep.Prelude.Text.{Text, text, text_eq, includes}
use wendkeep.Prelude.Result.{ok, err, guard, >>=-eq-ok, guard-ok, ok-injective, Result-cases}
use wendkeep.Platform.{Platform}
use wendkeep.Contracts.Strings.{or_default}
use wendkeep.Observer.Tokens.{
  revoke_row, revoke_observer_token, RotateInput, rotation, is_rotatable, rotate_observer_token,
  rotated_input, commit_or_rollback, bootstrap_input, bootstrap_id, BootstrapInput,
  BootstrapOutcome, report_existing, create_bootstrap,
}
use wendkeep.Observer.Tokens.Register.{
  ObserverError, TokenRow, TokenTable, by_id, valid_time, register_observer_token, rotation_invalid,
  bootstrap_projects_invalid, bootstrap_expired, bootstrap_token_id_conflict, is_nonempty,
}
use wendkeep.Observer.Tokens.Rows.{valid_time-ok, Registers, register-parts}

pub revoke-parts :
    (p : Platform) (rows rows' : TokenTable) (id revoked_at : Text) (changed : Bool)
    → revoke_observer_token p rows id revoked_at ≡ ok (rows', changed)
    → (time : ℕ) × (p.parse_date revoked_at ≡ some time)
      × (rows' ≡ map (revoke_row id (p.to_iso time)) rows)
unfolding revoke_observer_token
revoke-parts p rows rows' id revoked_at changed h =
    let (time, etime, built) = >>=-eq-ok (valid_time p revoked_at) _ h in
    (
      time,
      valid_time-ok p revoked_at time etime,
      sym (ap (λ (x : TokenTable × Bool). x.0) (ok-injective built)),
    )

-- What a rotation that returns has done.
pub rotation-parts :
    (p : Platform) (rows rows' : TokenTable) (current row : TokenRow) (i : RotateInput)
    → rotation p rows current i ≡ ok (rows', row)
    → (time : ℕ) × (p.parse_date i.rotated_at ≡ some time)
      × Registers p
          (map (revoke_row i.token_id (p.to_iso time)) rows)
          (rotated_input i current)
          rows'
          row
unfolding rotation
rotation-parts p rows rows' current row i h =
    let ((after, changed), erevoke, h1) =
      >>=-eq-ok (revoke_observer_token p rows i.token_id i.rotated_at) _ h in
    let (time, etime, same) = revoke-parts p rows after i.token_id i.rotated_at changed erevoke in
    (
      time,
      etime,
      register-parts p _ rows' (rotated_input i current) row (
          subst
            (λ table. register_observer_token p table (rotated_input i current) ≡ ok (rows', row))
            same h1),
    )

-- What a call of `rotateObserverToken` has done: nothing, or a rotation of the row of the id.
pub rotate-cases :
    (p : Platform) (rows : TokenTable) (i : RotateInput)
    → ((e : ObserverError) × (rotate_observer_token p rows i ≡ (rows, err e)))
      ⊎ ((current : TokenRow) × (rows' : TokenTable) × (row : TokenRow) × (by_id i.token_id rows
            ≡ some current)
          × (current.revoked_at ≡ none)
          × (rotation p rows current i ≡ ok (rows', row))
          × (rotate_observer_token p rows i ≡ (rows', ok row)))
unfolding rotate_observer_token is_rotatable commit_or_rollback
rotate-cases p rows i = elim (Option-cases (by_id i.token_id rows)) [
  | inl e ↦ inl (rotation_invalid, rw (e, rotate_observer_token) refl)
  | inr (current, e) ↦ elim (Option-cases current.revoked_at) [
    | inr (t, revoked) ↦ inl (rotation_invalid, rw (e, rotate_observer_token) (rw revoked refl))
    | inl live ↦
        let runs : rotate_observer_token p rows i
            ≡ commit_or_rollback rows (rotation p rows current i) =
          rw (e, rotate_observer_token) (rw live refl) in
        elim (Result-cases (rotation p rows current i)) [
          | inr (x, failed) ↦ inl (x, runs ∙ ap (commit_or_rollback rows) failed)
          | inl ((rows', row), made) ↦
              inr (current, rows', row, e, live, made, runs ∙ ap (commit_or_rollback rows) made)
        ]
  ]
]

pub report_existing-same :
    (p : Platform) (rows rows' : TokenTable) (row : TokenRow) (now : Text) (o : BootstrapOutcome)
    → report_existing p rows row now ≡ ok (rows', o)
    → rows' ≡ rows
unfolding report_existing
report_existing-same p rows rows' row now o h =
    let (_, _, built) = >>=-eq-ok (valid_time p now) _ h in
    sym (ap (λ (x : TokenTable × BootstrapOutcome). x.0) (ok-injective built))

-- A bootstrap credential that is created is registered.
pub create_bootstrap-Registers :
    (p : Platform) (rows rows' : TokenTable) (hash : Text) (i : BootstrapInput)
    (o : BootstrapOutcome)
    → create_bootstrap p rows hash i ≡ ok (rows', o)
    → (expires : ℕ) × (now : ℕ) × (id : Text) × (p.parse_date i.expires_at ≡ some expires)
      × (p.parse_date i.now ≡ some now)
      × (ltb now expires ≡ true)
      × (includes i.project_ids (text "*") ≡ false)
      × Registers p rows (bootstrap_input p i expires id) rows' o.row
unfolding create_bootstrap
create_bootstrap-Registers p rows rows' hash i o h =
    let explicit = is_nonempty i.project_ids && not (includes i.project_ids (text "*")) in
    let (_, echecked, h1) = >>=-eq-ok (guard explicit bootstrap_projects_invalid) _ h in
    let (expires, eexpires, h2) = >>=-eq-ok (valid_time p i.expires_at) _ h1 in
    let (time, etime, h3) = >>=-eq-ok (valid_time p i.now) _ h2 in
    let (_, elive, h4) = >>=-eq-ok (guard (ltb time expires) bootstrap_expired) _ h3 in
    let id = or_default i.token_id (bootstrap_id hash) in
    let free = not (any (λ (r : TokenRow). text_eq r.token_id id) rows) in
    let (_, _, h5) = >>=-eq-ok (guard free bootstrap_token_id_conflict) _ h4 in
    let ((after, row), eregister, built) =
      >>=-eq-ok (register_observer_token p rows (bootstrap_input p i expires id)) _ h5 in
    let same = ok-injective built in
    (
      expires,
      time,
      id,
      valid_time-ok p i.expires_at expires eexpires,
      valid_time-ok p i.now time etime,
      guard-ok (ltb time expires) bootstrap_expired elive,
      ground (arith, guard-ok explicit bootstrap_projects_invalid echecked),
      subst
          (λ (x : TokenTable × BootstrapOutcome).
            Registers p rows (bootstrap_input p i expires id) x.0 x.1.row)
          same (register-parts p rows after (bootstrap_input p i expires id) row eregister),
    )
