-- ===== src/Observer/Tokens/Unique.antt =====
-- No two rows of the token table share a key (packages/observer/src/token-registry.mjs).
use wendkeep.Prelude.{◌≡◌, Bool, [], inl, inr, Option-cases, sym, subst}
use wendkeep.Prelude.Text.{Text}
use wendkeep.Prelude.Result.{Result, ok, >>=-eq-ok}
use wendkeep.Platform.{Platform}
use wendkeep.Observer.Tokens.{
  revoke_observer_token, RotateInput, rotated_input, rotate_observer_token, BootstrapInput,
  BootstrapOutcome, bootstrap_input, ensure_observer_bootstrap_token,
}
use wendkeep.Observer.Tokens.Register.{
  ObserverError, TokenRow, TokenTable, by_hash, hash_observer_token, RegisterInput,
  register_observer_token,
}
use wendkeep.Observer.Tokens.Laws.{
  revoke-parts, rotation-parts, rotate-cases, report_existing-same, create_bootstrap-Registers,
}
use wendkeep.Observer.Tokens.Rows.{
  IsUnique, Registers, insert_row-IsUnique, register-IsUnique, map-revoke_row-IsUnique,
}

-- The tables that the functions of the registry make out of a first one.
pub data Later (p : Platform) (first : TokenTable) : TokenTable → Type 0 where
  fresh : Later p first first
  registered :
      (i : RegisterInput) {rows rows' : TokenTable} {row : TokenRow}
      → Later p first rows
      → register_observer_token p rows i ≡ ok (rows', row)
      → Later p first rows'
  revoked :
      (id revoked_at : Text) {rows rows' : TokenTable} {changed : Bool}
      → Later p first rows
      → revoke_observer_token p rows id revoked_at ≡ ok (rows', changed)
      → Later p first rows'
  rotated :
      (i : RotateInput) {rows : TokenTable}
      → Later p first rows
      → Later p first (rotate_observer_token p rows i).0
  bootstrapped :
      (i : BootstrapInput) {rows rows' : TokenTable} {o : BootstrapOutcome}
      → Later p first rows
      → ensure_observer_bootstrap_token p rows i ≡ ok (rows', o)
      → Later p first rows'

-- The tables that they make out of an empty one.
abbrev pub Grown : Platform → TokenTable → Type 0
Grown p rows = Later p [] rows

Registers-IsUnique :
    (p : Platform) (rows rows' : TokenTable) (i : RegisterInput) (row : TokenRow)
    → IsUnique rows
    → Registers p rows i rows' row
    → IsUnique rows'
Registers-IsUnique p rows rows' i row u parts =
    let (_, _, _, _, einsert, _, _, _, _, _, _, _, _, _) = parts in
    (insert_row-IsUnique row rows rows' u einsert).1

rotate-IsUnique :
    (p : Platform) (rows : TokenTable) (i : RotateInput)
    → IsUnique rows
    → IsUnique (rotate_observer_token p rows i).0
rotate-IsUnique p rows i u = elim (rotate-cases p rows i) [
  | inl (e, same) ↦
      subst (λ (x : TokenTable × Result ObserverError TokenRow). IsUnique x.0) (sym same) u
  | inr (current, rows', row, _, _, made, same) ↦
      let (time, _, parts) = rotation-parts p rows rows' current row i made in
      subst (λ (x : TokenTable × Result ObserverError TokenRow). IsUnique x.0) (sym same)
        (Registers-IsUnique p _ rows' (rotated_input i current) row
          (map-revoke_row-IsUnique i.token_id (p.to_iso time) rows u) parts)
]

bootstrap-IsUnique :
    (p : Platform) (rows rows' : TokenTable) (i : BootstrapInput) (o : BootstrapOutcome)
    → IsUnique rows
    → ensure_observer_bootstrap_token p rows i ≡ ok (rows', o)
    → IsUnique rows'
unfolding ensure_observer_bootstrap_token
bootstrap-IsUnique p rows rows' i o u h =
    let (hash, _, h1) = >>=-eq-ok (hash_observer_token p i.token) _ h in
    elim (Option-cases (by_hash hash rows)) [
      | inl e ↦
          let (expires, _, id, _, _, _, _, parts) =
            create_bootstrap-Registers p rows rows' hash i o (rw e at h1) in
          Registers-IsUnique p rows rows' (bootstrap_input p i expires id) o.row u parts
      | inr (row, e) ↦
          subst IsUnique (sym (report_existing-same p rows rows' row i.now o (rw e at h1))) u
    ]

pub Grown-IsUnique : (p : Platform) (rows : TokenTable) → Grown p rows → IsUnique rows
Grown-IsUnique p _ fresh = tt
Grown-IsUnique p rows (registered i {rows = before} {row = row} g h) =
    register-IsUnique p before rows i row (Grown-IsUnique p before g) h
Grown-IsUnique p rows (revoked id revoked_at {rows = before} {changed = changed} g h) =
    let (time, _, same) = revoke-parts p before rows id revoked_at changed h in
    subst IsUnique (sym same)
      (map-revoke_row-IsUnique id (p.to_iso time) before (Grown-IsUnique p before g))
Grown-IsUnique p _ (rotated i {rows = before} g) =
    rotate-IsUnique p before i (Grown-IsUnique p before g)
Grown-IsUnique p rows (bootstrapped i {rows = before} {o = o} g h) =
    bootstrap-IsUnique p before rows i o (Grown-IsUnique p before g) h
