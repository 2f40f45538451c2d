-- ===== src/Observer/Tokens/Persists.antt =====
-- A row of the token table is found again, as it was or revoked
-- (packages/observer/src/token-registry.mjs).
use wendkeep.Prelude.{
  ◌≡◌, ◌⊎◌, refl, none, some, [], ◌∷◌, map, inl, inr, Bool-cases, Option-cases, sym, ◌∙◌, subst, ap,
}
use wendkeep.Prelude.Text.{Text, text_eq}
use wendkeep.Prelude.Result.{Result, ok, >>=-eq-ok}
use wendkeep.Platform.{Platform}
use wendkeep.Observer.Tokens.{
  revoke_row, rotated_input, RotateInput, rotate_observer_token, BootstrapInput, BootstrapOutcome,
  bootstrap_input, ensure_observer_bootstrap_token,
}
use wendkeep.Observer.Tokens.Register.{
  ObserverError, TokenRow, TokenTable, by_hash, hash_observer_token, insert_row, RegisterInput,
}
use wendkeep.Observer.Tokens.Laws.{
  revoke-parts, rotation-parts, rotate-cases, report_existing-same, create_bootstrap-Registers,
}
use wendkeep.Observer.Tokens.Rows.{Registers, insert_row-ok, register-parts}
use wendkeep.Observer.Tokens.Resolve.{by_hash-map, by_hash-append}
use wendkeep.Observer.Tokens.Unique.{Later, fresh, registered, revoked, rotated, bootstrapped}

-- A row is as it was, except that it may have been revoked if it was not.
abbrev pub Persists : TokenRow → TokenRow → Type 0
Persists row row' =
    (row' ≡ row)
    ⊎ ((row.revoked_at ≡ none) × ((time : Text) × (row' ≡ record row { revoked_at = some time })))

Persists-trans : (a b c : TokenRow) → Persists a b → Persists b c → Persists a c
Persists-trans a b c (inl e) k = subst (λ x. Persists x c) e k
Persists-trans a b c (inr (live, (time, e))) (inl k) = inr (live, (time, k ∙ e))
Persists-trans a b c (inr (live, (time, e))) (inr (still, _)) =
    cc (still, ap (λ (r : TokenRow). r.revoked_at) e)

-- Every row is found again under its hash.
abbrev Keeps : TokenTable → TokenTable → Type 0
Keeps rows rows' =
    (hash : Text) (row : TokenRow)
    → by_hash hash rows ≡ some row
    → (row' : TokenRow) × (by_hash hash rows' ≡ some row') × Persists row row'

Keeps-trans : (a b c : TokenTable) → Keeps a b → Keeps b c → Keeps a c
Keeps-trans a b c h k hash row found =
    let (row', found', kept) = h hash row found in
    let (row'', found'', kept') = k hash row' found' in
    (row'', found'', Persists-trans row row' row'' kept kept')

Keeps-same : (rows rows' : TokenTable) → rows' ≡ rows → Keeps rows rows'
Keeps-same rows rows' e hash row found = (row, ap (by_hash hash) e ∙ found, inl refl)

insert_row-Keeps :
    (row : TokenRow) (rows rows' : TokenTable) → insert_row row rows ≡ ok rows' → Keeps rows rows'
insert_row-Keeps row rows rows' h hash held found =
    let (_, same) = insert_row-ok row rows rows' h in
    (held, ap (by_hash hash) (sym same) ∙ by_hash-append hash rows (row ∷ []) held found, inl refl)

revoke_row-Persists : (id time : Text) (row : TokenRow) → Persists row (revoke_row id time row)
unfolding revoke_row
revoke_row-Persists id time row = elim (Bool-cases (text_eq row.token_id id)) [
  | inr e ↦ rw e (inl refl)
  | inl e ↦ elim (Option-cases row.revoked_at) [
    | inl live ↦ inr (live, (time, rw (e, live) refl))
    | inr (t, gone) ↦ inl (rw e (cc gone))
  ]
]

map-revoke_row-Keeps :
    (id time : Text) (rows : TokenTable) → Keeps rows (map (revoke_row id time) rows)
map-revoke_row-Keeps id time rows hash row found = (
  revoke_row id time row,
  by_hash-map id time hash rows row found,
  revoke_row-Persists id time row,
)

Registers-Keeps :
    (p : Platform) (rows rows' : TokenTable) (i : RegisterInput) (row : TokenRow)
    → Registers p rows i rows' row
    → Keeps rows rows'
Registers-Keeps p rows rows' i row parts =
    let (_, _, _, _, einsert, _, _, _, _, _, _, _, _, _) = parts in
    insert_row-Keeps row rows rows' einsert

rotate-Keeps :
    (p : Platform) (rows : TokenTable) (i : RotateInput)
    → Keeps rows (rotate_observer_token p rows i).0
rotate-Keeps p rows i = elim (rotate-cases p rows i) [
  | inl (e, same) ↦
      Keeps-same rows (rotate_observer_token p rows i).0
        (ap (λ (x : TokenTable × Result ObserverError TokenRow). x.0) same)
  | inr (current, rows', row, _, _, made, same) ↦
      let (time, _, parts) = rotation-parts p rows rows' current row i made in
      let stamped = map (revoke_row i.token_id (p.to_iso time)) rows in
      subst (λ (x : TokenTable × Result ObserverError TokenRow). Keeps rows x.0) (sym same)
        (Keeps-trans rows stamped rows' (map-revoke_row-Keeps i.token_id (p.to_iso time) rows)
          (Registers-Keeps p stamped rows' (rotated_input i current) row parts))
]

bootstrap-Keeps :
    (p : Platform) (rows rows' : TokenTable) (i : BootstrapInput) (o : BootstrapOutcome)
    → ensure_observer_bootstrap_token p rows i ≡ ok (rows', o)
    → Keeps rows rows'
unfolding ensure_observer_bootstrap_token
bootstrap-Keeps p rows rows' i o h =
    let (hash, _, h1) = >>=-eq-ok (hash_observer_token p i.token) _ h in
    elim (Option-cases (by_hash hash rows)) [
      | inl e ↦
          let (expires, _, id, _, _, _, _, parts) =
            create_bootstrap-Registers p rows rows' hash i o (rw e at h1) in
          Registers-Keeps p rows rows' (bootstrap_input p i expires id) o.row parts
      | inr (row, e) ↦
          Keeps-same rows rows' (report_existing-same p rows rows' row i.now o (rw e at h1))
    ]

pub Later-Keeps : (p : Platform) (first rows : TokenTable) → Later p first rows → Keeps first rows
Later-Keeps p first _ fresh = Keeps-same first first refl
Later-Keeps p first rows (registered i {rows = before} {row = row} l h) =
    Keeps-trans first before rows (Later-Keeps p first before l)
      (Registers-Keeps p before rows i row (register-parts p before rows i row h))
Later-Keeps p first rows (revoked id revoked_at {rows = before} {changed = changed} l h) =
    let (time, _, same) = revoke-parts p before rows id revoked_at changed h in
    Keeps-trans first before rows (Later-Keeps p first before l)
      (subst (Keeps before) (sym same) (map-revoke_row-Keeps id (p.to_iso time) before))
Later-Keeps p first _ (rotated i {rows = before} l) =
    Keeps-trans first before (rotate_observer_token p before i).0 (Later-Keeps p first before l)
      (rotate-Keeps p before i)
Later-Keeps p first rows (bootstrapped i {rows = before} {o = o} l h) =
    Keeps-trans first before rows (Later-Keeps p first before l)
      (bootstrap-Keeps p before rows i o h)
