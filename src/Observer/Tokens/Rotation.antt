-- ===== src/Observer/Tokens/Rotation.antt =====
-- A rotated token stops to resolve, and its successor takes over
-- (packages/observer/src/token-registry.mjs).
use wendkeep.Prelude.{
  ℕ, ◌≤◌, ◌<◌, ◌≡◌, none, some, [], ◌∷◌, map, inl, inr, if◌then◌else◌, sym, ◌∙◌, subst, ap,
  some-injective,
}
use wendkeep.Prelude.Text.{Text}
use wendkeep.Prelude.Result.{Result, ok, err, err-ne-ok, ok-injective}
use wendkeep.Platform.{Platform, IsDocumented}
use wendkeep.Contracts.Strings.{filled}
use wendkeep.Observer.Tokens.{
  token_revoked, token_expired, resolve_row, resolve_observer_principal, revoke_row, RotateInput,
  rotated_input, rotation, rotate_observer_token,
}
use wendkeep.Observer.Tokens.Register.{
  ObserverError, TokenRow, TokenTable, by_id, by_hash, hash_observer_token, sorted_set,
}
use wendkeep.Observer.Tokens.Laws.{rotation-parts, rotate-cases}
use wendkeep.Observer.Tokens.Rows.{IsUnique, insert_row-IsUnique, map-revoke_row-IsUnique}
use wendkeep.Observer.Tokens.Unique.{Grown, Grown-IsUnique}
use wendkeep.Observer.Tokens.Resolve.{
  by_id_of_by_hash, by_hash-map, by_hash-append, by_hash-insert_row, resolve_row-revoked,
  resolve_row-live, resolve_row-expired, revoke_row-time, resolve-ok, resolve-found,
}

-- What a rotation leaves, in the words of its parts.
module _ (p : Platform) (doc : IsDocumented p) (rows after : TokenTable) (i : RotateInput)
    (current row : TokenRow) (now : Text) (t0 t e : ℕ) (unique : IsUnique rows)
    (same_id : current.token_id ≡ i.token_id) (live : current.revoked_at ≡ none)
    (made : rotation p rows current i ≡ ok (after, row))
    (at_t0 : p.parse_date i.rotated_at ≡ some t0) (at_t : p.parse_date now ≡ some t) where
  rotation-old :
      (hash old : Text)
      → hash_observer_token p old ≡ ok hash
      → by_hash hash rows ≡ some current
      → t0 ≤ t
      → resolve_observer_principal p after old now ≡ err token_revoked
  rotation-old hash old ehash found past =
      let (time, etime, parts) = rotation-parts p rows after current row i made in
      let (_, _, _, _, einsert, _, _, _, _, _, _, _, _, _) = parts in
      let stamped = map (revoke_row i.token_id (p.to_iso time)) rows in
      let grown =
        (insert_row-IsUnique row stamped after
          (map-revoke_row-IsUnique i.token_id (p.to_iso time) rows unique) einsert).0 in
      let there_is : by_hash hash after ≡ some (revoke_row i.token_id (p.to_iso time) current) =
        ap (by_hash hash) grown
        ∙ by_hash-append hash stamped (row ∷ []) _
            (by_hash-map i.token_id (p.to_iso time) hash rows current found) in
      let same_time : time ≡ t0 = some-injective (sym etime ∙ at_t0) in
      resolve-ok p after old now hash ehash
      ∙ ap (λ o. resolve_row p o (p.parse_date now)) there_is
      ∙ ap (resolve_row p (some (revoke_row i.token_id (p.to_iso time) current))) at_t
      ∙ resolve_row-revoked p _ (p.to_iso time) time t
          (revoke_row-time i.token_id (p.to_iso time) current same_id live)
          (doc.iso_parses i.rotated_at time etime) (subst (λ n. n ≤ t) (sym same_time) past)

  rotation-new :
      p.parse_date i.expires_at ≡ some e
      → (t < e → resolve_observer_principal p after i.new_token now ≡ ok row)
        × (e ≤ t → resolve_observer_principal p after i.new_token now ≡ err token_expired)
        × (row.role ≡ current.role)
        × (row.project_ids ≡ sorted_set current.project_ids)
        × (row.scopes ≡ sorted_set current.scopes)
        × (row.rotated_from ≡ (if filled i.token_id then some i.token_id else none))
  unfolding rotated_input
  rotation-new until =
      let (time, etime, parts) = rotation-parts p rows after current row i made in
      let (
        hash, expires, ehash, eexpires, einsert, _, erow, erole, eprojects, escopes, eexpiry, enone,
        eorigin, _,
      ) =
        parts in
      let found : by_hash hash after ≡ some row =
        subst (λ h. by_hash h after ≡ some row) erow (by_hash-insert_row _ after row einsert) in
      let same : expires ≡ e = some-injective (sym eexpires ∙ until) in
      let parsed : p.parse_date row.expires_at ≡ some expires =
        ap p.parse_date eexpiry ∙ doc.iso_parses i.expires_at expires eexpires in
      let looks_up : resolve_observer_principal p after i.new_token now
          ≡ resolve_row p (some row) (some t) =
        resolve-ok p after i.new_token now hash ehash
        ∙ ap (λ o. resolve_row p o (p.parse_date now)) found
        ∙ ap (resolve_row p (some row)) at_t in
      (
        λ early.
            looks_up
            ∙ resolve_row-live p row expires t enone parsed (subst (λ n. t < n) (sym same) early),
        λ late.
            looks_up
            ∙ resolve_row-expired p row expires t enone parsed (subst (λ n. n ≤ t) (sym same) late),
        erole,
        eprojects,
        escopes,
        eorigin,
      )

-- Rotation takes effect. In a table that the registry made, let a token resolve, and let a rotation
-- of its row return. From the time of the rotation on, for ever, the old token is refused as revoked.
-- The new one resolves to its row before the time that the rotation names as its expiry, and is
-- refused as expired from then on, which may be at once. Its row has the role, the projects and the
-- scopes of the old one, and names it as its origin.
pub rotate_takes_over :
    (p : Platform) (rows rows' : TokenTable) (i : RotateInput) (held new : TokenRow)
    (old before now : Text) (t0 t e : ℕ)
    → IsDocumented p
    → Grown p rows
    → resolve_observer_principal p rows old before ≡ ok held
    → held.token_id ≡ i.token_id
    → rotate_observer_token p rows i ≡ (rows', ok new)
    → p.parse_date i.rotated_at ≡ some t0
    → p.parse_date now ≡ some t
    → t0 ≤ t
    → p.parse_date i.expires_at ≡ some e
    → (resolve_observer_principal p rows' old now ≡ err token_revoked)
      × (t < e → resolve_observer_principal p rows' i.new_token now ≡ ok new)
      × (e ≤ t → resolve_observer_principal p rows' i.new_token now ≡ err token_expired)
      × (new.role ≡ held.role)
      × (new.project_ids ≡ sorted_set held.project_ids)
      × (new.scopes ≡ sorted_set held.scopes)
      × (new.rotated_from ≡ (if filled i.token_id then some i.token_id else none))
rotate_takes_over p rows rows' i held new old before now t0 t e doc g resolves same_id rotates at_t0
      at_t past until =
    let (hash, ehash, found, _, _) = resolve-found p rows old before held resolves in
    let owned = by_id_of_by_hash rows hash held (Grown-IsUnique p rows g) found in
    elim (rotate-cases p rows i) [
      | inl (x, failed) ↦ absurd (
          err-ne-ok
            (ap (λ (r : TokenTable × Result ObserverError TokenRow). r.1) (sym failed ∙ rotates)))
      | inr (current, after, row, is_current, live, made, done) ↦
          let same : (after, ok row) ≡ (rows', ok new) = sym done ∙ rotates in
          let same_rows = ap (λ (r : TokenTable × Result ObserverError TokenRow). r.0) same in
          let same_row =
            ok-injective (ap (λ (r : TokenTable × Result ObserverError TokenRow). r.1) same) in
          let is_held : held ≡ current =
            some-injective (sym owned ∙ ap (λ id. by_id id rows) same_id ∙ is_current) in
          let own_id : current.token_id ≡ i.token_id =
            sym (ap (λ (r : TokenRow). r.token_id) is_held) ∙ same_id in
          let unique = Grown-IsUnique p rows g in
          let gone =
            rotation-old p doc rows after i current row now t0 t e unique own_id live made at_t0
              at_t hash old ehash (found ∙ ap some is_held) past in
          let (works, ends, role, projects, scopes, origin) =
            rotation-new p doc rows after i current row now t0 t e unique own_id live made at_t0
              at_t until in
          (
            subst (λ table. resolve_observer_principal p table old now ≡ err token_revoked)
                same_rows gone,
            λ early.
                ap (λ table. resolve_observer_principal p table i.new_token now) (sym same_rows)
                ∙ works early
                ∙ ap ok same_row,
            λ late.
                ap (λ table. resolve_observer_principal p table i.new_token now) (sym same_rows)
                ∙ ends late,
            ap (λ (r : TokenRow). r.role) (sym same_row)
                ∙ role
                ∙ ap (λ (r : TokenRow). r.role) (sym is_held),
            ap (λ (r : TokenRow). r.project_ids) (sym same_row)
                ∙ projects
                ∙ ap (λ (r : TokenRow). sorted_set r.project_ids) (sym is_held),
            ap (λ (r : TokenRow). r.scopes) (sym same_row)
                ∙ scopes
                ∙ ap (λ (r : TokenRow). sorted_set r.scopes) (sym is_held),
            ap (λ (r : TokenRow). r.rotated_from) (sym same_row) ∙ origin,
          )
    ]
