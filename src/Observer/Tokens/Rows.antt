-- ===== src/Observer/Tokens/Rows.antt =====
-- The keys of the rows of the token table (packages/observer/src/token-registry.mjs).
use wendkeep.Prelude.{
  ℕ, ◌≡◌, refl, true, false, ◌||◌, none, some, [], ◌∷◌, ◌++◌, arith, any, map, All, inl, inr,
  Bool-cases, sym, ◌∙◌, subst, ap,
}
use wendkeep.Prelude.Text.{Text, text_eq, text_eq_iff, includes}
use wendkeep.Prelude.Result.{ok, guard, >>=-eq-ok, guard-ok, ok-injective, err-ne-ok}
use wendkeep.Platform.{Platform}
use wendkeep.Observer.Tokens.{revoke_row}
use wendkeep.Observer.Tokens.Register.{
  TokenRow, TokenTable, hash_observer_token, valid_time, insert_row, is_dangling, RegisterInput,
  register_observer_token, role_invalid, projects_invalid, scopes_invalid, is_nonempty, roles,
  sorted_set,
}

-- Another id, and another hash.
abbrev pub Differs : TokenRow → TokenRow → Type 0
Differs r q = (text_eq q.token_id r.token_id ≡ false) × (text_eq q.token_hash r.token_hash ≡ false)

-- No two rows have the same id or the same hash.
abbrev pub IsUnique : TokenTable → Type 0
IsUnique [] = Unit
IsUnique (r ∷ rows) = All (Differs r) rows × IsUnique rows

IsUnique-snoc :
    (rows : TokenTable) (row : TokenRow)
    → IsUnique rows
    → any
        (λ (r : TokenRow). text_eq r.token_id row.token_id || text_eq r.token_hash row.token_hash)
        rows
      ≡ false
    → IsUnique (rows ++ row ∷ [])
IsUnique-snoc [] row u h = (tt, tt)
IsUnique-snoc (r ∷ rows) row u h = (
  All-snoc rows u.0 (
      ground (
        arith,
        h,
        text_eq_iff r.token_id row.token_id,
        text_eq_iff row.token_id r.token_id,
        text_eq_iff r.token_hash row.token_hash,
        text_eq_iff row.token_hash r.token_hash,
      )),
  IsUnique-snoc rows row u.1 (ground (arith, h)),
)
  where
    All-snoc :
        (qs : TokenTable) → All (Differs r) qs → Differs r row → All (Differs r) (qs ++ row ∷ [])
    All-snoc [] a d = (d, tt)
    All-snoc (q ∷ qs) a d = (a.0, All-snoc qs a.1 d)

-- A row that was inserted is the last, and repeats no key.
pub insert_row-ok :
    (row : TokenRow) (rows rows' : TokenTable)
    → insert_row row rows ≡ ok rows'
    → (any
          (λ (r : TokenRow). text_eq r.token_id row.token_id || text_eq r.token_hash row.token_hash)
          rows
        ≡ false)
      × (rows ++ row ∷ [] ≡ rows')
unfolding insert_row
insert_row-ok row rows rows' h =
    let taken =
      any (λ (r : TokenRow). text_eq r.token_id row.token_id || text_eq r.token_hash row.token_hash)
        rows in
    elim (Bool-cases taken) [
      | inl e ↦ absurd (err-ne-ok (rw e at h))
      | inr e ↦ elim (Bool-cases (is_dangling row.rotated_from (rows ++ row ∷ []))) [
        | inl k ↦ absurd (err-ne-ok (rw (e, k) at h))
        | inr k ↦ (e, ok-injective (rw (e, k) at h))
      ]
    ]

pub insert_row-IsUnique :
    (row : TokenRow) (rows rows' : TokenTable)
    → IsUnique rows
    → insert_row row rows ≡ ok rows'
    → (rows' ≡ rows ++ row ∷ []) × IsUnique rows'
insert_row-IsUnique row rows rows' u h =
    let (free, same) = insert_row-ok row rows rows' h in
    (sym same, subst IsUnique same (IsUnique-snoc rows row u free))

pub valid_time-ok :
    (p : Platform) (value : Text) (t : ℕ) → valid_time p value ≡ ok t → p.parse_date value ≡ some t
unfolding valid_time
valid_time-ok p value t h = ground (arith, h)

-- What a registration that returns has done.
abbrev pub Registers : Platform → TokenTable → RegisterInput → TokenTable → TokenRow → Type 0
Registers p rows i rows' row =
    (hash : Text) × (expires : ℕ) × (hash_observer_token p i.token ≡ ok hash)
    × (p.parse_date i.expires_at ≡ some expires)
    × (insert_row row rows ≡ ok rows')
    × (row.token_id ≡ i.token_id)
    × (row.token_hash ≡ hash)
    × (row.role ≡ i.role)
    × (row.project_ids ≡ sorted_set i.project_ids)
    × (row.scopes ≡ sorted_set i.scopes)
    × (row.expires_at ≡ p.to_iso expires)
    × (row.revoked_at ≡ none)
    × (row.rotated_from ≡ i.rotated_from)
    × (includes roles row.role ≡ true)

pub register-parts :
    (p : Platform) (rows rows' : TokenTable) (i : RegisterInput) (row : TokenRow)
    → register_observer_token p rows i ≡ ok (rows', row)
    → Registers p rows i rows' row
unfolding register_observer_token
register-parts p rows rows' i row h =
    let (_, erole, h1) = >>=-eq-ok (guard (includes roles i.role) role_invalid) _ h in
    let (_, _, h2) = >>=-eq-ok (guard (is_nonempty i.project_ids) projects_invalid) _ h1 in
    let (_, _, h3) = >>=-eq-ok (guard (is_nonempty i.scopes) scopes_invalid) _ h2 in
    let (hash, ehash, h4) = >>=-eq-ok (hash_observer_token p i.token) _ h3 in
    let (created, _, h5) = >>=-eq-ok (valid_time p i.created_at) _ h4 in
    let (expires, eexpires, h6) = >>=-eq-ok (valid_time p i.expires_at) _ h5 in
    let made : TokenRow = record {
      token_id = i.token_id;
      token_hash = hash;
      role = i.role;
      project_ids = sorted_set i.project_ids;
      scopes = sorted_set i.scopes;
      created_at = p.to_iso created;
      expires_at = p.to_iso expires;
      revoked_at = none;
      rotated_from = i.rotated_from;
    } in
    let (after, einsert, built) = >>=-eq-ok (insert_row made rows) _ h6 in
    let same = ok-injective built in
    let same_row : made ≡ row = ap (λ (x : TokenTable × TokenRow). x.1) same in
    let same_rows : after ≡ rows' = ap (λ (x : TokenTable × TokenRow). x.0) same in
    subst (Registers p rows i rows') same_row (
      hash,
      expires,
      ehash,
      valid_time-ok p i.expires_at expires eexpires,
      einsert ∙ ap ok same_rows,
      refl,
      refl,
      refl,
      refl,
      refl,
      refl,
      refl,
      refl,
      guard-ok (includes roles i.role) role_invalid erole,
    )

pub register-IsUnique :
    (p : Platform) (rows rows' : TokenTable) (i : RegisterInput) (row : TokenRow)
    → IsUnique rows
    → register_observer_token p rows i ≡ ok (rows', row)
    → IsUnique rows'
register-IsUnique p rows rows' i row u h =
    let (_, _, _, _, einsert, _, _, _, _, _, _, _, _, _) = register-parts p rows rows' i row h in
    (insert_row-IsUnique row rows rows' u einsert).1

pub revoke_row-keys :
    (id time : Text) (r : TokenRow)
    → ((revoke_row id time r).token_id ≡ r.token_id)
      × ((revoke_row id time r).token_hash ≡ r.token_hash)
unfolding revoke_row
revoke_row-keys id time r = elim (Bool-cases (text_eq r.token_id id)) [
  | inl e ↦ rw e (refl, refl)
  | inr e ↦ rw e (refl, refl)
]

All-revoke_row :
    (id time : Text) (r : TokenRow) (rows : TokenTable)
    → All (Differs r) rows
    → All (Differs (revoke_row id time r)) (map (revoke_row id time) rows)
All-revoke_row id time r [] a = tt
All-revoke_row id time r (q ∷ rows) a =
    let (same_id, same_hash) = revoke_row-keys id time r in
    let (other_id, other_hash) = revoke_row-keys id time q in
    (
      (rw (same_id, other_id) a.0.0, rw (same_hash, other_hash) a.0.1),
      All-revoke_row id time r rows a.1,
    )

pub map-revoke_row-IsUnique :
    (id time : Text) (rows : TokenTable) → IsUnique rows → IsUnique (map (revoke_row id time) rows)
map-revoke_row-IsUnique id time [] u = tt
map-revoke_row-IsUnique id time (r ∷ rows) u =
    (All-revoke_row id time r rows u.0, map-revoke_row-IsUnique id time rows u.1)
