-- ===== src/Observer/Tokens/Resolve.antt =====
-- What `resolveObserverPrincipal` finds in the token table
-- (packages/observer/src/token-registry.mjs).
use wendkeep.Prelude.{
  ℕ, ◌≤◌, ◌<◌, ◌≡◌, refl, Bool, true, false, ◌||◌, leb, Option, none, some, List, [], ◌∷◌, ◌++◌,
  arith, any, find, map, All, inl, inr, Bool-cases, sym, ◌∙◌, subst, ap, some-injective,
}
use wendkeep.Prelude.Text.{Text, text_eq, text_eq_refl, text_eq_iff}
use wendkeep.Prelude.Result.{Result, ok, err, Result-cases, err-ne-ok, ok-injective}
use wendkeep.Platform.{Platform}
use wendkeep.Observer.Tokens.{
  token_missing, token_revoked, token_expired, is_past, is_revoked_at, resolve_row,
  resolve_observer_principal, revoke_row,
}
use wendkeep.Observer.Tokens.Register.{
  ObserverError, TokenRow, TokenTable, by_id, by_hash, hash_observer_token, insert_row,
}
use wendkeep.Observer.Tokens.Rows.{Differs, IsUnique, insert_row-ok, revoke_row-keys}

find-All {ℓ κ} :
    {A : Type ℓ} (P : A → Type κ) (test : A → Bool) (xs : List A) (x : A)
    → All P xs
    → find test xs ≡ some x
    → P x
find-All P test [] x a h = cc
find-All P test (y ∷ ys) x a h = elim (Bool-cases (test y)) [
  | inl e ↦ subst P (some-injective (rw e at h)) a.0
  | inr e ↦ find-All P test ys x a.1 (rw e at h)
]

-- With unique rows, the row of a hash is also the row of its id.
pub by_id_of_by_hash :
    (rows : TokenTable) (hash : Text) (row : TokenRow)
    → IsUnique rows
    → by_hash hash rows ≡ some row
    → by_id row.token_id rows ≡ some row
by_id_of_by_hash [] hash row u h = cc
by_id_of_by_hash (r ∷ rows) hash row u h = elim (Bool-cases (text_eq r.token_hash hash)) [
  | inl e ↦
      let same = some-injective (rw e at h) in
      subst (λ (x : TokenRow). by_id x.token_id (r ∷ rows) ≡ some x) same
        (rw (text_eq_refl r.token_id) refl)
  | inr e ↦
      let later = rw e at h in
      let other =
        (find-All (Differs r) (λ (q : TokenRow). text_eq q.token_hash hash) rows row u.0 later).0 in
      let flipped : text_eq r.token_id row.token_id ≡ false =
        ground (
          arith,
          other,
          text_eq_iff r.token_id row.token_id,
          text_eq_iff row.token_id r.token_id,
        ) in
      rw flipped (by_id_of_by_hash rows hash row u.1 later)
]

pub by_hash-map :
    (id time hash : Text) (rows : TokenTable) (row : TokenRow)
    → by_hash hash rows ≡ some row
    → by_hash hash (map (revoke_row id time) rows) ≡ some (revoke_row id time row)
by_hash-map id time hash [] row h = cc
by_hash-map id time hash (r ∷ rows) row h =
    let same_hash = ap (λ s. text_eq s hash) (revoke_row-keys id time r).1 in
    elim (Bool-cases (text_eq r.token_hash hash)) [
      | inl e ↦
          rw (same_hash ∙ e) (ap (λ x. some (revoke_row id time x)) (some-injective (rw e at h)))
      | inr e ↦ rw (same_hash ∙ e) (by_hash-map id time hash rows row (rw e at h))
    ]

pub by_hash-append :
    (hash : Text) (rows more : TokenTable) (row : TokenRow)
    → by_hash hash rows ≡ some row
    → by_hash hash (rows ++ more) ≡ some row
by_hash-append hash [] more row h = cc
by_hash-append hash (r ∷ rows) more row h = elim (Bool-cases (text_eq r.token_hash hash)) [
  | inl e ↦ rw e (rw e at h)
  | inr e ↦ rw e (by_hash-append hash rows more row (rw e at h))
]

pub by_hash-insert_row :
    (rows rows' : TokenTable) (row : TokenRow)
    → insert_row row rows ≡ ok rows'
    → by_hash row.token_hash rows' ≡ some row
by_hash-insert_row rows rows' row h =
    let (free, same) = insert_row-ok row rows rows' h in
    subst (λ table. by_hash row.token_hash table ≡ some row) same (at_end rows free)
  where
    at_end :
        (xs : TokenTable)
        → any
            (λ (r : TokenRow).
              text_eq r.token_id row.token_id || text_eq r.token_hash row.token_hash)
            xs
          ≡ false
        → by_hash row.token_hash (xs ++ row ∷ []) ≡ some row
    at_end [] e = rw (text_eq_refl row.token_hash) refl
    at_end (x ∷ xs) e = ground (arith, e, at_end xs)

pub resolve_row-ok :
    (p : Platform) (o : Option TokenRow) (timestamp : Option ℕ) (row : TokenRow)
    → resolve_row p o timestamp ≡ ok row
    → (o ≡ some row)
      × (is_revoked_at p row.revoked_at timestamp ≡ false)
      × (is_past p row.expires_at timestamp ≡ false)
unfolding resolve_row
resolve_row-ok p none timestamp row h = absurd (err-ne-ok h)
resolve_row-ok p (some r) timestamp row h =
    elim (Bool-cases (is_revoked_at p r.revoked_at timestamp)) [
      | inl e ↦ absurd (err-ne-ok (rw e at h))
      | inr e ↦ elim (Bool-cases (is_past p r.expires_at timestamp)) [
        | inl k ↦ absurd (err-ne-ok (rw (e, k) at h))
        | inr k ↦
            let same = ok-injective (rw (e, k) at h) in
            (
              ap some same,
              subst (λ (x : TokenRow). is_revoked_at p x.revoked_at timestamp ≡ false) same e,
              subst (λ (x : TokenRow). is_past p x.expires_at timestamp ≡ false) same k,
            )
      ]
    ]

pub resolve_row-some :
    (p : Platform) (row : TokenRow) (t : ℕ)
    → is_revoked_at p row.revoked_at (some t) ≡ false
    → is_past p row.expires_at (some t) ≡ false
    → resolve_row p (some row) (some t) ≡ ok row
unfolding resolve_row
resolve_row-some p row t unrevoked unexpired = rw (unrevoked, unexpired) refl

-- A row with a time of revocation that has come is refused as revoked.
pub resolve_row-revoked :
    (p : Platform) (row : TokenRow) (time : Text) (t0 t : ℕ)
    → row.revoked_at ≡ some time
    → p.parse_date time ≡ some t0
    → t0 ≤ t
    → resolve_row p (some row) (some t) ≡ err token_revoked
unfolding resolve_row is_revoked_at is_past
resolve_row-revoked p row time t0 t e parsed past =
    let over : is_revoked_at p row.revoked_at (some t) ≡ true =
      ap (λ o. is_revoked_at p o (some t)) e
      ∙ ap (λ o. elim o [ none ↦ false | some u ↦ leb u t ]) parsed
      ∙ ground (arith, past) in
    rw over refl

pub resolve_row-live :
    (p : Platform) (row : TokenRow) (e t : ℕ)
    → row.revoked_at ≡ none
    → p.parse_date row.expires_at ≡ some e
    → t < e
    → resolve_row p (some row) (some t) ≡ ok row
unfolding resolve_row is_revoked_at is_past
resolve_row-live p row e t live parsed early =
    let free : is_revoked_at p row.revoked_at (some t) ≡ false =
      ap (λ o. is_revoked_at p o (some t)) live in
    let unexpired : is_past p row.expires_at (some t) ≡ false =
      ap (λ o. elim o [ none ↦ false | some u ↦ leb u t ]) parsed ∙ ground (arith, early) in
    resolve_row-some p row t free unexpired

pub resolve_row-expired :
    (p : Platform) (row : TokenRow) (e t : ℕ)
    → row.revoked_at ≡ none
    → p.parse_date row.expires_at ≡ some e
    → e ≤ t
    → resolve_row p (some row) (some t) ≡ err token_expired
unfolding resolve_row is_revoked_at is_past
resolve_row-expired p row e t live parsed late =
    let free : is_revoked_at p row.revoked_at (some t) ≡ false =
      ap (λ o. is_revoked_at p o (some t)) live in
    let expired : is_past p row.expires_at (some t) ≡ true =
      ap (λ o. elim o [ none ↦ false | some u ↦ leb u t ]) parsed ∙ ground (arith, late) in
    rw (free, expired) refl

pub revoke_row-time :
    (id time : Text) (row : TokenRow)
    → row.token_id ≡ id
    → row.revoked_at ≡ none
    → (revoke_row id time row).revoked_at ≡ some time
unfolding revoke_row
revoke_row-time id time row same live = ground (arith, same, live, text_eq_refl id)

pub resolve-ok :
    (p : Platform) (rows : TokenTable) (token now hash : Text)
    → hash_observer_token p token ≡ ok hash
    → resolve_observer_principal p rows token now
      ≡ resolve_row p (by_hash hash rows) (p.parse_date now)
unfolding resolve_observer_principal
resolve-ok p rows token now hash e =
    ap
      (λ (r : Result ObserverError Text). elim r [
        | err x ↦ err token_missing
        | ok h ↦ resolve_row p (by_hash h rows) (p.parse_date now)
      ])
      e

-- A token that resolves has a hash, and the row of that hash is the one that it resolves to.
pub resolve-found :
    (p : Platform) (rows : TokenTable) (token now : Text) (row : TokenRow)
    → resolve_observer_principal p rows token now ≡ ok row
    → (hash : Text) × (hash_observer_token p token ≡ ok hash)
      × (by_hash hash rows ≡ some row)
      × (is_revoked_at p row.revoked_at (p.parse_date now) ≡ false)
      × (is_past p row.expires_at (p.parse_date now) ≡ false)
unfolding resolve_observer_principal
resolve-found p rows token now row h = elim (Result-cases (hash_observer_token p token)) [
  | inr (x, e) ↦ absurd (err-ne-ok (rw (e, resolve_observer_principal) at h))
  | inl (hash, e) ↦
      let h' = sym (resolve-ok p rows token now hash e) ∙ h in
      let (found, live, unexpired) =
        resolve_row-ok p (by_hash hash rows) (p.parse_date now) row h' in
      (hash, e, found, live, unexpired)
]
