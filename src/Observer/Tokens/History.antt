-- ===== src/Observer/Tokens/History.antt =====
-- What becomes of a token over time (packages/observer/src/token-registry.mjs).
use wendkeep.Prelude.{
  ℕ, ◌≤◌, ◌≡◌, ◌≢◌, ◌⊎◌, refl, Bool, true, false, Option, none, some, arith, inl, inr, Bool-cases,
  Option-cases, sym, ◌∙◌, subst, ap, some-injective, leb,
}
use wendkeep.Prelude.Text.{Text}
use wendkeep.Prelude.Result.{ok, err, err-ne-ok, err-injective, Result-cases, ok-injective}
use wendkeep.Platform.{Platform}
use wendkeep.Observer.Tokens.{
  token_missing, token_unknown, token_revoked, token_expired, Refusal, is_past, is_revoked_at,
  resolve_row, resolve_observer_principal,
}
use wendkeep.Observer.Tokens.Register.{TokenRow, TokenTable, by_hash, hash_observer_token}
use wendkeep.Observer.Tokens.Resolve.{resolve-ok, resolve-found}
use wendkeep.Observer.Tokens.Unique.{Later}
use wendkeep.Observer.Tokens.Persists.{Persists, Later-Keeps}

is_past_later :
    (p : Platform) (time : Text) (t0 t : ℕ)
    → t0 ≤ t
    → is_past p time (some t0) ≡ true
    → is_past p time (some t) ≡ true
unfolding is_past
is_past_later p time t0 t later h =
    let past : ℕ → Option ℕ → Bool = λ n o. elim o [ none ↦ false | some u ↦ leb u n ] in
    elim (Option-cases (p.parse_date time)) [
      | inl e ↦ absurd (no_date (sym h ∙ ap (past t0) e))
      | inr (u, e) ↦
          let there : leb u t0 ≡ true = sym (ap (past t0) e) ∙ h in
          ap (past t) e ∙ ground (arith, later, there)
    ]
  where
    no_date : true ≡ false → ⊥
    no_date e = cc

-- What a refused row comes to.
resolve_row-refused :
    (p : Platform) (row : TokenRow) (t : ℕ) (x : Refusal)
    → resolve_row p (some row) (some t) ≡ err x
    → ((x ≡ token_revoked) × (is_revoked_at p row.revoked_at (some t) ≡ true))
      ⊎ ((x ≡ token_expired) × (is_past p row.expires_at (some t) ≡ true))
unfolding resolve_row
resolve_row-refused p row t x h = elim (Bool-cases (is_revoked_at p row.revoked_at (some t))) [
  | inl e ↦ inl (sym (err-injective (rw e at h)), e)
  | inr e ↦ elim (Bool-cases (is_past p row.expires_at (some t))) [
    | inl k ↦ inr (sym (err-injective (rw (e, k) at h)), k)
    | inr k ↦ absurd (err-ne-ok (sym (rw (e, k) at h)))
  ]
]

-- The row of a token that is known, and how it is resolved.
resolve-known :
    (p : Platform) (rows : TokenTable) (token now : Text) (t : ℕ) (x : Refusal)
    → p.parse_date now ≡ some t
    → x ≢ token_missing
    → x ≢ token_unknown
    → resolve_observer_principal p rows token now ≡ err x
    → (hash : Text) × (row : TokenRow) × (hash_observer_token p token ≡ ok hash)
      × (by_hash hash rows ≡ some row)
      × (resolve_row p (some row) (some t) ≡ err x)
unfolding resolve_observer_principal resolve_row
resolve-known p rows token now t x at_t given known h =
    elim (Result-cases (hash_observer_token p token)) [
      | inr (y, e) ↦ absurd (given (sym (err-injective (rw (e, resolve_observer_principal) at h))))
      | inl (hash, e) ↦
          let looked = sym (resolve-ok p rows token now hash e) ∙ h in
          elim (Option-cases (by_hash hash rows)) [
            | inl k ↦ absurd (
                known (
                  sym (
                    err-injective (sym (ap (λ o. resolve_row p o (p.parse_date now)) k) ∙ looked))))
            | inr (row, k) ↦ (
              hash,
              row,
              e,
              k,
              sym (ap (resolve_row p (some row)) at_t)
                  ∙ sym (ap (λ o. resolve_row p o (p.parse_date now)) k)
                  ∙ looked,
            )
          ]
    ]

-- The fields that no operation changes.
abbrev pub SameGrant : TokenRow → TokenRow → Type 0
SameGrant row row' =
    (row'.token_id ≡ row.token_id)
    × (row'.role ≡ row.role)
    × (row'.project_ids ≡ row.project_ids)
    × (row'.scopes ≡ row.scopes)
    × (row'.expires_at ≡ row.expires_at)

Persists-SameGrant : (row row' : TokenRow) → Persists row row' → SameGrant row row'
Persists-SameGrant row row' (inl e) = subst (SameGrant row) (sym e) (refl, refl, refl, refl, refl)
Persists-SameGrant row row' (inr (_, (time, e))) =
    subst (SameGrant row) (sym e) (refl, refl, refl, refl, refl)

Persists-revoked :
    (p : Platform) (row row' : TokenRow) (t0 t : ℕ)
    → Persists row row'
    → t0 ≤ t
    → is_revoked_at p row.revoked_at (some t0) ≡ true
    → is_revoked_at p row'.revoked_at (some t) ≡ true
unfolding is_revoked_at
Persists-revoked p row row' t0 t kept later h = elim (Option-cases row.revoked_at) [
  | inl live ↦ absurd (never (sym h ∙ ap (λ o. is_revoked_at p o (some t0)) live))
  | inr (time, e) ↦
      let there : is_past p time (some t0) ≡ true =
        sym (ap (λ o. is_revoked_at p o (some t0)) e) ∙ h in
      ap (λ o. is_revoked_at p o (some t)) (same time e kept)
      ∙ is_past_later p time t0 t later there
]
  where
    never : true ≡ false → ⊥
    never e = cc

    same :
        (time : Text) → row.revoked_at ≡ some time → Persists row row' → row'.revoked_at ≡ some time
    same time e (inl k) = ap (λ (r : TokenRow). r.revoked_at) k ∙ e
    same time e (inr (live, _)) = cc (live, e)

still_revoked :
    (p : Platform) (first rows : TokenTable) (token before now : Text) (t0 t : ℕ)
    → Later p first rows
    → p.parse_date before ≡ some t0
    → p.parse_date now ≡ some t
    → t0 ≤ t
    → resolve_observer_principal p first token before ≡ err token_revoked
    → resolve_observer_principal p rows token now ≡ err token_revoked
unfolding resolve_row
still_revoked p first rows token before now t0 t l at_t0 at_t later h =
    let (hash, row, ehash, found, refused) =
      resolve-known p first token before t0 token_revoked at_t0 (λ e. cc) (λ e. cc) h in
    let (row', found', kept) = Later-Keeps p first rows l hash row found in
    let there : is_revoked_at p row.revoked_at (some t0) ≡ true =
      elim (resolve_row-refused p row t0 token_revoked refused) [
        | inl (_, e) ↦ e
        | inr (e, _) ↦ cc
      ] in
    resolve-ok p rows token now hash ehash
    ∙ ap (λ o. resolve_row p o (p.parse_date now)) found'
    ∙ ap (resolve_row p (some row')) at_t
    ∙ rw (Persists-revoked p row row' t0 t kept later there) refl

never_again :
    (p : Platform) (first rows : TokenTable) (token before now : Text) (t0 t : ℕ) (again : TokenRow)
    → Later p first rows
    → p.parse_date before ≡ some t0
    → p.parse_date now ≡ some t
    → t0 ≤ t
    → resolve_observer_principal p first token before ≡ err token_expired
    → resolve_observer_principal p rows token now ≢ ok again
never_again p first rows token before now t0 t again l at_t0 at_t later h k =
    let (hash, row, ehash, found, refused) =
      resolve-known p first token before t0 token_expired at_t0 (λ e. cc) (λ e. cc) h in
    let (row', found', kept) = Later-Keeps p first rows l hash row found in
    let (_, _, _, _, expiry) = Persists-SameGrant row row' kept in
    let there : is_past p row.expires_at (some t0) ≡ true =
      elim (resolve_row-refused p row t0 token_expired refused) [
        | inl (e, _) ↦ cc
        | inr (_, e) ↦ e
      ] in
    let (hash', ehash', found_again, _, early) = resolve-found p rows token now again k in
    let same_hash : hash ≡ hash' = ok-injective (sym ehash ∙ ehash') in
    let same_row : row' ≡ again =
      some-injective (sym found' ∙ ap (λ x. by_hash x rows) same_hash ∙ found_again) in
    let past : is_past p again.expires_at (some t) ≡ true =
      ap (λ (r : TokenRow). is_past p r.expires_at (some t)) (sym same_row)
      ∙ ap (λ x. is_past p x (some t)) expiry
      ∙ is_past_later p row.expires_at t0 t later there in
    let open_still : is_past p again.expires_at (some t) ≡ false =
      ap (is_past p again.expires_at) (sym at_t) ∙ early in
    cc (past, open_still)

same_grant :
    (p : Platform) (first rows : TokenTable) (token before now : Text) (row row' : TokenRow)
    → Later p first rows
    → resolve_observer_principal p first token before ≡ ok row
    → resolve_observer_principal p rows token now ≡ ok row'
    → SameGrant row row'
same_grant p first rows token before now row row' l h k =
    let (hash, ehash, found, _, _) = resolve-found p first token before row h in
    let (hash', ehash', found', _, _) = resolve-found p rows token now row' k in
    let (kept_row, there, kept) = Later-Keeps p first rows l hash row found in
    let same_hash : hash ≡ hash' = ok-injective (sym ehash ∙ ehash') in
    let same_row : kept_row ≡ row' =
      some-injective (sym there ∙ ap (λ x. by_hash x rows) same_hash ∙ found') in
    subst (SameGrant row) same_row (Persists-SameGrant row kept_row kept)

-- What becomes of a token. Whatever registrations, revocations, rotations and bootstraps make of a
-- table, failed rotations included: a token that was refused as revoked is refused as revoked at
-- every later time; one that was refused as expired never resolves again; and one that resolved, and
-- resolves after them, does so with the same id, role, projects, scopes and expiry.
pub revoked_for_good :
    (p : Platform) (first rows : TokenTable) (token before now : Text) (t0 t : ℕ)
    → Later p first rows
    → p.parse_date before ≡ some t0
    → p.parse_date now ≡ some t
    → t0 ≤ t
    → (resolve_observer_principal p first token before ≡ err token_revoked
        → resolve_observer_principal p rows token now ≡ err token_revoked)
      × (resolve_observer_principal p first token before ≡ err token_expired
          → (row : TokenRow) → resolve_observer_principal p rows token now ≢ ok row)
      × ((row row' : TokenRow)
          → resolve_observer_principal p first token before ≡ ok row
          → resolve_observer_principal p rows token now ≡ ok row'
          → SameGrant row row')
revoked_for_good p first rows token before now t0 t l at_t0 at_t later = (
  still_revoked p first rows token before now t0 t l at_t0 at_t later,
  λ h row. never_again p first rows token before now t0 t row l at_t0 at_t later h,
  λ row row' h k. same_grant p first rows token before now row row' l h k,
)
