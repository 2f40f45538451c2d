-- ===== src/Observer/Tokens.antt =====
-- packages/observer/src/token-registry.mjs, over the table `observer_tokens` of
-- schema/observer/006-observer-security.sql.
pub mod Laws
pub mod Unique
pub mod History
pub mod Resolve
pub mod Rotation
pub mod Rows
pub mod Register
pub mod Persists
use wendkeep.Prelude.{
  ℕ, ◌-◌, Bool, true, false, not, ◌&&◌, ◌||◌, leb, ltb, Option, none, some, List, [], ◌∷◌, ◌++◌,
  if◌then◌else◌, any, find, map, length, drop, sort,
}
use wendkeep.Prelude.Text.{Text, text, text_eq, text_leb, includes, dedupe}
use wendkeep.Prelude.Result.{Result, ok, err, ◌>>=◌, ◌>>◌, guard}
use wendkeep.Platform.{Platform}
use wendkeep.Contracts.Strings.{filled, or_default}
use wendkeep.Observer.Tokens.Register.{
  ObserverError, TokenRow, TokenTable, hash_observer_token, valid_time, by_id, by_hash,
  RegisterInput, is_nonempty, register_observer_token, rotation_invalid, bootstrap_projects_invalid,
  bootstrap_expired, bootstrap_token_id_conflict,
}

pub data Refusal : Type 0 where
  token_missing token_unknown token_revoked token_expired : Refusal

-- new Date(time).getTime() <= timestamp; an invalid date is NaN, which no comparison holds of.
unfoldable pub is_past : Platform → Text → Option ℕ → Bool
is_past p time none = false
is_past p time (some timestamp) = elim (p.parse_date time) [
  | none ↦ false
  | some t ↦ leb t timestamp
]

unfoldable pub is_revoked_at : Platform → Option Text → Option ℕ → Bool
unfolding is_past
is_revoked_at p none timestamp = false
is_revoked_at p (some revoked) timestamp = is_past p revoked timestamp

unfoldable pub resolve_row : Platform → Option TokenRow → Option ℕ → Result Refusal TokenRow
unfolding is_revoked_at is_past
resolve_row p none timestamp = err token_unknown
resolve_row p (some row) timestamp =
    if is_revoked_at p row.revoked_at timestamp
    then err token_revoked
    else if is_past p row.expires_at timestamp
    then err token_expired
    else ok row

-- The row of the principal, or the reason why there is none.
unfoldable pub resolve_observer_principal :
    Platform → TokenTable → Text → Text → Result Refusal TokenRow
unfolding hash_observer_token resolve_row
resolve_observer_principal p rows token now = elim (hash_observer_token p token) [
  | err e ↦ err token_missing
  | ok hash ↦ resolve_row p (by_hash hash rows) (p.parse_date now)
]

-- A row that is not revoked yet, with the time of its revocation.
unfoldable pub revoke_row : Text → Text → TokenRow → TokenRow
revoke_row id time row =
    if text_eq row.token_id id
    then record row { revoked_at = elim row.revoked_at [ none ↦ some time | some t ↦ some t ] }
    else row

unfoldable pub is_revocable : Text → TokenRow → Bool
is_revocable id row =
    text_eq row.token_id id && elim row.revoked_at [ none ↦ true | some t ↦ false ]

-- The new table, and whether a row changed.
unfoldable pub revoke_observer_token :
    Platform → TokenTable → Text → Text → Result ObserverError (TokenTable × Bool)
unfolding valid_time revoke_row is_revocable
revoke_observer_token p rows id revoked_at = do
  time ← valid_time p revoked_at
  ok (map (revoke_row id (p.to_iso time)) rows, any (is_revocable id) rows)

pub record RotateInput : Type 0 where
  pub token_id : Text
  pub new_token_id : Text
  pub new_token : Text
  pub rotated_at : Text
  pub expires_at : Text

-- The arguments with which a rotation registers the new token.
unfoldable pub rotated_input : RotateInput → TokenRow → RegisterInput
rotated_input i current = record {
  token_id = i.new_token_id;
  token = i.new_token;
  role = current.role;
  project_ids = current.project_ids;
  scopes = current.scopes;
  created_at = i.rotated_at;
  expires_at = i.expires_at;
  rotated_from = if filled i.token_id then some i.token_id else none;
}

-- The transaction of a rotation, from BEGIN to COMMIT.
unfoldable pub rotation :
    Platform → TokenTable → TokenRow → RotateInput → Result ObserverError (TokenTable × TokenRow)
unfolding revoke_observer_token register_observer_token rotated_input
rotation p rows current i = do
  revoked ← revoke_observer_token p rows i.token_id i.rotated_at
  register_observer_token p revoked.0 (rotated_input i current)

unfoldable pub is_rotatable : TokenRow → Bool
is_rotatable row = elim row.revoked_at [ none ↦ true | some t ↦ false ]

-- The end of the transaction: COMMIT, or ROLLBACK to the table before.
unfoldable pub commit_or_rollback :
    TokenTable
    → Result ObserverError (TokenTable × TokenRow)
    → TokenTable × Result ObserverError TokenRow
commit_or_rollback rows (err e) = (rows, err e)
commit_or_rollback rows (ok done) = (done.0, ok done.1)

-- The table afterwards, and the answer.
unfoldable pub rotate_observer_token :
    Platform → TokenTable → RotateInput → TokenTable × Result ObserverError TokenRow
unfolding rotation is_rotatable commit_or_rollback
rotate_observer_token p rows i = elim (by_id i.token_id rows) [
  | none ↦ (rows, err rotation_invalid)
  | some current ↦
      if is_rotatable current
      then commit_or_rollback rows (rotation p rows current i)
      else (rows, err rotation_invalid)
]

pub record BootstrapInput : Type 0 where
  pub token : Text
  pub token_id : Text
  pub role : Text
  pub project_ids : List Text
  pub scopes : List Text
  pub expires_at : Text
  pub created_at : Text
  pub now : Text

pub record BootstrapOutcome : Type 0 where
  pub created : Bool
  pub row : TokenRow
  pub revoked : Bool
  pub expired : Bool

-- `bootstrap-${tokenHash.slice(-24)}`
unfoldable pub bootstrap_id : Text → Text
bootstrap_id hash = text "bootstrap-" ++ drop (length hash - 24) hash

-- A credential that there is already is reported as it stands.
unfoldable pub report_existing :
    Platform → TokenTable → TokenRow → Text → Result ObserverError (TokenTable × BootstrapOutcome)
unfolding valid_time is_past
report_existing p rows row now = do
  time ← valid_time p now
  ok (
    rows,
    record {
      created = false;
      row = row;
      revoked = elim row.revoked_at [ none ↦ false | some t ↦ true ];
      expired = is_past p row.expires_at (some time);
    },
  )

-- The arguments with which a bootstrap registers its token.
unfoldable pub bootstrap_input : Platform → BootstrapInput → ℕ → Text → RegisterInput
bootstrap_input p i expires id = record {
  token_id = id;
  token = i.token;
  role = i.role;
  project_ids = i.project_ids;
  scopes = i.scopes;
  created_at = i.created_at;
  expires_at = p.to_iso expires;
  rotated_from = none;
}

unfoldable pub create_bootstrap :
    Platform
    → TokenTable
    → Text
    → BootstrapInput
    → Result ObserverError (TokenTable × BootstrapOutcome)
unfolding valid_time is_nonempty or_default bootstrap_id bootstrap_input register_observer_token
create_bootstrap p rows hash i = do
  guard (is_nonempty i.project_ids && not (includes i.project_ids (text "*")))
      bootstrap_projects_invalid
  expires ← valid_time p i.expires_at
  time ← valid_time p i.now
  guard (ltb time expires) bootstrap_expired
  let id = or_default i.token_id (bootstrap_id hash)
  guard (not (any (λ (r : TokenRow). text_eq r.token_id id) rows)) bootstrap_token_id_conflict
  (rows', row) ← register_observer_token p rows (bootstrap_input p i expires id)
  ok (rows', record { created = true; row = row; revoked = false; expired = false })

unfoldable pub ensure_observer_bootstrap_token :
    Platform → TokenTable → BootstrapInput → Result ObserverError (TokenTable × BootstrapOutcome)
unfolding hash_observer_token report_existing create_bootstrap
ensure_observer_bootstrap_token p rows i = do
  hash ← hash_observer_token p i.token
  elim (by_hash hash rows) [
    | some row ↦ report_existing p rows row i.now
    | none ↦ create_bootstrap p rows hash i
  ]
