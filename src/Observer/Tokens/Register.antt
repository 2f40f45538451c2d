-- ===== src/Observer/Tokens/Register.antt =====
-- The table observer_tokens and registerObserverToken
-- (packages/observer/src/token-registry.mjs, schema/observer/006-observer-security.sql).
use wendkeep.Prelude.{
  ℕ, Bool, true, false, not, ◌||◌, Option, none, some, List, [], ◌∷◌, ◌++◌, if◌then◌else◌, any,
  find, sort,
}
use wendkeep.Prelude.Text.{Text, text, text_eq, text_leb, includes, dedupe}
use wendkeep.Prelude.Result.{Result, ok, err, ◌>>=◌, ◌>>◌, guard}
use wendkeep.Platform.{Platform}
use wendkeep.Contracts.Strings.{filled}

pub data ObserverError : Type 0 where
  token_invalid role_invalid projects_invalid scopes_invalid rotation_invalid : ObserverError
  bootstrap_projects_invalid bootstrap_expired bootstrap_token_id_conflict : ObserverError
  constraint_failed policy_invalid : ObserverError

-- A row; the lists are stored as JSON, from which they are read back as they were. The time of a
-- revocation is NULL or a date, never an empty text.
pub record TokenRow : Type 0 where
  pub token_id : Text
  pub token_hash : Text
  pub role : Text
  pub project_ids : List Text
  pub scopes : List Text
  pub created_at : Text
  pub expires_at : Text
  pub revoked_at : Option Text
  pub rotated_from : Option Text

abbrev pub TokenTable : Type 0
TokenTable = List TokenRow

abbrev pub roles : List Text
roles = text "viewer" ∷ text "auditor" ∷ text "publisher" ∷ text "admin" ∷ []

unfoldable pub hash_observer_token : Platform → Text → Result ObserverError Text
hash_observer_token p token =
    if filled token then ok (text "sha256:" ++ p.sha256_hex token) else err token_invalid

unfoldable pub valid_time : Platform → Text → Result ObserverError ℕ
valid_time p value = elim (p.parse_date value) [ none ↦ err token_invalid | some t ↦ ok t ]

-- SELECT ... WHERE token_id = ?
abbrev pub by_id : Text → TokenTable → Option TokenRow
by_id id rows = find (λ (r : TokenRow). text_eq r.token_id id) rows

-- SELECT ... WHERE token_hash = ?
abbrev pub by_hash : Text → TokenTable → Option TokenRow
by_hash hash rows = find (λ (r : TokenRow). text_eq r.token_hash hash) rows

-- REFERENCES observer_tokens(token_id), which a row may satisfy by itself.
unfoldable pub is_dangling : Option Text → TokenTable → Bool
is_dangling none rows = false
is_dangling (some id) rows = not (any (λ (r : TokenRow). text_eq r.token_id id) rows)

-- INSERT: the primary key and the unique hash refuse a row that repeats one, and the foreign key one
-- that names an origin that is not there.
unfoldable pub insert_row : TokenRow → TokenTable → Result ObserverError TokenTable
unfolding is_dangling
insert_row row rows =
    if any
      (λ (r : TokenRow). text_eq r.token_id row.token_id || text_eq r.token_hash row.token_hash)
      rows
    then err constraint_failed
    else if is_dangling row.rotated_from (rows ++ row ∷ [])
    then err constraint_failed
    else ok (rows ++ row ∷ [])

pub record RegisterInput : Type 0 where
  pub token_id : Text
  pub token : Text
  pub role : Text
  pub project_ids : List Text
  pub scopes : List Text
  pub created_at : Text
  pub expires_at : Text
  pub rotated_from : Option Text

unfoldable pub is_nonempty {ℓ} : {A : Type ℓ} → List A → Bool
is_nonempty [] = false
is_nonempty (x ∷ xs) = true

-- [...new Set(texts)].sort()
unfoldable pub sorted_set : List Text → List Text
sorted_set texts = sort text_leb (dedupe texts)

-- The new table, and the row, from which the answer is read.
unfoldable pub register_observer_token :
    Platform → TokenTable → RegisterInput → Result ObserverError (TokenTable × TokenRow)
unfolding hash_observer_token valid_time insert_row is_nonempty sorted_set
register_observer_token p rows i = do
  guard (includes roles i.role) role_invalid
  guard (is_nonempty i.project_ids) projects_invalid
  guard (is_nonempty i.scopes) scopes_invalid
  token_hash ← hash_observer_token p i.token
  created ← valid_time p i.created_at
  expires ← valid_time p i.expires_at
  let row : TokenRow = record {
    token_id = i.token_id;
    token_hash = token_hash;
    role = i.role;
    project_ids = sorted_set i.project_ids;
    scopes = sorted_set i.scopes;
    created_at = p.to_iso created;
    expires_at = p.to_iso expires;
    revoked_at = none;
    rotated_from = i.rotated_from;
  }
  rows' ← insert_row row rows
  ok (rows', row)
