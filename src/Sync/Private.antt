-- ===== src/Sync/Private.antt =====
-- `encryptPrivatePayload`, `decryptPrivatePayload` and `rotatePrivatePayloadKey` of
-- packages/sync/src/sync-protocol.mjs.
pub mod Laws
use wendkeep.Prelude.{
  ℕ, ◌≡◌, ◌≢◌, if◌then◌else◌, Bool, true, false, ◌==◌, Option, none, some, List, [], ◌∷◌, length,
  arith,
}
use mathlib.Core.Option
use wendkeep.Prelude.Text.{Text, text}
use wendkeep.Prelude.Json.{Json, null, num, str, obj, Fields, end, field}
use wendkeep.Prelude.Result.{Result, ok, err, ◌>>=◌, ◌>>◌, guard}
use wendkeep.Sync.Canonical.{canonical_sync_json, stable}
use wendkeep.Sync.Event.Data.{SyncError, key_invalid, decrypt_failed}
use wendkeep.Sync.Event.Create.{required_text, is_envelope, get_field}

abbrev pub Bytes : Type 0
Bytes = List ℕ

pub record Sealed : Type 0 where
  pub ciphertext : Bytes
  pub auth_tag : Bytes

-- What node:crypto, Buffer and JSON.parse do for the functions below.
pub record Cipher : Type 0 where
  -- Buffer.from(text, 'base64'), which skips what is no base64
  pub from_base64 : Text → Bytes
  pub to_base64 : Bytes → Text
  -- the arguments are the key, the IV, the additional data and the text
  pub seal : Bytes → Bytes → Text → Text → Sealed
  -- `none` where final() throws, since the tag does not fit
  pub unseal : Bytes → Bytes → Text → Sealed → Option Text
  pub parse_json : Text → Option Json

-- What RFC 4648 and AES-GCM promise: decoding inverts encoding, and what was sealed is unsealed
-- under the same key, IV and additional data. What is sealed is canonical JSON, in which every lone
-- surrogate is escaped. The first law says more than the RFC of lists that hold more than bytes, which
-- no caller passes.
pub record IsCipher (c : Cipher) : Type 0 where
  pub base64_round : (b : Bytes) → c.from_base64 (c.to_base64 b) ≡ b
  pub base64_nonempty : (b : Bytes) → b ≢ [] → c.to_base64 b ≢ []
  pub unseal_seal :
      (key iv : Bytes) (aad : Text) (value : Json)
      → c.unseal key iv aad (c.seal key iv aad (canonical_sync_json value))
        ≡ some (canonical_sync_json value)
  pub tag_nonempty : (key iv : Bytes) (aad t : Text) → (c.seal key iv aad t).auth_tag ≢ []
  -- JSON.parse('') throws
  pub empty_json : c.parse_json [] ≡ none
  pub text_nonempty :
      (key iv : Bytes) (aad t : Text) → t ≢ [] → (c.seal key iv aad t).ciphertext ≢ []

-- An error of `requiredText` is caught and thrown as a key error.
unfoldable pub required_key : Text → Result SyncError Text
required_key value = elim (required_text 256 value) [ ok t ↦ ok t | err _ ↦ err key_invalid ]

-- `keyBytes`; Buffer.from does not throw for a text.
unfoldable pub key_bytes : Cipher → Text → Result SyncError Bytes
key_bytes c value = do
  t ← required_key value
  guard (length (c.from_base64 t) == 32) key_invalid
  ok (c.from_base64 t)

unfoldable pub envelope : Cipher → Text → Bytes → Sealed → Json
envelope c key_id iv s = obj (
    field (text "schema_version") (num (text "1")) (
      field (text "algorithm") (str (text "AES-256-GCM")) (
        field (text "key_id") (str key_id) (
          field (text "iv") (str (c.to_base64 iv)) (
            field (text "ciphertext") (str (c.to_base64 s.ciphertext))
              (field (text "auth_tag") (str (c.to_base64 s.auth_tag)) end))))))

unfoldable pub encrypt_private_payload :
    Cipher → Json → Text → Text → Text → Bytes → Result SyncError Json
encrypt_private_payload c payload key key_id aad iv = do
  key_buffer ← key_bytes c key
  guard (length iv == 12) key_invalid
  id ← required_text 160 key_id
  ok (envelope c id iv (c.seal key_buffer iv aad (canonical_sync_json payload)))

-- A field of the envelope that is passed to Buffer.from as a text.
unfoldable pub text_field : Text → Fields → Option Text
text_field name fs = elim (get_field name fs) [ str t ↦ some t | _ ↦ none ]

unfoldable pub sealed_fields : Json → Option (Text × Text × Text)
sealed_fields (obj fs) = Option.bind (text_field (text "iv") fs) λ iv.
    Option.bind (text_field (text "ciphertext") fs) λ ciphertext.
      Option.map (λ auth_tag. (iv, ciphertext, auth_tag)) (text_field (text "auth_tag") fs)
sealed_fields _ = none

unfoldable pub open_sealed : Cipher → Bytes → Text → Option (Text × Text × Text) → Option Json
open_sealed c key_buffer aad none = none
open_sealed c key_buffer aad (some (iv, ciphertext, auth_tag)) =
    Option.bind
      (c.unseal key_buffer (c.from_base64 iv) aad
        (record { ciphertext = c.from_base64 ciphertext; auth_tag = c.from_base64 auth_tag }))
      c.parse_json

unfoldable pub or_failed : Option Json → Result SyncError Json
or_failed none = err decrypt_failed
or_failed (some value) = ok value

-- Every error inside but that of the key is thrown as a failed decryption.
unfoldable pub decrypt_private_payload : Cipher → Json → Text → Text → Result SyncError Json
decrypt_private_payload c payload key aad =
    if is_envelope payload
    then (do
      key_buffer ← key_bytes c key
      or_failed (open_sealed c key_buffer aad (sealed_fields payload)))
    else err decrypt_failed

unfoldable pub rotate_private_payload_key :
    Cipher → Json → Text → Text → Text → Text → Bytes → Result SyncError Json
rotate_private_payload_key c payload old_key new_key new_key_id aad iv = do
  value ← decrypt_private_payload c payload old_key aad
  encrypt_private_payload c value new_key new_key_id aad iv
