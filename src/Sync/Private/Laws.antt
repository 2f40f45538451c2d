-- ===== src/Sync/Private/Laws.antt =====
-- Decryption inverts encryption, and rotation keeps the payload
-- (packages/sync/src/sync-protocol.mjs).
use mathlib.Core.Option
use wendkeep.Prelude.{ℕ, ◌≡◌, ◌≢◌, refl, ap, ◌∙◌, true, not, ◌==◌, some, [], ◌∷◌, length, arith}
use wendkeep.Prelude.Text.{Text, text_eq}
use wendkeep.Prelude.Json.{Json}
use wendkeep.Prelude.Result.{ok}
use wendkeep.Sync.Canonical.{canonical_sync_json, stable}
use wendkeep.Sync.Event.Create.{required_text, is_envelope, get_field}
use wendkeep.Sync.Private.{
  Bytes, Sealed, Cipher, IsCipher, key_bytes, envelope, encrypt_private_payload, text_field,
  sealed_fields, open_sealed, or_failed, decrypt_private_payload, rotate_private_payload_key,
}

open_sealed-envelope :
    (c : Cipher) (key iv : Bytes) (id aad : Text) (value : Json)
    → IsCipher c
    → open_sealed c key aad
        (sealed_fields (envelope c id iv (c.seal key iv aad (canonical_sync_json value))))
      ≡ c.parse_json (canonical_sync_json value)
unfolding open_sealed sealed_fields envelope text_field get_field text_eq Option.bind
open_sealed-envelope c key iv id aad value good =
    simp good.base64_round
      (ap (λ o. Option.bind o c.parse_json) (good.unseal_seal key iv aad value))

length_ne : (t : Text) → t ≢ [] → not (length t == 0) ≡ true
length_ne [] h = absurd (h refl)
length_ne (a ∷ t) h = ground arith

envelope-is_envelope :
    (c : Cipher) (key_id : Text) (iv : Bytes) (s : Sealed)
    → key_id ≢ []
    → c.to_base64 iv ≢ []
    → c.to_base64 s.ciphertext ≢ []
    → c.to_base64 s.auth_tag ≢ []
    → is_envelope (envelope c key_id iv s) ≡ true
unfolding envelope is_envelope text_eq
envelope-is_envelope c key_id iv s k i t a =
    rw (length_ne _ k) (rw (length_ne _ i) (rw (length_ne _ t) (rw (length_ne _ a))))

required_text-ne : (m : ℕ) (v t : Text) → required_text m v ≡ ok t → t ≢ []
unfolding required_text
required_text-ne m v t h e = ground (arith, ap length e)

encrypt_private_payload-ok :
    (c : Cipher) (payload sealed : Json) (key key_id aad : Text) (iv : Bytes)
    → encrypt_private_payload c payload key key_id aad iv ≡ ok sealed
    → (kb : Bytes) × (id : Text) × (key_bytes c key ≡ ok kb)
      × (length iv ≡ 12)
      × (required_text 160 key_id ≡ ok id)
      × (sealed ≡ envelope c id iv (c.seal kb iv aad (canonical_sync_json payload)))
unfolding encrypt_private_payload
encrypt_private_payload-ok c payload sealed key key_id aad iv h = ground arith

-- What was encrypted under a key decrypts under it, with its keys sorted, if JSON.parse inverts
-- JSON.stringify on the payload.
pub decrypt-encrypt :
    (c : Cipher) (payload sealed : Json) (key key_id aad : Text) (iv : Bytes)
    → IsCipher c
    → c.parse_json (canonical_sync_json payload) ≡ some (stable payload)
    → encrypt_private_payload c payload key key_id aad iv ≡ ok sealed
    → decrypt_private_payload c sealed key aad ≡ ok (stable payload)
unfolding decrypt_private_payload or_failed
decrypt-encrypt c payload sealed key key_id aad iv good parses h =
    let (kb, id, ek, ei, en, es) =
      encrypt_private_payload-ok c payload sealed key key_id aad iv h in
    let plain = canonical_sync_json payload in
    let written : plain ≢ [] = λ q. cc (good.empty_json, parses, ap c.parse_json q) in
    let formed =
      envelope-is_envelope c id iv (c.seal kb iv aad plain) (required_text-ne 160 key_id id en)
        (good.base64_nonempty iv (λ q. absurd (omega (arith, ap length q))))
        (good.base64_nonempty (c.seal kb iv aad plain).ciphertext
          (good.text_nonempty kb iv aad plain written))
        (good.base64_nonempty (c.seal kb iv aad plain).auth_tag
          (good.tag_nonempty kb iv aad plain)) in
    rw es
      (rw formed (rw ek (ap or_failed (open_sealed-envelope c kb iv id aad payload good ∙ parses))))

-- Rotation to a new key keeps the payload: what the old key decrypted to, the new one does, up to
-- the order of keys, and the old envelope is not needed for it.
pub decrypt-rotate :
    (c : Cipher) (old sealed value : Json) (old_key new_key new_key_id aad : Text) (iv : Bytes)
    → IsCipher c
    → decrypt_private_payload c old old_key aad ≡ ok value
    → c.parse_json (canonical_sync_json value) ≡ some (stable value)
    → rotate_private_payload_key c old old_key new_key new_key_id aad iv ≡ ok sealed
    → decrypt_private_payload c sealed new_key aad ≡ ok (stable value)
unfolding rotate_private_payload_key
decrypt-rotate c old sealed value old_key new_key new_key_id aad iv good d parses h =
    decrypt-encrypt c value sealed new_key new_key_id aad iv good parses (rw d at h)
