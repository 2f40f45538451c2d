-- ===== src/Tests/Secret.antt =====
-- Payloads that are encrypted, decrypted and rotated.
use mathlib.Core.Option
use wendkeep.Prelude.{◌≡◌, refl, [], ◌∷◌, none, some}
use wendkeep.Prelude.Text.{Text, text}
use wendkeep.Prelude.Json.{Json, null}
use wendkeep.Prelude.Result.{ok}
use wendkeep.Sync.Event.Create.{is_envelope, get_field}
use wendkeep.Sync.Private.{
  Cipher, IsCipher, required_key, key_bytes, envelope, encrypt_private_payload, text_field,
  sealed_fields, open_sealed, or_failed, decrypt_private_payload, rotate_private_payload_key,
}
use wendkeep.Sync.Private.Laws.{decrypt-encrypt, decrypt-rotate}
use wendkeep.Tests.Platform.{repeat}
use wendkeep.Tests.Open.{all_open}

-- A cipher that hides nothing, and a parser that knows one value.
abbrev plain : Cipher
plain = record {
  from_base64 = λ t. t;
  to_base64 = λ b. b;
  seal = λ key iv aad t. record { ciphertext = t; auth_tag = 0 ∷ [] };
  unseal = λ key iv aad s. some s.ciphertext;
  parse_json = λ t. elim t [ [] ↦ none | _ ∷ _ ↦ some null ];
}

plain-IsCipher : IsCipher plain
plain-IsCipher = record {
  base64_round = λ b. refl;
  base64_nonempty = λ b h. h;
  unseal_seal = λ key iv aad value. refl;
  tag_nonempty = λ key iv aad t h. cc h;
  empty_json = refl;
  text_nonempty = λ key iv aad t h. h;
}

abbrev old_key : Text
old_key = repeat 32 65

abbrev new_key : Text
new_key = repeat 32 66

abbrev iv : Text
iv = repeat 12 67

abbrev sealed_at : Text → Json
sealed_at id = envelope plain id iv (record { ciphertext = text "null"; auth_tag = 0 ∷ [] })

encrypted :
    encrypt_private_payload plain null old_key (text "k1") (text "r") iv
    ≡ ok (sealed_at (text "k1"))
unfolding all_open encrypt_private_payload key_bytes required_key
encrypted = refl

parsed : plain.parse_json (text "null") ≡ some null
parsed = refl

decrypt-encrypt_example :
    decrypt_private_payload plain (sealed_at (text "k1")) old_key (text "r") ≡ ok null
unfolding all_open
decrypt-encrypt_example =
    decrypt-encrypt plain null (sealed_at (text "k1")) old_key (text "k1") (text "r") iv
      plain-IsCipher parsed encrypted

decrypted : decrypt_private_payload plain (sealed_at (text "k1")) old_key (text "r") ≡ ok null
unfolding all_open encrypt_private_payload key_bytes required_key decrypt_private_payload
    is_envelope get_field envelope text_field sealed_fields open_sealed or_failed Option.bind
decrypted = refl

rotated :
    rotate_private_payload_key plain
      (sealed_at (text "k1"))
      old_key
      new_key
      (text "k2")
      (text "r")
      iv
    ≡ ok (sealed_at (text "k2"))
unfolding all_open encrypt_private_payload key_bytes required_key rotate_private_payload_key
    decrypt_private_payload is_envelope get_field envelope text_field sealed_fields open_sealed
    or_failed Option.bind
rotated = refl

decrypt-rotate_example :
    decrypt_private_payload plain (sealed_at (text "k2")) new_key (text "r") ≡ ok null
unfolding all_open
decrypt-rotate_example =
    decrypt-rotate plain (sealed_at (text "k1")) (sealed_at (text "k2")) null old_key new_key
      (text "k2") (text "r") iv plain-IsCipher decrypted parsed rotated
