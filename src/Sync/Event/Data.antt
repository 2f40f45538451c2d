-- ===== src/Sync/Event/Data.antt =====
-- The data of sync events, the errors of the protocol, and the JSON form that is hashed.
use wendkeep.Prelude.{ℕ, Option, none, some, List, [], ◌∷◌}
use wendkeep.Prelude.Text.{Text, text, decimal}
use wendkeep.Prelude.Json.{Json, num, str, arr, obj, Items, nil, cons, Fields, end, field}

-- The codes WENDKEEP_SYNC_*.
pub data SyncError : Type 0 where
  schema_invalid scope_invalid private_plaintext policy_ref_invalid revision_invalid : SyncError
  operation_invalid privacy_invalid time_invalid event_invalid project_mismatch : SyncError
  conflict_not_found selection_invalid lease_invalid lease_held key_invalid decrypt_failed :
      SyncError

-- The result of `Number(value)`: an integer of either sign, or a fraction, an infinity or NaN.
pub data Num : Type 0 where
  nat : ℕ → Num
  neg : ℕ → Num
  other : Num

-- The string in the field `operation`; `other` is any string but the three.
pub data Operation : Type 0 where
  put tombstone resolve : Operation
  other : Text → Operation

-- The string in the field `privacy`; `other` is any string but the two.
pub data Privacy : Type 0 where
  shared private : Privacy
  other : Text → Privacy

-- A policy reference as a caller gives it, with all the keys of the object.
pub record RawPolicyRef : Type 0 where
  pub keys : List Text
  pub policy_id : Text
  pub version : Num
  pub hash : Text

pub record PolicyRef : Type 0 where
  pub policy_id : Text
  pub version : ℕ
  pub hash : Text

-- The arguments of `createSyncEvent`; a text that is missing is the empty one.
pub record EventInput : Type 0 where
  pub project_id : Text
  pub record_key : Text
  pub revision : Num
  pub base_revision : Num
  pub payload : Json
  pub causal_parent_ids : List Text
  pub actor_id : Text
  pub device_id : Text
  pub lease_id : Text
  pub observed_at : Text
  pub operation : Operation
  pub privacy : Privacy
  pub policy_ref : Option RawPolicyRef

-- An event without its `event_id`: what the id is the hash of.
pub record Draft : Type 0 where
  pub schema_version : ℕ
  pub project_id : Text
  pub record_key : Text
  pub revision : ℕ
  pub base_revision : ℕ
  pub content_hash : Text
  pub causal_parent_ids : List Text
  pub actor_id : Text
  pub device_id : Text
  pub lease_id : Text
  pub observed_at : Text
  pub operation : Operation
  pub privacy : Privacy
  pub policy_ref : Option PolicyRef
  pub payload : Json

pub record Event : Type 0 where
  pub draft : Draft
  pub open draft use *
  pub event_id : Text

unfoldable pub operation_text : Operation → Text
operation_text put = text "put"
operation_text tombstone = text "tombstone"
operation_text resolve = text "resolve"
operation_text (other t) = t

unfoldable pub privacy_text : Privacy → Text
privacy_text shared = text "shared"
privacy_text private = text "private"
privacy_text (other t) = t

text_items : List Text → Items
text_items [] = nil
text_items (t ∷ ts) = cons (str t) (text_items ts)

policy_field : Option PolicyRef → Fields → Fields
policy_field none fs = fs
policy_field (some r) fs =
    field (text "policy_ref")
      (obj (
        field (text "policy_id") (str r.policy_id) (
          field (text "version") (num (decimal r.version)) (field (text "hash") (str r.hash) end))))
      fs

-- The object that `syncSha256` is given for an event.
unfoldable pub draft_json : Draft → Json
unfolding operation_text privacy_text text_items policy_field
draft_json d = obj (
    field (text "schema_version") (num (decimal d.schema_version)) (
      field (text "project_id") (str d.project_id) (
        field (text "record_key") (str d.record_key) (
          field (text "revision") (num (decimal d.revision)) (
            field (text "base_revision") (num (decimal d.base_revision)) (
              field (text "content_hash") (str d.content_hash) (
                field (text "causal_parent_ids") (arr (text_items d.causal_parent_ids)) (
                  field (text "actor_id") (str d.actor_id) (
                    field (text "device_id") (str d.device_id) (
                      field (text "lease_id") (str d.lease_id) (
                        field (text "observed_at") (str d.observed_at) (
                          field (text "operation") (str (operation_text d.operation)) (
                            field (text "privacy") (str (privacy_text d.privacy)) (
                              policy_field d.policy_ref
                                (field (text "payload") d.payload end)))))))))))))))
