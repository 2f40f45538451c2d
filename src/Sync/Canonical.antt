-- ===== src/Sync/Canonical.antt =====
-- `stable`, `canonicalSyncJson` and `syncSha256` of packages/sync/src/sync-protocol.mjs: JSON with
-- sorted keys, and its hash.
use wendkeep.Prelude.{
  ℕ, ◌+◌, ◌*◌, ◌-◌, Bool, true, false, not, ◌&&◌, ◌||◌, ltb, leb, ◌==◌, if◌then◌else◌, [], ◌∷◌,
  ◌++◌, length, all,
}
use wendkeep.Prelude.Text.{Text, text, text_leb, is_digit}
use wendkeep.Prelude.Json.{
  Json, null, bool, num, str, arr, obj, Items, nil, cons, Fields, end, field, stringify,
}
use wendkeep.Platform.{Platform}

-- Insertion of a property before the first one whose key is not smaller.
insert_field : (Text → Text → Bool) → Text → Json → Fields → Fields
insert_field le k v end = field k v end
insert_field le k v (field j w fs) =
    if le k j then field k v (field j w fs) else field j w (insert_field le k v fs)

sort_fields : (Text → Text → Bool) → Fields → Fields
unfolding insert_field
sort_fields le end = end
sort_fields le (field k v fs) = insert_field le k v (sort_fields le fs)

index_value : ℕ → Text → ℕ
index_value n [] = n
index_value n (c ∷ s) = index_value (n * 10 + (c - 48)) s

-- An array index: the canonical numeral of a number below 2^32 - 1.
is_index : Text → Bool
unfolding index_value is_digit
is_index [] = false
is_index (c ∷ s) =
    all is_digit (c ∷ s)
    && (not (c == 48) || (length s == 0))
    && leb (length s) 9
    && ltb (index_value 0 (c ∷ s)) 4294967295

-- The order of own properties: array indices first and ascending, the rest as they were created.
own_key_leb : Text → Text → Bool
unfolding is_index
own_key_leb k j =
    if is_index k
    then (if is_index j then leb (index_value 0 k) (index_value 0 j) else true)
    else not (is_index j)

-- Object.fromEntries of entries with distinct keys.
from_entries : Fields → Fields
unfolding sort_fields own_key_leb
from_entries fs = sort_fields own_key_leb fs

unfoldable mutual
  unfolding sort_fields from_entries text_leb

  pub stable : Json → Json
  stable null = null
  stable (bool b) = bool b
  stable (num n) = num n
  stable (str s) = str s
  stable (arr xs) = arr (stable_items xs)
  stable (obj fs) = obj (from_entries (sort_fields text_leb (stable_fields fs)))

  pub stable_items : Items → Items
  stable_items nil = nil
  stable_items (cons x xs) = cons (stable x) (stable_items xs)

  pub stable_fields : Fields → Fields
  stable_fields end = end
  stable_fields (field k v fs) = field k (stable v) (stable_fields fs)

unfoldable pub canonical_sync_json : Json → Text
unfolding stable stringify
canonical_sync_json value = stringify (stable value)

-- A string is hashed as it is, any other value by its canonical JSON.
unfoldable pub sync_sha256 : Platform → Json → Text
sync_sha256 p (str s) = text "sha256:" ++ p.sha256_hex s
sync_sha256 p value = text "sha256:" ++ p.sha256_hex (canonical_sync_json value)
