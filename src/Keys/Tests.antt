-- ===== src/Keys/Tests.antt =====
-- Tests of the keys, and the instances of what is proved of them.
use kvtsjl.Prelude.{ℕ, ◌≡◌, ◌≢◌, refl, List, [], ◌∷◌, ◌++◌, Option, none, some, true, arith}
use kvtsjl.Errors.{scope_error, ok, raise}
use kvtsjl.Serde.{identity, serialize, deserialize}
use kvtsjl.Keys.Text.{Text, text_eq, starts_with, split, replace}
use kvtsjl.Keys.Escape.{escape_segment, unescape_segment, str_blob_ops, bytes_blob_ops}
use kvtsjl.Keys.Escape.Laws.{unescape-escape, colon-IsSeparator}
use kvtsjl.Keys.Scope.{Scope, scope_of, kinds, only, extend, path_display}
use kvtsjl.Keys.KvSet.{
  with_str_keys, validate_scope, encode_in_key, decode_in_key, decode_leaf_from_in_key,
  leaf_or_none,
}
use kvtsjl.Keys.KvSet.RoundTrip.{decode_in_key-encode_in_key}
use kvtsjl.Keys.KvSet.Apart.{encode_in_key-injective}
use kvtsjl.Keys.KvSet.Siblings.{decode_leaf_from_in_key-longer_id}
use kvtsjl.Keys.Codec.{physical_key_blob, in_key_blob, decode_key_from_physical}
use kvtsjl.Keys.Codec.RoundTrip.{
  decode_key_from_physical-physical_key_blob, decode_key_from_physical-in_key_blob,
}
use kvtsjl.Keys.Binding.{CollectionBinding}

-- `"a:%"`, `"b"`, `"u"`, `"s"`
abbrev odd : Text
odd = 97 ∷ 58 ∷ 37 ∷ []

abbrev b : Text
b = 98 ∷ []

abbrev user : Text
user = 117 ∷ []

abbrev slug : Text
slug = 115 ∷ []

abbrev schema : List Text
schema = user ∷ slug ∷ []

abbrev full : Scope
full = scope_of ((user, odd) ∷ (slug, b) ∷ [])

abbrev partial : Scope
partial = scope_of ((user, odd) ∷ [])

escaped : escape_segment odd (58 ∷ []) ≡ 97 ∷ 37 ∷ 51 ∷ 65 ∷ 37 ∷ 50 ∷ 53 ∷ []
unfolding escape_segment
escaped = refl

replaced : replace (97 ∷ 97 ∷ []) b (97 ∷ 97 ∷ 97 ∷ []) ≡ 98 ∷ 97 ∷ []
unfolding replace
replaced = refl

tokens : split (58 ∷ []) odd ≡ (97 ∷ []) ∷ (37 ∷ []) ∷ []
unfolding split
tokens = refl

narrowed : only full (slug ∷ []) ≡ ok (scope_of ((slug, b) ∷ []))
unfolding only text_eq kvtsjl.Prelude.ℕ_discrete
narrowed = refl

misspelt : only full (b ∷ []) ≡ raise scope_error
unfolding only text_eq kvtsjl.Prelude.ℕ_discrete
misspelt = refl

displayed : path_display full ≡ user ++ 47 ∷ odd ++ 47 ∷ slug ++ 47 ∷ b
unfolding path_display
displayed = refl

refused : encode_in_key (with_str_keys identity (some schema)) partial (some b) ≡ raise scope_error
unfolding encode_in_key with_str_keys kvtsjl.Prelude.ℕ_discrete
refused = refl

prefix_accepted : validate_scope (with_str_keys {K = Text} identity (some schema)) partial ≡ ok tt
unfolding validate_scope with_str_keys text_eq kvtsjl.Prelude.ℕ_discrete
prefix_accepted = refl

order_refused :
    validate_scope (with_str_keys {K = Text} identity (some schema)) (scope_of ((slug, b) ∷ []))
    ≡ raise scope_error
unfolding validate_scope with_str_keys text_eq kvtsjl.Prelude.ℕ_discrete
order_refused = refl

unescape-escape_example :
    ((str_blob_ops (58 ∷ [])).unescape ((str_blob_ops (58 ∷ [])).escape odd) ≡ odd)
    × ((bytes_blob_ops (58 ∷ [])).unescape ((bytes_blob_ops (58 ∷ [])).escape odd) ≡ odd)
unescape-escape_example = unescape-escape 58 colon-IsSeparator odd

written : (key : Text) → serialize identity key ≡ ok key
unfolding serialize identity
written key = refl

read : (key : Text) → deserialize identity key ≡ ok key
unfolding deserialize identity
read key = refl

decode_in_key-encode_in_key_example :
    (in_key : Text) × (encode_in_key (with_str_keys identity (some (kinds full))) full (some odd)
      ≡ ok in_key)
    × (decode_in_key (with_str_keys identity (some (kinds full))) in_key ≡ some (full, odd))
unfolding text_eq kvtsjl.Prelude.ℕ_discrete
decode_in_key-encode_in_key_example =
    decode_in_key-encode_in_key identity full odd odd (written odd) (read odd) (refl, (refl, tt))

-- `"u:a%3A%25:s:b:a%3A%25"`, and the same under the name `"s"` and the version `"b"`
abbrev loose : Text
loose =
    117 ∷ 58 ∷ 97 ∷ 37 ∷ 51 ∷ 65 ∷ 37 ∷ 50 ∷ 53 ∷ 58 ∷ 115 ∷ 58 ∷ 98 ∷ 58 ∷ 97 ∷ 37 ∷ 51 ∷ 65 ∷ 37
    ∷ 50 ∷ 53 ∷ []

abbrev named : CollectionBinding ℕ
named = record { collection = none; name_version_prefix = slug ∷ b ∷ [] }

loose_written : encode_in_key (with_str_keys identity none) full (some odd) ≡ ok loose
unfolding encode_in_key with_str_keys
loose_written = refl

encode_in_key-injective_example : (full ≡ full) × (odd ≡ odd)
encode_in_key-injective_example =
    encode_in_key-injective identity full full odd odd odd odd loose refl refl (written odd)
      (written odd) loose_written loose_written

nonempty : {x : ℕ} {xs : Text} → x ∷ xs ≢ []
nonempty same = cc

named_written :
    physical_key_blob (with_str_keys identity none) named full odd ≡ ok (115 ∷ 58 ∷ 98 ∷ 58 ∷ loose)
unfolding physical_key_blob with_str_keys
named_written = refl

decode_key_from_physical-physical_key_blob_example :
    decode_key_from_physical (with_str_keys identity none) named full (115 ∷ 58 ∷ 98 ∷ 58 ∷ loose)
    ≡ ok (some odd)
decode_key_from_physical-physical_key_blob_example =
    decode_key_from_physical-physical_key_blob named full identity none odd odd
      (115 ∷ 58 ∷ 98 ∷ 58 ∷ loose) (written odd) (read odd) nonempty named_written

-- `"u:a%3A%25:%3A"`: the codec writes the leaf `"%3A"` as it is.
abbrev bare : Text
bare = 117 ∷ 58 ∷ 97 ∷ 37 ∷ 51 ∷ 65 ∷ 37 ∷ 50 ∷ 53 ∷ 58 ∷ 37 ∷ 51 ∷ 65 ∷ []

abbrev object_binding : CollectionBinding ℕ
object_binding = record { collection = some 0; name_version_prefix = [] }

bare_written :
    in_key_blob (with_str_keys identity none) object_binding partial (37 ∷ 51 ∷ 65 ∷ []) ≡ ok bare
unfolding in_key_blob with_str_keys
bare_written = refl

-- It is read back as `":"`.
bare_read :
    decode_key_from_physical (with_str_keys identity none) object_binding partial bare
    ≡ ok (some (58 ∷ []))
unfolding decode_key_from_physical with_str_keys kvtsjl.Prelude.ℕ_discrete
bare_read = refl

decode_key_from_physical-in_key_blob_example :
    decode_key_from_physical (with_str_keys identity none) object_binding partial bare
    ≡ ok (
        leaf_or_none (with_str_keys identity none) (unescape_segment (37 ∷ 51 ∷ 65 ∷ []) (58 ∷ [])))
decode_key_from_physical-in_key_blob_example =
    decode_key_from_physical-in_key_blob object_binding partial identity none (37 ∷ 51 ∷ 65 ∷ [])
      (37 ∷ 51 ∷ 65 ∷ []) bare (written (37 ∷ 51 ∷ 65 ∷ [])) nonempty bare_written

-- The key `"s"` of the user `"bb"`.
abbrev sibling : Text
sibling = 117 ∷ 58 ∷ 98 ∷ 98 ∷ 58 ∷ 115 ∷ []

sibling_written :
    encode_in_key
      (with_str_keys identity (some (user ∷ [])))
      (extend (scope_of []) user (b ++ b))
      (some slug)
    ≡ ok sibling
unfolding encode_in_key with_str_keys kvtsjl.Prelude.ℕ_discrete extend
sibling_written = refl

-- A listing of the user `"b"` reads it as the key `"b:s"`.
decode_leaf_from_in_key-longer_id_example :
    ((prefix : Text) × (encode_in_key
          (with_str_keys {K = Text} identity (some (user ∷ [])))
          (extend (scope_of []) user b)
          none
        ≡ ok prefix)
      × (starts_with sibling prefix ≡ true))
    × (decode_leaf_from_in_key
          (with_str_keys identity (some (user ∷ [])))
          (extend (scope_of []) user b)
          sibling
        ≡ ok (some (98 ∷ 58 ∷ 115 ∷ [])))
unfolding escape_segment
decode_leaf_from_in_key-longer_id_example =
    decode_leaf_from_in_key-longer_id identity (user ∷ []) (scope_of []) user b b slug
      (98 ∷ 58 ∷ 115 ∷ []) slug sibling nonempty (written slug) (read (98 ∷ 58 ∷ 115 ∷ []))
      sibling_written
