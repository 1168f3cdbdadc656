-- ===== src/Keys/KvSet/RoundTrip.antt =====
-- Composed keys are read back: `encode_in_key` and `decode_in_key` of src/kvtsjl/store/schema/kvset.py
-- where a schema of scope kinds is declared.
use kvtsjl.Prelude.{
  ◌+◌, ◌*◌, ◌≡◌, Bool, false, List, [], ◌∷◌, ◌++◌, Option, some, length, length-append, ltb,
  if◌then◌else◌, arith, nat_eq,
}
use kvtsjl.Prelude.Distinct.{Distinct}
use kvtsjl.Errors.{ok}
use kvtsjl.Serde.{SerDe, serialize, deserialize}
use kvtsjl.Keys.Text.{Text, text_eq, split}
use kvtsjl.Keys.Text.Laws.{join_text-split, split-nonempty}
use kvtsjl.Keys.Escape.{str_blob_ops}
use kvtsjl.Keys.Scope.{Scope, kinds}
use kvtsjl.Keys.KvSet.{with_str_keys, encode_in_key, decode_in_key, escaping_for, leaf_or_none}
use kvtsjl.Keys.KvSet.Parts.{
  escaped_parts, segment_parts-escaped_parts, length-escaped_parts, join-join_text,
  read_segments-escaped_parts, scope_of-pairs, key_text, split-key_text, length-kinds_of,
}

module _ {K : Type 0} (key_serde : SerDe K Text) (scope : Scope) (key : K) (leaf : Text)
    (written : serialize key_serde key ≡ ok leaf) where
  pub encode_in_key-escaped :
      (schema : Option (List Text)) (escape : Bool)
      → escaping_for schema scope ≡ ok escape
      → encode_in_key (with_str_keys key_serde schema) scope (some key)
        ≡ ok (
            key_text scope.segments (if escape then (str_blob_ops (58 ∷ [])).escape leaf else leaf))
  unfolding encode_in_key with_str_keys
  encode_in_key-escaped schema escape fits = ground (
    arith,
    fits,
    written,
    segment_parts-escaped_parts scope.segments,
    join-join_text (
        escaped_parts scope.segments
        ++ (if escape then (str_blob_ops (58 ∷ [])).escape leaf else leaf) ∷ []),
  )

  module _ (read : deserialize key_serde leaf ≡ ok key) (distinct : Distinct (kinds scope)) where
    enough_tokens :
        ltb
          (length (escaped_parts scope.segments ++ split (58 ∷ []) leaf))
          (2 * length (kinds scope) + 1)
        ≡ false
    enough_tokens = ground (
      arith,
      split-nonempty 58 leaf,
      length-escaped_parts scope.segments,
      length-append (escaped_parts scope.segments) (split (58 ∷ []) leaf),
    )

    decode_in_key-key_text :
        decode_in_key (with_str_keys key_serde (some (kinds scope))) (key_text scope.segments leaf)
        ≡ some (scope, key)
    unfolding decode_in_key with_str_keys leaf_or_none
    decode_in_key-key_text = ground (
      arith,
      read,
      enough_tokens,
      split-key_text scope.segments leaf,
      read_segments-escaped_parts scope.segments (split (58 ∷ []) leaf),
      join_text-split 58 leaf,
      scope_of-pairs scope distinct,
    )

    -- Where the scope has exactly the kinds that the schema declares, no two of them the same, and
    -- the key's codec reads back what it writes for the key, the composed key is decoded to the
    -- scope and the key, whatever the ids and the leaf contain.
    pub decode_in_key-encode_in_key :
        (in_key : Text) × (encode_in_key
            (with_str_keys key_serde (some (kinds scope)))
            scope
            (some key)
          ≡ ok in_key)
        × (decode_in_key (with_str_keys key_serde (some (kinds scope))) in_key ≡ some (scope, key))
    decode_in_key-encode_in_key = (
      key_text scope.segments leaf,
      encode_in_key-escaped (some (kinds scope)) false
          (ground (arith, length-kinds_of scope.segments)),
      decode_in_key-key_text,
    )
