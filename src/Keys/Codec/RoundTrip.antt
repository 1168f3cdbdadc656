-- ===== src/Keys/Codec/RoundTrip.antt =====
-- The keys that a backend writes are read back by its listings; those that the codec of
-- src/kvtsjl/store/schema/key_codec.py writes are read back unescaped.
use kvtsjl.Prelude.{
  inl, inr, ◌≡◌, ◌≢◌, refl, sym, ap, ◌∙◌, Bool, List, [], ◌∷◌, ◌++◌, append_assoc, Option, some,
  if◌then◌else◌, arith,
}
use kvtsjl.Errors.{Exn, ok, raise, ok-injective, Result-cases}
use kvtsjl.Serde.{SerDe, serialize, deserialize, identity}
use kvtsjl.Keys.Text.{Text, join_text, strip_prefix}
use kvtsjl.Keys.Text.Laws.{strip_prefix-append}
use kvtsjl.Keys.Escape.{escape_segment, unescape_segment, str_blob_ops}
use kvtsjl.Keys.Scope.{Segment, Scope}
use kvtsjl.Keys.Binding.{CollectionBinding, item_key, scope_parts}
use kvtsjl.Keys.KvSet.{
  with_str_keys, leaf_or_none, maybe_unescape, decode_leaf_from_in_key, escaping_for,
  leaf_needs_escaping,
}
use kvtsjl.Keys.KvSet.Parts.{escaped_parts, key_text, segment_parts-escaped_parts, join-join_text}
use kvtsjl.Keys.KvSet.Listing.{
  escapes, written_leaf, escaping_for-escapes, raise-ok, listed, decode_leaf_from_in_key-key_text,
}
use kvtsjl.Keys.Codec.{
  decode_after, decode_stripped, strip_collection, physical_key_blob, in_key_blob,
  decode_key_from_physical,
}

-- A key behind the name and version that it begins with, if it begins with them.
abbrev under : List Text → Text → Text
under [] in_key = in_key
under (part ∷ parts) in_key = join_text (58 ∷ []) (part ∷ parts) ++ 58 ∷ in_key

join_text-append :
    (part : Text) (parts : List Text) (other : Text) (others : List Text)
    → join_text (58 ∷ []) (part ∷ parts ++ other ∷ others)
      ≡ join_text (58 ∷ []) (part ∷ parts) ++ 58 ∷ join_text (58 ∷ []) (other ∷ others)
unfolding join_text
join_text-append part [] other others = refl
join_text-append part (next ∷ parts) other others =
    ap (λ t. part ++ 58 ∷ t) (join_text-append next parts other others)
    ∙ sym (
        append_assoc part (58 ∷ join_text (58 ∷ []) (next ∷ parts))
          (58 ∷ join_text (58 ∷ []) (other ∷ others)))

under-join_text :
    (parts : List Text) (segments : List Segment) (leaf : Text)
    → join_text (58 ∷ []) (parts ++ (escaped_parts segments ++ leaf ∷ []))
      ≡ under parts (key_text segments leaf)
under-join_text [] segments leaf = refl
under-join_text (part ∷ parts) [] leaf = join_text-append part parts leaf []
under-join_text (part ∷ parts) (segment ∷ segments) leaf =
    join_text-append part parts (escape_segment segment.kind (58 ∷ []))
      (escape_segment segment.id (58 ∷ []) ∷ escaped_parts segments ++ leaf ∷ [])

module _ {Coll : Type 0} (binding : CollectionBinding Coll) (scope : Scope) where
  item_key-under :
      (leaf : Text)
      → item_key identity (str_blob_ops (58 ∷ [])) scope binding leaf
        ≡ ok (under binding.name_version_prefix (key_text scope.segments leaf))
  unfolding item_key scope_parts
  item_key-under leaf = ground (
    arith,
    segment_parts-escaped_parts scope.segments,
    join-join_text (binding.name_version_prefix ++ escaped_parts scope.segments ++ leaf ∷ []),
    append_assoc binding.name_version_prefix (escaped_parts scope.segments) (leaf ∷ []),
    under-join_text binding.name_version_prefix scope.segments leaf,
  )

  module _ {K : Type 0} (key_serde : SerDe K Text) (schema : Option (List Text)) where
    decode_after-under :
        (parts : List Text) (in_key : Text)
        → decode_after (with_str_keys key_serde schema) binding scope parts (under parts in_key)
          ≡ decode_leaf_from_in_key (with_str_keys key_serde schema) scope in_key
    unfolding with_str_keys strip_prefix str_blob_ops
    decode_after-under [] in_key = refl
    decode_after-under (part ∷ parts) in_key =
        ap
          (λ t. decode_stripped (with_str_keys key_serde schema) binding scope (
            strip_collection (with_str_keys key_serde schema) binding scope
              (strip_prefix (join_text (58 ∷ []) (part ∷ parts) ++ 58 ∷ in_key) t)))
          (join-join_text (part ∷ parts))
        ∙ ap
            (λ t.
              decode_stripped (with_str_keys key_serde schema) binding scope
                (strip_collection (with_str_keys key_serde schema) binding scope t))
            (strip_prefix-append (join_text (58 ∷ []) (part ∷ parts)) (58 ∷ in_key))
        ∙ ground arith

    decode_key_from_physical-under :
        (in_key : Text)
        → decode_key_from_physical
            (with_str_keys key_serde schema)
            binding
            scope
            (under binding.name_version_prefix in_key)
          ≡ decode_leaf_from_in_key (with_str_keys key_serde schema) scope in_key
    unfolding decode_key_from_physical
    decode_key_from_physical-under in_key = decode_after-under binding.name_version_prefix in_key

    physical_key_blob-written :
        (key : K) (leaf : Text) (escape : Bool)
        → serialize key_serde key ≡ ok leaf
        → escaping_for schema scope ≡ ok escape
        → physical_key_blob (with_str_keys key_serde schema) binding scope key
          ≡ ok (
              under binding.name_version_prefix
                (key_text scope.segments (written_leaf escape leaf)))
    unfolding physical_key_blob with_str_keys leaf_needs_escaping
    physical_key_blob-written key leaf escape p fits =
        ground (arith, p, fits, item_key-under (written_leaf escape leaf))

    physical_key_blob-refused :
        (key : K) (exn : Exn)
        → escaping_for schema scope ≡ raise exn
        → physical_key_blob (with_str_keys key_serde schema) binding scope key ≡ raise exn
    unfolding physical_key_blob with_str_keys leaf_needs_escaping
    physical_key_blob-refused key exn refused = ground (arith, refused)

    physical_key_blob-under :
        (key : K) (leaf physical : Text)
        → serialize key_serde key ≡ ok leaf
        → physical_key_blob (with_str_keys key_serde schema) binding scope key ≡ ok physical
        → physical
          ≡ under binding.name_version_prefix
              (key_text scope.segments (written_leaf (escapes schema scope) leaf))
    physical_key_blob-under key leaf physical p written =
        elim (Result-cases (escaping_for schema scope)) [
          | inl (escape, fits) ↦
              ok-injective (sym written ∙ physical_key_blob-written key leaf escape p fits)
              ∙ ap
                  (λ e.
                    under binding.name_version_prefix
                      (key_text scope.segments (written_leaf e leaf)))
                  (escaping_for-escapes schema scope escape fits)
          | inr (exn, refused) ↦
              absurd (raise-ok (sym (physical_key_blob-refused key exn refused) ∙ written))
        ]

    -- What a backend writes for a key is read back as that key by its listings, whether the name
    -- and the version are in the key or not, provided that the codec reads back what it writes
    -- for the key and that this is not empty.
    pub decode_key_from_physical-physical_key_blob :
        (key : K) (leaf physical : Text)
        → serialize key_serde key ≡ ok leaf
        → deserialize key_serde leaf ≡ ok key
        → leaf ≢ []
        → physical_key_blob (with_str_keys key_serde schema) binding scope key ≡ ok physical
        → decode_key_from_physical (with_str_keys key_serde schema) binding scope physical
          ≡ ok (some key)
    decode_key_from_physical-physical_key_blob key leaf physical p q nonempty written =
        ap (decode_key_from_physical (with_str_keys key_serde schema) binding scope)
          (physical_key_blob-under key leaf physical p written)
        ∙ decode_key_from_physical-under
            (key_text scope.segments (written_leaf (escapes schema scope) leaf))
        ∙ listed key_serde schema scope.segments key leaf q nonempty

    in_key_blob-written :
        (key : K) (leaf : Text)
        → serialize key_serde key ≡ ok leaf
        → in_key_blob (with_str_keys key_serde schema) binding scope key
          ≡ ok (under binding.name_version_prefix (key_text scope.segments leaf))
    unfolding in_key_blob with_str_keys
    in_key_blob-written key leaf p = ground (arith, p, item_key-under leaf)

    unescaped :
        (leaf : Text)
        → maybe_unescape (with_str_keys key_serde schema) leaf scope
          ≡ (if escapes schema scope then unescape_segment leaf (58 ∷ []) else leaf)
    unfolding maybe_unescape with_str_keys str_blob_ops
    unescaped leaf = refl

    -- What the codec of object stores writes for a key is read back with its leaf unescaped where
    -- there is a scope and no schema is declared, and as it is otherwise, provided that the leaf
    -- is not empty.
    pub decode_key_from_physical-in_key_blob :
        (key : K) (leaf physical : Text)
        → serialize key_serde key ≡ ok leaf
        → leaf ≢ []
        → in_key_blob (with_str_keys key_serde schema) binding scope key ≡ ok physical
        → decode_key_from_physical (with_str_keys key_serde schema) binding scope physical
          ≡ ok (
              leaf_or_none
                (with_str_keys key_serde schema)
                (if escapes schema scope then unescape_segment leaf (58 ∷ []) else leaf))
    decode_key_from_physical-in_key_blob key leaf physical p nonempty written =
        ap (decode_key_from_physical (with_str_keys key_serde schema) binding scope)
          (ok-injective (sym written ∙ in_key_blob-written key leaf p))
        ∙ decode_key_from_physical-under (key_text scope.segments leaf)
        ∙ decode_leaf_from_in_key-key_text key_serde schema scope.segments leaf nonempty
        ∙ ap (λ t. ok (leaf_or_none (with_str_keys key_serde schema) t)) (unescaped leaf)
