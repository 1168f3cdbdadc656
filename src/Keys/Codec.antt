-- ===== src/Keys/Codec.antt =====
-- The full keys of a store on a medium: src/kvtsjl/store/backend.py and src/kvtsjl/leaf/base.py for
-- every leaf, and src/kvtsjl/store/schema/key_codec.py for object stores, before the layout of
-- paths. A key is the binding's name and version, where they are in the key, the scope and the leaf.
pub mod RoundTrip
use kvtsjl.Prelude.{
  Bool, true, false, not, ◌&&◌, List, [], ◌∷◌, ◌++◌, Option, none, some, length, leb, if◌then◌else◌,
}
use kvtsjl.Errors.{Result, ok, ◌>>=◌}
use kvtsjl.Serde.{serialize}
use kvtsjl.Keys.Text.{Text, starts_with, strip_prefix}
use kvtsjl.Keys.Escape.{join}
use kvtsjl.Keys.Scope.{Scope}
use kvtsjl.Keys.Binding.{CollectionBinding, item_key, scope_prefix}
use kvtsjl.Keys.KvSet.{
  KvSet, leaf_needs_escaping, escape_leaf, strip_separator, decode_leaf_from_in_key,
}

module _ {K Coll : Type 0} (kvset : KvSet K) (binding : CollectionBinding Coll)
    (scope : Scope) where
  -- `_physical_key_blob` of a backend, which guards the path that writes.
  unfoldable pub physical_key_blob : K → Result Text
  unfolding leaf_needs_escaping serialize item_key
  physical_key_blob key = leaf_needs_escaping kvset scope >>= λ escape.
      serialize kvset.key_serde key >>= λ leaf.
      item_key kvset.str_serde kvset.blob_ops scope binding (escape_leaf kvset escape leaf)

  -- `_in_key_blob` of `BindingLayoutKeyCodec`.
  unfoldable pub in_key_blob : K → Result Text
  unfolding serialize item_key
  in_key_blob key = serialize kvset.key_serde key >>= λ leaf.
      item_key kvset.str_serde kvset.blob_ops scope binding leaf

  -- `_scan_prefix_blob` of both.
  unfoldable pub scan_prefix_blob : Option K → Result Text
  unfolding serialize scope_prefix
  scan_prefix_blob none = scope_prefix kvset.str_serde kvset.blob_ops scope binding none
  scan_prefix_blob (some key_prefix) = serialize kvset.key_serde key_prefix >>= λ leaf.
      scope_prefix kvset.str_serde kvset.blob_ops scope binding (some leaf)

  abbrev pub decode_stripped : Option Text → Result (Option K)
  decode_stripped none = ok none
  decode_stripped (some rest) = decode_leaf_from_in_key kvset scope rest

  abbrev pub strip_collection : Option Text → Option Text
  strip_collection none = none
  strip_collection (some stripped) = strip_separator kvset stripped

  abbrev pub decode_after : List Text → Text → Result (Option K)
  decode_after [] physical_key = decode_leaf_from_in_key kvset scope physical_key
  decode_after (part ∷ parts) physical_key =
      decode_stripped
        (strip_collection (strip_prefix physical_key (join kvset.blob_ops (part ∷ parts))))

  -- `_decode_key_from_physical` of a backend, and `_decode_in_key` of the codec.
  unfoldable pub decode_key_from_physical : Text → Result (Option K)
  unfolding decode_leaf_from_in_key strip_prefix join
  decode_key_from_physical physical_key = decode_after binding.name_version_prefix physical_key
