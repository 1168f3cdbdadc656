-- ===== src/Keys/Binding.antt =====
-- src/kvtsjl/bind/namespace.py: how a wire schema's name and version reach the medium, and the
-- keys that a binding composes. A version is its text.
use kvtsjl.Prelude.{List, [], ◌∷◌, ◌++◌, Option, none, some}
use kvtsjl.Errors.{type_error, Result, ok, raise, ◌>>=◌}
use kvtsjl.Serde.{SerDe, serialize}
use kvtsjl.Keys.Text.{Text}
use kvtsjl.Keys.Escape.{BlobOps, escape_segment, join}
use kvtsjl.Keys.Scope.{Segment, Scope}

-- `WireRef` of src/kvtsjl/schema/ref.py.
pub record WireRef : Type 0 where
  pub name : Text
  pub version : Text
  pub str_serde : SerDe Text Text

abbrev pub version_label : WireRef → Text
version_label wire = 118 ∷ wire.version

pub record PhysicalRef (Coll : Type 0) : Type 0 where
  pub collection : Option Coll
  pub key : Text

pub record CollectionBinding (Coll : Type 0) : Type 0 where
  pub collection : Option Coll
  pub name_version_prefix : List Text

-- The parts of a scope, each kind and id escaped.
unfoldable pub segment_parts : SerDe Text Text → BlobOps → List Segment → Result (List Text)
unfolding serialize escape_segment
segment_parts str_serde ops [] = ok []
segment_parts str_serde ops (segment ∷ segments) =
    serialize str_serde (escape_segment segment.kind ops.separator_str) >>= λ kind.
    serialize str_serde (escape_segment segment.id ops.separator_str) >>= λ id.
    segment_parts str_serde ops segments >>= λ parts. ok (kind ∷ id ∷ parts)

module _ (str_serde : SerDe Text Text) (ops : BlobOps) (scope : Scope) where
  unfoldable pub scope_parts : Result (List Text)
  unfolding segment_parts
  scope_parts = segment_parts str_serde ops scope.segments

  module _ {Coll : Type 0} (binding : CollectionBinding Coll) where
    unfoldable pub item_key : Text → Result Text
    unfolding scope_parts join
    item_key key_blob = scope_parts >>= λ parts.
        ok (join ops (binding.name_version_prefix ++ parts ++ key_blob ∷ []))

    abbrev pub prefix_part : Option Text → List Text
    prefix_part none = []
    prefix_part (some blob) = blob ∷ []

    unfoldable pub scope_prefix : Option Text → Result Text
    unfolding scope_parts join
    scope_prefix key_prefix_blob = scope_parts >>= λ parts.
        ok (join ops (binding.name_version_prefix ++ parts ++ prefix_part key_prefix_blob))

    unfoldable pub physical : Text → Result (PhysicalRef Coll)
    unfolding item_key
    physical key_blob =
        item_key key_blob >>= λ key. ok (record { collection = binding.collection; key = key })

-- `NativeCollectionBinder.bind_wire`
abbrev pub bind_native : {Coll : Type 0} → (WireRef → Coll) → WireRef → CollectionBinding Coll
bind_native collection_formatter wire = record {
  collection = some (collection_formatter wire);
  name_version_prefix = [];
}

abbrev pub default_str_collection_name : WireRef → Text
default_str_collection_name wire = wire.name ++ 58 ∷ version_label wire

-- `KeyPrefixBinder.bind_wire`
unfoldable pub bind_key_prefix : {Coll : Type 0} → WireRef → Result (CollectionBinding Coll)
unfolding serialize
bind_key_prefix wire = serialize wire.str_serde wire.name >>= λ name.
    serialize wire.str_serde (version_label wire) >>= λ label.
    ok (record { collection = none; name_version_prefix = name ∷ label ∷ [] })

-- `resolve_collection_binding`; a binder is its `bind_wire`.
unfoldable pub resolve_collection_binding :
    {Coll : Type 0}
    → WireRef
    → Option (WireRef → Result (CollectionBinding Coll))
    → Option (CollectionBinding Coll)
    → Result (CollectionBinding Coll)
resolve_collection_binding wire binder (some binding) = ok binding
resolve_collection_binding wire (some bind_wire) none = bind_wire wire
resolve_collection_binding wire none none = raise type_error
