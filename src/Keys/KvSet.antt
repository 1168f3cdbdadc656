-- ===== src/Keys/KvSet.antt =====
-- src/kvtsjl/store/schema/kvset.py, on media whose key blobs are texts: the key of a record is its
-- scope's segments, escaped, and its leaf. Separators are not empty.
pub mod Parts
pub mod RoundTrip
pub mod Apart
pub mod Listing
pub mod Siblings
use kvtsjl.Prelude.{
  ℕ, ◌+◌, ◌*◌, Bool, true, false, not, ◌&&◌, ◌||◌, ◌==◌, List, [], ◌∷◌, ◌++◌, Option, none, some,
  is_some, length, take, ltb, leb, if◌then◌else◌, nat_eq,
}
use kvtsjl.Prelude.Dict.{Dict, insert}
use kvtsjl.Errors.{scope_error, Result, ok, raise, ◌>>=◌}
use kvtsjl.Serde.{SerDe, serialize, deserialize, identity}
use kvtsjl.Keys.Text.{Text, text_eq, starts_with, strip_prefix, split, join_text}
use kvtsjl.Keys.Escape.{BlobOps, str_blob_ops, escape_segment, unescape_segment, join}
use kvtsjl.Keys.Scope.{Segment, Scope, scope_of, kinds}
use kvtsjl.Keys.Binding.{segment_parts}

pub record KvSet (K : Type 0) : Type 0 where
  pub key_serde : SerDe K Text
  pub str_serde : SerDe Text Text
  pub blob_ops : BlobOps
  pub scope_schema : Option (List Text)

unfoldable pub with_str_keys : {K : Type 0} → SerDe K Text → Option (List Text) → KvSet K
unfolding identity str_blob_ops
with_str_keys key_serde scope_schema = record {
  key_serde = key_serde;
  str_serde = identity;
  blob_ops = str_blob_ops (58 ∷ []);
  scope_schema = scope_schema;
}

abbrev pub is_scoped : Scope → Bool
is_scoped scope = ltb 0 (length scope.segments)

abbrev pub same_texts : List Text → List Text → Bool
same_texts [] [] = true
same_texts (x ∷ xs) (y ∷ ys) = x == y && same_texts xs ys
same_texts _ _ = false

-- `validate_scope` and `leaf_needs_escaping`, by the schema.
abbrev pub validate_for : Option (List Text) → List Text → Result (Unit {0})
validate_for none given = ok tt
validate_for (some schema) given =
    if ltb (length schema) (length given)
    then raise scope_error
    else if same_texts given (take (length given) schema)
    then ok tt
    else raise scope_error

abbrev pub escaping_for : Option (List Text) → Scope → Result Bool
escaping_for none scope = ok (is_scoped scope)
escaping_for (some schema) scope =
    if length scope.segments == length schema then ok false else raise scope_error

-- `Scope.of(**dict(segments))`
abbrev pub dict_of : Dict Text Text → List (Text × Text) → Dict Text Text
dict_of d [] = d
dict_of d ((kind, id) ∷ segments) = dict_of (insert kind id d) segments

-- The scope's pairs and the tokens that are left, where the kinds are the schema's.
unfoldable pub read_segments :
    Text → List Text → List Text → Option (List (Text × Text) × List Text)
unfolding unescape_segment
read_segments sep [] tokens = some ([], tokens)
read_segments sep (kind ∷ schema) (raw_kind ∷ raw_id ∷ tokens) =
    let rest = read_segments sep schema tokens in
    if unescape_segment raw_kind sep == kind
    then elim rest [
      | none ↦ none
      | some (segments, left) ↦ some ((kind, unescape_segment raw_id sep) ∷ segments, left)
    ]
    else none
read_segments sep (kind ∷ schema) _ = none

module _ {K : Type 0} (kvset : KvSet K) where
  unfoldable pub validate_scope : Scope → Result (Unit {0})
  validate_scope scope = validate_for kvset.scope_schema (kinds scope)

  unfoldable pub leaf_needs_escaping : Scope → Result Bool
  leaf_needs_escaping scope = escaping_for kvset.scope_schema scope

  abbrev pub escape_leaf : Bool → Text → Text
  escape_leaf escape leaf = if escape then kvset.blob_ops.escape leaf else leaf

  unfoldable pub encode_in_key : Scope → Option K → Result Text
  unfolding leaf_needs_escaping serialize segment_parts join
  encode_in_key scope none =
      segment_parts kvset.str_serde kvset.blob_ops scope.segments >>= λ parts.
      ok (join kvset.blob_ops parts)
  encode_in_key scope (some key) = leaf_needs_escaping scope >>= λ escape.
      segment_parts kvset.str_serde kvset.blob_ops scope.segments >>= λ parts.
      serialize kvset.key_serde key >>= λ leaf.
      ok (join kvset.blob_ops (parts ++ escape_leaf escape leaf ∷ []))

  unfoldable pub leaf_or_none : Text → Option K
  unfolding deserialize
  leaf_or_none blob = elim (deserialize kvset.key_serde blob) [ ok key ↦ some key | raise _ ↦ none ]

  abbrev pub with_leaf : Scope → Option K → Option (Scope × K)
  with_leaf scope none = none
  with_leaf scope (some leaf) = some (scope, leaf)

  abbrev pub decode_segments : Option (List (Text × Text) × List Text) → Option (Scope × K)
  decode_segments none = none
  decode_segments (some (segments, tokens)) =
      with_leaf (scope_of (dict_of [] segments))
        (leaf_or_none (join_text kvset.blob_ops.separator_str tokens))

  abbrev pub decode_for : Option (List Text) → Text → Option (Scope × K)
  decode_for none in_key = with_leaf (scope_of []) (leaf_or_none in_key)
  decode_for (some schema) in_key =
      let tokens = split kvset.blob_ops.separator_str in_key in
      if ltb (length tokens) (2 * length schema + 1)
      then none
      else decode_segments (read_segments kvset.blob_ops.separator_str schema tokens)

  unfoldable pub decode_in_key : Text → Option (Scope × K)
  unfolding leaf_or_none split read_segments join_text
  decode_in_key in_key = decode_for kvset.scope_schema in_key

  unfoldable pub maybe_unescape : Text → Scope → Text
  maybe_unescape leaf scope =
      if not (is_some kvset.scope_schema) && is_scoped scope
      then kvset.blob_ops.unescape leaf
      else leaf

  -- `rest` without the separator that it begins with, if it does.
  abbrev pub strip_separator : Text → Option Text
  strip_separator rest =
      if leb (length kvset.blob_ops.separator) (length rest)
        && starts_with rest kvset.blob_ops.separator
      then strip_prefix rest kvset.blob_ops.separator
      else some rest

  abbrev pub read_leaf : Scope → Option Text → Option K
  read_leaf scope none = none
  read_leaf scope (some rest) =
      if length rest == 0 then none else leaf_or_none (maybe_unescape rest scope)

  abbrev pub after_prefix : Scope → Option Text → Option K
  after_prefix scope none = none
  after_prefix scope (some rest) = read_leaf scope (strip_separator rest)

  unfoldable pub decode_leaf_from_in_key : Scope → Text → Result (Option K)
  unfolding encode_in_key strip_prefix leaf_or_none maybe_unescape
  decode_leaf_from_in_key scope in_key = encode_in_key scope none >>= λ scope_prefix. ok (
      if not (is_scoped scope)
      then leaf_or_none (maybe_unescape in_key scope)
      else after_prefix scope (strip_prefix in_key scope_prefix))
