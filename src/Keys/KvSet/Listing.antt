-- ===== src/Keys/KvSet/Listing.antt =====
-- Keys that a listing reads back: `decode_leaf_from_in_key` of src/kvtsjl/store/schema/kvset.py.
use kvtsjl.Prelude.{
  ◌≡◌, ◌≢◌, refl, sym, ap, ◌∙◌, Bool, true, false, ◌&&◌, inl, inr, not, is_some, List, [], ◌∷◌,
  ◌++◌, append_assoc, Option, none, some, if◌then◌else◌, arith,
}
use kvtsjl.Errors.{Exn, ok, raise, Result-cases, ok-injective}
use kvtsjl.Serde.{SerDe, serialize, deserialize}
use kvtsjl.Keys.Text.{Text, join_text, strip_prefix}
use kvtsjl.Keys.Text.Laws.{strip_prefix-append}
use kvtsjl.Keys.Escape.{escape_segment, unescape_segment, str_blob_ops}
use kvtsjl.Keys.Scope.{Segment, Scope}
use kvtsjl.Keys.KvSet.{
  with_str_keys, encode_in_key, decode_leaf_from_in_key, is_scoped, escaping_for, after_prefix,
  leaf_or_none, maybe_unescape,
}
use kvtsjl.Keys.KvSet.Parts.{
  escaped_parts, key_text, segment_parts-escaped_parts, join-join_text, unescape-segment,
}
use kvtsjl.Keys.KvSet.RoundTrip.{encode_in_key-escaped}

abbrev pub prefix_text : List Segment → Text
prefix_text segments = join_text (58 ∷ []) (escaped_parts segments)

join_text-snoc :
    (sep part : Text) (parts : List Text) (last : Text)
    → join_text sep (part ∷ parts ++ last ∷ []) ≡ join_text sep (part ∷ parts) ++ (sep ++ last)
unfolding join_text
join_text-snoc sep part [] last = refl
join_text-snoc sep part (other ∷ parts) last =
    ap (λ t. part ++ (sep ++ t)) (join_text-snoc sep other parts last)
    ∙ ap (◌++◌ part) (sym (append_assoc sep (join_text sep (other ∷ parts)) (sep ++ last)))
    ∙ sym (append_assoc part (sep ++ join_text sep (other ∷ parts)) (sep ++ last))

pub key_text-prefix_text :
    (segment : Segment) (segments : List Segment) (leaf : Text)
    → key_text (segment ∷ segments) leaf ≡ prefix_text (segment ∷ segments) ++ 58 ∷ leaf
key_text-prefix_text segment segments leaf =
    join_text-snoc (58 ∷ []) (escape_segment segment.kind (58 ∷ []))
      (escape_segment segment.id (58 ∷ []) ∷ escaped_parts segments) leaf

pub escape_segment-nonempty : (leaf : Text) → leaf ≢ [] → escape_segment leaf (58 ∷ []) ≢ []
unfolding unescape_segment
escape_segment-nonempty leaf nonempty same =
    nonempty (sym (unescape-segment leaf) ∙ ap (λ t. unescape_segment t (58 ∷ [])) same)

abbrev pub written_leaf : Bool → Text → Text
written_leaf escape leaf = if escape then (str_blob_ops (58 ∷ [])).escape leaf else leaf

written_leaf-nonempty : (escape : Bool) (leaf : Text) → leaf ≢ [] → written_leaf escape leaf ≢ []
unfolding str_blob_ops
written_leaf-nonempty true leaf nonempty = escape_segment-nonempty leaf nonempty
written_leaf-nonempty false leaf nonempty = nonempty

-- Whether the leaf is escaped.
abbrev pub escapes : Option (List Text) → Scope → Bool
escapes schema scope = not (is_some schema) && is_scoped scope

pub escaping_for-escapes :
    (schema : Option (List Text)) (scope : Scope) (escape : Bool)
    → escaping_for schema scope ≡ ok escape
    → escape ≡ escapes schema scope
escaping_for-escapes none scope escape fits = ground (arith, fits)
escaping_for-escapes (some schema) scope escape fits = ground (arith, fits)

pub raise-ok : {A : Type 0} {exn : Exn} {a : A} → raise exn ≡ ok a → ⊥
raise-ok same = cc

module _ {K : Type 0} (key_serde : SerDe K Text) (schema : Option (List Text)) where
  pub encode_in_key-prefix :
      (scope : Scope)
      → encode_in_key (with_str_keys key_serde schema) scope none ≡ ok (prefix_text scope.segments)
  unfolding encode_in_key with_str_keys
  encode_in_key-prefix scope = ground (
    arith,
    segment_parts-escaped_parts scope.segments,
    join-join_text (escaped_parts scope.segments),
  )

  read_back :
      (segment : Segment) (segments : List Segment) (written : Text)
      → written ≢ []
      → ok (
          after_prefix
            (with_str_keys key_serde schema)
            (record { segments = segment ∷ segments })
            (some (58 ∷ written)))
        ≡ ok (
            leaf_or_none (with_str_keys key_serde schema) (
              maybe_unescape
                (with_str_keys key_serde schema)
                written
                (record { segments = segment ∷ segments })))
  unfolding with_str_keys strip_prefix
  read_back segment segments [] nonempty = absurd (nonempty refl)
  read_back segment segments (c ∷ written) nonempty = ground arith

  -- What a listing makes of a text under a scope's prefix.
  pub decode_leaf-prefix :
      (segment : Segment) (segments : List Segment) (rest : Text)
      → decode_leaf_from_in_key
          (with_str_keys key_serde schema)
          (record { segments = segment ∷ segments })
          (prefix_text (segment ∷ segments) ++ rest)
        ≡ ok (
            after_prefix
              (with_str_keys key_serde schema)
              (record { segments = segment ∷ segments })
              (some rest))
  unfolding decode_leaf_from_in_key
  decode_leaf-prefix segment segments rest = ground (
    arith,
    encode_in_key-prefix (record { segments = segment ∷ segments }),
    strip_prefix-append (prefix_text (segment ∷ segments)) rest,
  )

  decode_leaf-key_text :
      (segment : Segment) (segments : List Segment) (written : Text)
      → written ≢ []
      → decode_leaf_from_in_key
          (with_str_keys key_serde schema)
          (record { segments = segment ∷ segments })
          (key_text (segment ∷ segments) written)
        ≡ ok (
            leaf_or_none (with_str_keys key_serde schema) (
              maybe_unescape
                (with_str_keys key_serde schema)
                written
                (record { segments = segment ∷ segments })))
  decode_leaf-key_text segment segments written nonempty =
      ap
        (decode_leaf_from_in_key (with_str_keys key_serde schema)
          (record { segments = segment ∷ segments }))
        (key_text-prefix_text segment segments written)
      ∙ decode_leaf-prefix segment segments (58 ∷ written)
      ∙ read_back segment segments written nonempty

  encode_in_key-refused :
      (scope : Scope) (key : K) (exn : Exn)
      → escaping_for schema scope ≡ raise exn
      → encode_in_key (with_str_keys key_serde schema) scope (some key) ≡ raise exn
  unfolding encode_in_key with_str_keys
  encode_in_key-refused scope key exn refused = ground (arith, refused)

  pub in_key-written :
      (scope : Scope) (key : K) (leaf in_key : Text)
      → serialize key_serde key ≡ ok leaf
      → encode_in_key (with_str_keys key_serde schema) scope (some key) ≡ ok in_key
      → in_key ≡ key_text scope.segments (written_leaf (escapes schema scope) leaf)
  in_key-written scope key leaf in_key p encoded = elim (Result-cases (escaping_for schema scope)) [
    | inl (escape, fits) ↦
        ok-injective
          (sym encoded ∙ encode_in_key-escaped key_serde scope key leaf p schema escape fits)
        ∙ ap (λ e. key_text scope.segments (written_leaf e leaf))
            (escaping_for-escapes schema scope escape fits)
    | inr (exn, refused) ↦
        absurd (raise-ok (sym (encode_in_key-refused scope key exn refused) ∙ encoded))
  ]

  module _ (scope : Scope) (key : K) (leaf : Text) (q : deserialize key_serde leaf ≡ ok key) where
    pub leaf_read :
        leaf_or_none (with_str_keys key_serde schema) (
          maybe_unescape
            (with_str_keys key_serde schema)
            (written_leaf (escapes schema scope) leaf)
            scope)
        ≡ some key
    unfolding leaf_or_none maybe_unescape with_str_keys str_blob_ops
    leaf_read = ground (arith, unescape-segment leaf, q)

  pub listed :
      (segments : List Segment) (key : K) (leaf : Text)
      → deserialize key_serde leaf ≡ ok key
      → leaf ≢ []
      → decode_leaf_from_in_key
          (with_str_keys key_serde schema)
          (record { segments = segments })
          (key_text segments (written_leaf (escapes schema (record { segments = segments })) leaf))
        ≡ ok (some key)
  unfolding decode_leaf_from_in_key leaf_or_none maybe_unescape join_text with_str_keys
  listed [] key leaf q nonempty = ground (arith, encode_in_key-prefix (record { segments = [] }), q)
  listed (segment ∷ segments) key leaf q nonempty =
      let scope : Scope = record { segments = segment ∷ segments } in
      decode_leaf-key_text segment segments (written_leaf (escapes schema scope) leaf)
        (written_leaf-nonempty (escapes schema scope) leaf nonempty)
      ∙ ap ok (leaf_read scope key leaf q)

  -- What a listing reads of a key whose leaf was written in any way.
  pub decode_leaf_from_in_key-key_text :
      (segments : List Segment) (written : Text)
      → written ≢ []
      → decode_leaf_from_in_key
          (with_str_keys key_serde schema)
          (record { segments = segments })
          (key_text segments written)
        ≡ ok (
            leaf_or_none (with_str_keys key_serde schema) (
              maybe_unescape
                (with_str_keys key_serde schema)
                written
                (record { segments = segments })))
  unfolding decode_leaf_from_in_key join_text
  decode_leaf_from_in_key-key_text [] written nonempty =
      ground (arith, encode_in_key-prefix (record { segments = [] }))
  decode_leaf_from_in_key-key_text (segment ∷ segments) written nonempty =
      decode_leaf-key_text segment segments written nonempty

  -- A key that the kvset composed is listed under its scope: the leaf read back is the key,
  -- provided that its codec reads back what it writes for the key, and that the leaf is not empty
  -- where there is a scope.
  pub decode_leaf_from_in_key-encode_in_key :
      (scope : Scope) (key : K) (leaf in_key : Text)
      → serialize key_serde key ≡ ok leaf
      → deserialize key_serde leaf ≡ ok key
      → leaf ≢ []
      → encode_in_key (with_str_keys key_serde schema) scope (some key) ≡ ok in_key
      → decode_leaf_from_in_key (with_str_keys key_serde schema) scope in_key ≡ ok (some key)
  decode_leaf_from_in_key-encode_in_key scope key leaf in_key p q nonempty encoded =
      ap (decode_leaf_from_in_key (with_str_keys key_serde schema) scope)
        (in_key-written scope key leaf in_key p encoded)
      ∙ listed scope.segments key leaf q nonempty
