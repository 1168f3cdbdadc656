-- ===== src/Keys/KvSet/Siblings.antt =====
-- What a listing under a scope does with the keys of a scope whose last id is longer:
-- `decode_leaf_from_in_key` of src/kvtsjl/store/schema/kvset.py.
use kvtsjl.Prelude.{
  ◌≡◌, ◌≢◌, refl, sym, ap, ◌∙◌, true, List, [], ◌∷◌, ◌++◌, append_assoc, none, some, arith,
}
use kvtsjl.Errors.{ok}
use kvtsjl.Serde.{SerDe, serialize, deserialize}
use kvtsjl.Keys.Text.{Text, join_text, starts_with}
use kvtsjl.Keys.Text.Laws.{starts_with-append, free}
use kvtsjl.Keys.Escape.{escape_segment}
use kvtsjl.Keys.Escape.Laws.{escape_segment-append, free-escape_segment}
use kvtsjl.Keys.Scope.{Segment, Scope, extend}
use kvtsjl.Keys.KvSet.{
  with_str_keys, encode_in_key, decode_leaf_from_in_key, after_prefix, leaf_or_none, maybe_unescape,
}
use kvtsjl.Keys.KvSet.Parts.{escaped_parts, key_text}
use kvtsjl.Keys.KvSet.Listing.{
  prefix_text, key_text-prefix_text, encode_in_key-prefix, decode_leaf-prefix, in_key-written,
  escape_segment-nonempty,
}

abbrev with_last : List Segment → Text → Text → List Segment
with_last segments kind id = segments ++ record { kind = kind; id = id } ∷ []

join_text-last :
    (parts : List Text) (a b : Text)
    → join_text (58 ∷ []) (parts ++ (a ++ b) ∷ []) ≡ join_text (58 ∷ []) (parts ++ a ∷ []) ++ b
unfolding join_text
join_text-last [] a b = refl
join_text-last (part ∷ []) a b = sym (append_assoc part (58 ∷ a) b)
join_text-last (part ∷ other ∷ parts) a b =
    ap (λ t. part ++ 58 ∷ t) (join_text-last (other ∷ parts) a b)
    ∙ sym (append_assoc part (58 ∷ join_text (58 ∷ []) (other ∷ parts ++ a ∷ [])) b)

escaped_parts-with_last :
    (segments : List Segment) (kind id : Text)
    → escaped_parts (with_last segments kind id)
      ≡ (escaped_parts segments ++ escape_segment kind (58 ∷ []) ∷ [])
        ++ escape_segment id (58 ∷ []) ∷ []
escaped_parts-with_last [] kind id = refl
escaped_parts-with_last (segment ∷ segments) kind id =
    ap
      (λ parts. escape_segment segment.kind (58 ∷ []) ∷ escape_segment segment.id (58 ∷ []) ∷ parts)
      (escaped_parts-with_last segments kind id)

-- The prefix of a scope is the beginning of the prefix of every scope whose last id is longer.
prefix_text-longer :
    (segments : List Segment) (kind id more : Text)
    → prefix_text (with_last segments kind (id ++ more))
      ≡ prefix_text (with_last segments kind id) ++ escape_segment more (58 ∷ [])
prefix_text-longer segments kind id more =
    let before : List Text = escaped_parts segments ++ escape_segment kind (58 ∷ []) ∷ [] in
    ap (join_text (58 ∷ [])) (escaped_parts-with_last segments kind (id ++ more))
    ∙ ap (λ t. join_text (58 ∷ []) (before ++ t ∷ [])) (escape_segment-append id more)
    ∙ join_text-last before (escape_segment id (58 ∷ [])) (escape_segment more (58 ∷ []))
    ∙ ap (λ parts. join_text (58 ∷ []) parts ++ escape_segment more (58 ∷ []))
        (sym (escaped_parts-with_last segments kind id))

-- `with_last` is not empty.
key_text-with_last :
    (segments : List Segment) (kind id leaf : Text)
    → key_text (with_last segments kind id) leaf
      ≡ prefix_text (with_last segments kind id) ++ 58 ∷ leaf
key_text-with_last [] kind id leaf = key_text-prefix_text (record { kind = kind; id = id }) [] leaf
key_text-with_last (segment ∷ segments) kind id leaf =
    key_text-prefix_text segment (with_last segments kind id) leaf

module _ {K : Type 0} (key_serde : SerDe K Text) (schema : List Text) where
  after_prefix-foreign :
      (scope : Scope) (text rest : Text)
      → free 58 text ≡ true
      → text ≢ []
      → after_prefix (with_str_keys key_serde (some schema)) scope (some (text ++ rest))
        ≡ leaf_or_none (with_str_keys key_serde (some schema)) (text ++ rest)
  unfolding with_str_keys maybe_unescape
  after_prefix-foreign scope [] rest p nonempty = absurd (nonempty refl)
  after_prefix-foreign scope (c ∷ text) rest p nonempty = ground (arith, p)

  leaf_or_none-ok :
      (blob : Text) (key : K)
      → deserialize key_serde blob ≡ ok key
      → leaf_or_none (with_str_keys key_serde (some schema)) blob ≡ some key
  unfolding leaf_or_none with_str_keys
  leaf_or_none-ok blob key r = ground (arith, r)

  decode_leaf-with_last :
      (segments : List Segment) (kind id rest : Text)
      → decode_leaf_from_in_key
          (with_str_keys key_serde (some schema))
          (record { segments = with_last segments kind id })
          (prefix_text (with_last segments kind id) ++ rest)
        ≡ ok (
            after_prefix
              (with_str_keys key_serde (some schema))
              (record { segments = with_last segments kind id })
              (some rest))
  decode_leaf-with_last [] kind id rest =
      decode_leaf-prefix key_serde (some schema) (record { kind = kind; id = id }) [] rest
  decode_leaf-with_last (segment ∷ segments) kind id rest =
      decode_leaf-prefix key_serde (some schema) segment (with_last segments kind id) rest

  -- A key of the scope that ends in the id `id ++ more` is listed under the scope that ends in
  -- `id`, under a declared schema: the text of the key begins with that scope's prefix, and what
  -- the listing reads as the leaf is the rest of the id, a separator and the leaf.
  pub decode_leaf_from_in_key-longer_id :
      (scope : Scope) (kind id more : Text) (key phantom : K) (leaf in_key : Text)
      → more ≢ []
      → serialize key_serde key ≡ ok leaf
      → deserialize key_serde (escape_segment more (58 ∷ []) ++ 58 ∷ leaf) ≡ ok phantom
      → encode_in_key
          (with_str_keys key_serde (some schema))
          (extend scope kind (id ++ more))
          (some key)
        ≡ ok in_key
      → ((prefix : Text) × (encode_in_key
              (with_str_keys key_serde (some schema))
              (extend scope kind id)
              none
            ≡ ok prefix)
          × (starts_with in_key prefix ≡ true))
        × (decode_leaf_from_in_key
              (with_str_keys key_serde (some schema))
              (extend scope kind id)
              in_key
            ≡ ok (some phantom))
  unfolding extend
  decode_leaf_from_in_key-longer_id scope kind id more key phantom leaf in_key p q r encoded =
      let short : List Segment = with_last scope.segments kind id in
      let rest : Text = escape_segment more (58 ∷ []) ++ 58 ∷ leaf in
      let split : in_key ≡ prefix_text short ++ rest =
        in_key-written key_serde (some schema) (extend scope kind (id ++ more)) key leaf in_key q
          encoded
        ∙ key_text-with_last scope.segments kind (id ++ more) leaf
        ∙ ap (λ t. t ++ 58 ∷ leaf) (prefix_text-longer scope.segments kind id more)
        ∙ append_assoc (prefix_text short) (escape_segment more (58 ∷ [])) (58 ∷ leaf) in
      (
        (
          prefix_text short,
          encode_in_key-prefix key_serde (some schema) (record { segments = short }),
          ap (λ t. starts_with t (prefix_text short)) split
              ∙ starts_with-append (prefix_text short) rest,
        ),
        (ap
              (decode_leaf_from_in_key (with_str_keys key_serde (some schema))
                (record { segments = short }))
              split
            ∙ decode_leaf-with_last scope.segments kind id rest
            ∙ ap ok (
                after_prefix-foreign (record { segments = short }) (escape_segment more (58 ∷ []))
                  (58 ∷ leaf) (free-escape_segment more) (escape_segment-nonempty more p)
                ∙ leaf_or_none-ok rest phantom r)),
      )
