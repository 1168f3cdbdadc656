-- ===== src/Keys/KvSet/Apart.antt =====
-- Keys of scoped records where no schema of kinds is declared: src/kvtsjl/store/schema/kvset.py
-- escapes the leaf, so no two of them share a key.
use kvtsjl.Prelude.{◌≡◌, refl, sym, ap, ◌∙◌, true, List, [], ◌∷◌, ◌++◌, none, some, arith}
use kvtsjl.Errors.{ok, ok-injective}
use kvtsjl.Serde.{SerDe, serialize}
use kvtsjl.Keys.Text.{Text, split}
use kvtsjl.Keys.Text.Laws.{split-free}
use kvtsjl.Keys.Escape.{escape_segment, unescape_segment, str_blob_ops}
use kvtsjl.Keys.Escape.Laws.{free-escape_segment}
use kvtsjl.Keys.Scope.{Segment, Scope}
use kvtsjl.Keys.KvSet.{with_str_keys, encode_in_key, is_scoped}
use kvtsjl.Keys.KvSet.Parts.{escaped_parts, key_text, split-key_text, unescape-segment}
use kvtsjl.Keys.KvSet.RoundTrip.{encode_in_key-escaped}

abbrev raw_parts : List Segment → List Text
raw_parts [] = []
raw_parts (segment ∷ segments) = segment.kind ∷ segment.id ∷ raw_parts segments

abbrev unescape_all : List Text → List Text
unescape_all [] = []
unescape_all (part ∷ parts) = unescape_segment part (58 ∷ []) ∷ unescape_all parts

unescape_all-escaped_parts :
    (segments : List Segment) (leaf : Text)
    → unescape_all (escaped_parts segments ++ escape_segment leaf (58 ∷ []) ∷ [])
      ≡ raw_parts segments ++ leaf ∷ []
unescape_all-escaped_parts [] leaf = ground (arith, unescape-segment leaf)
unescape_all-escaped_parts (segment ∷ segments) leaf = ground (
  arith,
  unescape_all-escaped_parts segments leaf,
  unescape-segment segment.kind,
  unescape-segment segment.id,
)

key_text-parts :
    (segments : List Segment) (leaf : Text)
    → unescape_all (split (58 ∷ []) (key_text segments (escape_segment leaf (58 ∷ []))))
      ≡ raw_parts segments ++ leaf ∷ []
key_text-parts segments leaf =
    ap unescape_all (
      split-key_text segments (escape_segment leaf (58 ∷ []))
      ∙ ap (◌++◌ (escaped_parts segments))
          (split-free 58 (escape_segment leaf (58 ∷ [])) (free-escape_segment leaf)))
    ∙ unescape_all-escaped_parts segments leaf

raw_parts-injective :
    (segments others : List Segment) (leaf other : Text)
    → raw_parts segments ++ leaf ∷ [] ≡ raw_parts others ++ other ∷ []
    → (segments ≡ others) × (leaf ≡ other)
raw_parts-injective [] [] leaf other same = (refl, cc)
raw_parts-injective [] (o ∷ []) leaf other same = absurd cc
raw_parts-injective [] (o ∷ p ∷ others) leaf other same = absurd cc
raw_parts-injective (s ∷ []) [] leaf other same = absurd cc
raw_parts-injective (s ∷ t ∷ segments) [] leaf other same = absurd cc
raw_parts-injective (s ∷ segments) (o ∷ others) leaf other same =
    ground (arith, raw_parts-injective segments others leaf other)

module _ {K : Type 0} (key_serde : SerDe K Text) where
  encoded :
      (scope : Scope) (key : K) (leaf in_key : Text)
      → is_scoped scope ≡ true
      → serialize key_serde key ≡ ok leaf
      → encode_in_key (with_str_keys key_serde none) scope (some key) ≡ ok in_key
      → key_text scope.segments (escape_segment leaf (58 ∷ [])) ≡ in_key
  unfolding str_blob_ops
  encoded scope key leaf in_key scoped p f =
      ok-injective
        (sym (encode_in_key-escaped key_serde scope key leaf p none true (ap ok scoped)) ∙ f)

  -- Where no schema is declared, two keys that are composed to the same text under non-empty
  -- scopes have the same scope, and their leaves have the same text: whatever the kinds, the ids
  -- and the leaves contain, and however many segments each scope has.
  pub encode_in_key-injective :
      (scope other : Scope) (key second : K) (leaf second_leaf : Text) (in_key : Text)
      → is_scoped scope ≡ true
      → is_scoped other ≡ true
      → serialize key_serde key ≡ ok leaf
      → serialize key_serde second ≡ ok second_leaf
      → encode_in_key (with_str_keys key_serde none) scope (some key) ≡ ok in_key
      → encode_in_key (with_str_keys key_serde none) other (some second) ≡ ok in_key
      → (scope ≡ other) × (leaf ≡ second_leaf)
  encode_in_key-injective scope other key second leaf second_leaf in_key scoped also p q f g =
      let parts = raw_parts-injective scope.segments other.segments leaf second_leaf (
        sym (key_text-parts scope.segments leaf)
        ∙ ap (λ t. unescape_all (split (58 ∷ []) t))
            (encoded scope key leaf in_key scoped p f
              ∙ sym (encoded other second second_leaf in_key also q g))
        ∙ key_text-parts other.segments second_leaf) in
      (ap (λ segments. record { segments = segments }) parts.0, parts.1)
