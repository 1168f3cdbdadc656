-- ===== src/Keys/KvSet/Parts.antt =====
-- The parts of a key whose scope's segments are escaped, and the segments read back from them.
use kvtsjl.Prelude.{
  ◌*◌, ◌≡◌, refl, sym, subst, ap, ◌∙◌, false, contains, List, [], ◌∷◌, ◌++◌, append_assoc,
  append-nil, map, some, length, arith,
}
use kvtsjl.Prelude.Dict.{Dict, insert, keys}
use kvtsjl.Prelude.Distinct.{Distinct, Distinct-fresh}
use kvtsjl.Errors.{ok}
use kvtsjl.Serde.{identity}
use kvtsjl.Keys.Text.{Text, text_eq, join_text, split}
use kvtsjl.Keys.Text.Laws.{AllFree, split-join_text}
use kvtsjl.Keys.Escape.{escape_segment, unescape_segment, str_blob_ops, join_onto, join}
use kvtsjl.Keys.Escape.Laws.{
  unescape_segment-escape_segment, free-escape_segment, colon-IsSeparator,
}
use kvtsjl.Keys.Scope.{Segment, Scope, kinds, segments_of, scope_of}
use kvtsjl.Keys.Binding.{segment_parts}
use kvtsjl.Keys.KvSet.{dict_of, read_segments}

abbrev pub escaped_parts : List Segment → List Text
escaped_parts [] = []
escaped_parts (segment ∷ segments) =
    escape_segment segment.kind (58 ∷ [])
    ∷ escape_segment segment.id (58 ∷ [])
    ∷ escaped_parts segments

abbrev pub pairs : List Segment → List (Text × Text)
pairs [] = []
pairs (segment ∷ segments) = (segment.kind, segment.id) ∷ pairs segments

abbrev pub kinds_of : List Segment → List Text
kinds_of segments = map (λ segment. segment.kind) segments

pub segment_parts-escaped_parts :
    (segments : List Segment)
    → segment_parts identity (str_blob_ops (58 ∷ [])) segments ≡ ok (escaped_parts segments)
unfolding segment_parts identity str_blob_ops
segment_parts-escaped_parts [] = refl
segment_parts-escaped_parts (segment ∷ segments) =
    ground (arith, segment_parts-escaped_parts segments)

pub AllFree-escaped_parts : (segments : List Segment) → AllFree 58 (escaped_parts segments)
AllFree-escaped_parts [] = tt
AllFree-escaped_parts (segment ∷ segments) = (
  free-escape_segment segment.kind,
  (free-escape_segment segment.id, AllFree-escaped_parts segments),
)

pub length-kinds_of : (segments : List Segment) → length (kinds_of segments) ≡ length segments
length-kinds_of [] = refl
length-kinds_of (segment ∷ segments) = omega (arith, length-kinds_of segments)

pub length-escaped_parts :
    (segments : List Segment) → length (escaped_parts segments) ≡ 2 * length (kinds_of segments)
length-escaped_parts [] = refl
length-escaped_parts (segment ∷ segments) = omega (arith, length-escaped_parts segments)

join_text-append :
    (sep a b : Text) (parts : List Text)
    → join_text sep ((a ++ b) ∷ parts) ≡ a ++ join_text sep (b ∷ parts)
unfolding join_text
join_text-append sep a b [] = refl
join_text-append sep a b (part ∷ parts) = append_assoc a b (sep ++ join_text sep (part ∷ parts))

join_onto-join_text :
    (sep out : Text) (parts : List Text) → join_onto sep out parts ≡ join_text sep (out ∷ parts)
unfolding join_onto join_text
join_onto-join_text sep out [] = refl
join_onto-join_text sep out (part ∷ parts) =
    join_onto-join_text sep (out ++ sep ++ part) parts
    ∙ join_text-append sep (out ++ sep) part parts
    ∙ append_assoc out sep (join_text sep (part ∷ parts))

pub join-join_text :
    (parts : List Text) → join (str_blob_ops (58 ∷ [])) parts ≡ join_text (58 ∷ []) parts
unfolding join str_blob_ops join_text
join-join_text [] = refl
join-join_text (part ∷ parts) = join_onto-join_text (58 ∷ []) part parts

pub unescape-segment :
    (text : Text) → unescape_segment (escape_segment text (58 ∷ [])) (58 ∷ []) ≡ text
unescape-segment text = unescape_segment-escape_segment 58 colon-IsSeparator text

pub read_segments-escaped_parts :
    (segments : List Segment) (tokens : List Text)
    → read_segments (58 ∷ []) (kinds_of segments) (escaped_parts segments ++ tokens)
      ≡ some (pairs segments, tokens)
unfolding read_segments
read_segments-escaped_parts [] tokens = refl
read_segments-escaped_parts (segment ∷ segments) tokens = ground (
  arith,
  read_segments-escaped_parts segments tokens,
  unescape-segment segment.kind,
  unescape-segment segment.id,
)

insert-fresh :
    (k v : Text) (d : Dict Text Text)
    → contains (keys d) k ≡ false
    → insert k v d ≡ d ++ (k, v) ∷ []
unfolding insert
insert-fresh k v [] fresh = refl
insert-fresh k v ((j, w) ∷ d) fresh = ground (arith, insert-fresh k v d)

keys-append : (d e : Dict Text Text) → keys (d ++ e) ≡ keys d ++ keys e
keys-append [] e = refl
keys-append ((k, v) ∷ d) e = ap (◌∷◌ k) (keys-append d e)

keys-pairs : (segments : List Segment) → keys (pairs segments) ≡ kinds_of segments
keys-pairs [] = refl
keys-pairs (segment ∷ segments) = ap (◌∷◌ segment.kind) (keys-pairs segments)

dict_of-append :
    (d segments : List (Text × Text))
    → Distinct (keys d ++ keys segments)
    → dict_of d segments ≡ d ++ segments
dict_of-append d [] distinct = sym (append-nil d)
dict_of-append d ((k, v) ∷ segments) distinct =
    ap (λ e. dict_of e segments)
      (insert-fresh k v d (Distinct-fresh (keys d) k (keys segments) distinct))
    ∙ dict_of-append (d ++ (k, v) ∷ []) segments (
        subst (λ ks. Distinct ks)
          (sym (append_assoc (keys d) (k ∷ []) (keys segments))
            ∙ ap (λ ks. ks ++ keys segments) (sym (keys-append d ((k, v) ∷ []))))
          distinct)
    ∙ append_assoc d ((k, v) ∷ []) segments

segments_of-pairs : (segments : List Segment) → segments_of (pairs segments) ≡ segments
segments_of-pairs [] = refl
segments_of-pairs (segment ∷ segments) = ap (◌∷◌ segment) (segments_of-pairs segments)

-- A scope whose kinds are apart is the one made of the dict of its pairs.
pub scope_of-pairs :
    (scope : Scope) → Distinct (kinds scope) → scope_of (dict_of [] (pairs scope.segments)) ≡ scope
scope_of-pairs scope distinct =
    ap (λ segments. record { segments = segments })
      (ap segments_of (
          dict_of-append [] (pairs scope.segments)
            (subst (λ ks. Distinct ks) (sym (keys-pairs scope.segments)) distinct))
        ∙ segments_of-pairs scope.segments)

-- The text of a key.
abbrev pub key_text : List Segment → Text → Text
key_text segments leaf = join_text (58 ∷ []) (escaped_parts segments ++ leaf ∷ [])

pub split-key_text :
    (segments : List Segment) (leaf : Text)
    → split (58 ∷ []) (key_text segments leaf) ≡ escaped_parts segments ++ split (58 ∷ []) leaf
split-key_text segments leaf =
    split-join_text 58 (escaped_parts segments) leaf (AllFree-escaped_parts segments)
