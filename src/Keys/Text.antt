-- ===== src/Keys/Text.antt =====
-- Python's `str` and `bytes` operations that the key encoding uses. A text is the list of its
-- code points, a blob of bytes the list of its bytes.
pub mod Laws
use Prim.Native.Nat.{compare, Ordering}
use kvtsjl.Prelude.{
  ℕ, zero, suc, ◌+◌, ◌-◌, ◌*◌, ◌/◌, ◌%◌, Bool, true, false, ◌&&◌, List, [], ◌∷◌, ◌++◌, Option, none,
  some, length, drop, ltb, if◌then◌else◌, ℕ_discrete, Eq,
}

abbrev pub Text : Type 0
Text = List ℕ

list_dec : Discrete (List ℕ)
list_dec = hlevel ℕ_discrete

instance unfoldable pub text_eq : Eq (List ℕ)
unfolding list_dec
text_eq = record { dec = list_dec }

-- Whether two characters are the same.
abbrev pub same : ℕ → ℕ → Bool
same a b = elim (compare a b) [ Ordering.eq ↦ true | _ ↦ false ]

-- `full.startswith(prefix)`
abbrev pub starts_with : Text → Text → Bool
starts_with full [] = true
starts_with [] (p ∷ prefix) = false
starts_with (c ∷ full) (p ∷ prefix) = same c p && starts_with full prefix

-- `full[len(prefix):]` where `full.startswith(prefix)`
unfoldable pub strip_prefix : Text → Text → Option Text
strip_prefix full prefix =
    if starts_with full prefix then some (drop (length prefix) full) else none

-- `text.replace(old, new)`, where `old` is not empty: the occurrences of `old` that do not overlap,
-- from the left. `skip` counts the characters of an occurrence that are left to pass over.
unfoldable pub replace_from : ℕ → Text → Text → Text → Text
replace_from skip old new [] = []
replace_from (suc skip) old new (c ∷ text) = replace_from skip old new text
replace_from zero old new (c ∷ text) = elim (starts_with (c ∷ text) old) [
  | true ↦ new ++ replace_from (length old - 1) old new text
  | false ↦ c ∷ replace_from zero old new text
]

unfoldable pub replace : Text → Text → Text → Text
unfolding replace_from
replace old new text = replace_from 0 old new text

-- The first token of a list of tokens grows by a character.
abbrev pub grow : ℕ → List Text → List Text
grow c [] = (c ∷ []) ∷ []
grow c (token ∷ tokens) = (c ∷ token) ∷ tokens

-- `text.split(sep)`, where `sep` is not empty.
unfoldable pub split_from : ℕ → Text → Text → List Text
split_from skip sep [] = [] ∷ []
split_from (suc skip) sep (c ∷ text) = split_from skip sep text
split_from zero sep (c ∷ text) = elim (starts_with (c ∷ text) sep) [
  | true ↦ [] ∷ split_from (length sep - 1) sep text
  | false ↦ grow c (split_from zero sep text)
]

unfoldable pub split : Text → Text → List Text
unfolding split_from
split sep text = split_from 0 sep text

-- `sep.join(tokens)`
unfoldable pub join_text : Text → List Text → Text
join_text sep [] = []
join_text sep (token ∷ []) = token
join_text sep (token ∷ other ∷ tokens) = token ++ (sep ++ join_text sep (other ∷ tokens))

-- `c.encode("utf-8")` of a character that is no surrogate.
unfoldable pub utf8 : ℕ → List ℕ
utf8 c =
    if ltb c 128
    then c ∷ []
    else if ltb c 2048
    then (192 + c / 64) ∷ (128 + c % 64) ∷ []
    else if ltb c 65536
    then (224 + c / 4096) ∷ (128 + c / 64 % 64) ∷ (128 + c % 64) ∷ []
    else (240 + c / 262144) ∷ (128 + c / 4096 % 64) ∷ (128 + c / 64 % 64) ∷ (128 + c % 64) ∷ []

unfoldable pub encode_utf8 : Text → List ℕ
unfolding utf8
encode_utf8 [] = []
encode_utf8 (c ∷ text) = utf8 c ++ encode_utf8 text
