-- ===== src/Keys/Text/Laws.antt =====
-- Splitting a text at a separator of one character undoes joining texts that are free of it.
use kvtsjl.Prelude.{
  ℕ, ◌<◌, ◌≡◌, refl, ap, ◌∙◌, Bool, true, not, List, [], ◌∷◌, ◌++◌, some, all, length, drop, arith,
}
use kvtsjl.Keys.Text.{Text, same, starts_with, strip_prefix, split_from, split, grow, join_text}

-- Whether a text is free of a character.
abbrev pub free : ℕ → Text → Bool
free s text = all text (λ c. not (same c s))

abbrev pub AllFree : ℕ → List Text → Type 0
AllFree s [] = Unit
AllFree s (part ∷ parts) = (free s part ≡ true) × AllFree s parts

pub split-part :
    (s : ℕ) (part text : Text)
    → free s part ≡ true
    → split (s ∷ []) (part ++ s ∷ text) ≡ part ∷ split (s ∷ []) text
unfolding split split_from
split-part s [] text p = ground arith
split-part s (c ∷ part) text p = ground (arith, split-part s part text)

pub split-free : (s : ℕ) (text : Text) → free s text ≡ true → split (s ∷ []) text ≡ text ∷ []
unfolding split split_from
split-free s [] p = refl
split-free s (c ∷ text) p = ground (arith, split-free s text)

grow-nonempty : (c : ℕ) (tokens : List Text) → 0 < length (grow c tokens)
grow-nonempty c [] = omega arith
grow-nonempty c (token ∷ tokens) = omega arith

pub split-nonempty : (s : ℕ) (text : Text) → 0 < length (split (s ∷ []) text)
unfolding split split_from
split-nonempty s [] = omega arith
split-nonempty s (c ∷ text) = ground (arith, grow-nonempty c (split (s ∷ []) text))

join_text-grow :
    (s c : ℕ) (tokens : List Text)
    → join_text (s ∷ []) (grow c tokens) ≡ c ∷ join_text (s ∷ []) tokens
unfolding join_text
join_text-grow s c [] = refl
join_text-grow s c (token ∷ []) = refl
join_text-grow s c (token ∷ other ∷ tokens) = refl

join_text-empty :
    (s : ℕ) (tokens : List Text)
    → 0 < length tokens
    → join_text (s ∷ []) ([] ∷ tokens) ≡ s ∷ join_text (s ∷ []) tokens
unfolding join_text
join_text-empty s [] p = absurd (omega arith)
join_text-empty s (token ∷ tokens) p = refl

-- `s.join(text.split(s))` is the text.
pub join_text-split : (s : ℕ) (text : Text) → join_text (s ∷ []) (split (s ∷ []) text) ≡ text
unfolding split split_from join_text
join_text-split s [] = refl
join_text-split s (c ∷ text) = ground (
  arith,
  join_text-split s text,
  join_text-empty s (split (s ∷ []) text) (split-nonempty s text),
  join_text-grow s c (split (s ∷ []) text),
)

pub starts_with-append : (prefix rest : Text) → starts_with (prefix ++ rest) prefix ≡ true
starts_with-append [] rest = refl
starts_with-append (p ∷ prefix) rest = ground (arith, starts_with-append prefix rest)

pub drop-append : (prefix rest : Text) → drop (length prefix) (prefix ++ rest) ≡ rest
drop-append [] rest = refl
drop-append (p ∷ prefix) rest = drop-append prefix rest

pub strip_prefix-append : (prefix rest : Text) → strip_prefix (prefix ++ rest) prefix ≡ some rest
unfolding strip_prefix
strip_prefix-append prefix rest =
    ground (arith, starts_with-append prefix rest, drop-append prefix rest)

join_text-cons :
    (sep part : Text) (parts : List Text) (last : Text)
    → join_text sep (part ∷ parts ++ last ∷ [])
      ≡ part ++ (sep ++ join_text sep (parts ++ last ∷ []))
unfolding join_text
join_text-cons sep part [] last = refl
join_text-cons sep part (other ∷ parts) last = refl

-- Splitting a key gives back the parts before its last, and what the last is split to.
pub split-join_text :
    (s : ℕ) (parts : List Text) (last : Text)
    → AllFree s parts
    → split (s ∷ []) (join_text (s ∷ []) (parts ++ last ∷ [])) ≡ parts ++ split (s ∷ []) last
unfolding join_text
split-join_text s [] last frees = refl
split-join_text s (part ∷ parts) last frees =
    ap (split (s ∷ [])) (join_text-cons (s ∷ []) part parts last)
    ∙ split-part s part (join_text (s ∷ []) (parts ++ last ∷ [])) frees.0
    ∙ ap (◌∷◌ part) (split-join_text s parts last frees.1)
