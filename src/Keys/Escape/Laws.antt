-- ===== src/Keys/Escape/Laws.antt =====
-- The escaping of src/kvtsjl/schema/blob_ops.py acts on each character by itself, so the
-- unescaping undoes it and an escaped text is free of the separator.
use kvtsjl.Prelude.{
  subst, ℕ, ◌/◌, ◌%◌, ◌<◌, ◌≡◌, ◌≢◌, refl, sym, ap, ap₂, append_assoc, ◌∙◌, true, [], ◌∷◌, ◌++◌,
  if◌then◌else◌, arith,
}
use kvtsjl.Keys.Text.{Text, same, replace, encode_utf8}
use kvtsjl.Keys.Text.Laws.{free}
use kvtsjl.Keys.Escape.{
  hex_digit, escaped_sep, escape_with, unescape_with, escape_segment, unescape_segment,
  str_blob_ops, bytes_blob_ops,
}

abbrev encode_all : (ℕ → Text) → Text → Text
encode_all f [] = []
encode_all f (c ∷ text) = f c ++ encode_all f text

-- What `%` and the separator become, character by character, and what is left of it when only the
-- separator is unescaped.
abbrev percent : ℕ → Text
percent c = if same c 37 then 37 ∷ 50 ∷ 53 ∷ [] else c ∷ []

abbrev encode : ℕ → Text → ℕ → Text
encode s escaped c = if same c 37 then 37 ∷ 50 ∷ 53 ∷ [] else if same c s then escaped else c ∷ []

-- A separator that can be told from the escape of `%`.
abbrev pub IsSeparator : ℕ → Type 0
IsSeparator s = (s < 128) × (s ≢ 37) × (s ≢ 50) × (s ≢ 53)

replace-percent :
    (text : Text) → replace (37 ∷ []) (37 ∷ 50 ∷ 53 ∷ []) text ≡ encode_all percent text
unfolding replace
replace-percent [] = refl
replace-percent (c ∷ text) = ground (arith, replace-percent text)

module _ (s : ℕ) (valid : IsSeparator s) where
  replace-separator :
      (escaped text : Text)
      → replace (s ∷ []) escaped (encode_all percent text) ≡ encode_all (encode s escaped) text
  unfolding replace
  replace-separator escaped [] = refl
  replace-separator escaped (c ∷ text) = ground (arith, replace-separator escaped text, valid)

  module _ (a b : ℕ) (apart : (a ≡ 50) → (b ≢ 53)) where
    unescape-encode :
        (text : Text)
        → replace (37 ∷ a ∷ b ∷ []) (s ∷ []) (encode_all (encode s (37 ∷ a ∷ b ∷ [])) text)
          ≡ encode_all percent text
    unfolding replace
    unescape-encode [] = refl
    unescape-encode (c ∷ text) = ground (arith, unescape-encode text, valid, apart)

replace-plain :
    (text : Text) → replace (37 ∷ 50 ∷ 53 ∷ []) (37 ∷ []) (encode_all percent text) ≡ text
unfolding replace
replace-plain [] = refl
replace-plain (c ∷ text) = ground (arith, replace-plain text)

encode_utf8-ascii : (s : ℕ) → s < 128 → encode_utf8 (s ∷ []) ≡ s ∷ []
unfolding encode_utf8
encode_utf8-ascii s small = ground arith

hex_digit-apart : (s : ℕ) → s ≢ 37 → hex_digit (s / 16) ≡ 50 → hex_digit (s % 16) ≢ 53
hex_digit-apart s differs = ground arith

module _ (s : ℕ) (valid : IsSeparator s) where
  escape_with-encode_all :
      (escaped text : Text) → escape_with escaped text (s ∷ []) ≡ encode_all (encode s escaped) text
  unfolding escape_with
  escape_with-encode_all escaped text =
      ap (replace (s ∷ []) escaped) (replace-percent text) ∙ replace-separator s valid escaped text

  unescape_with-escape_with :
      (a b : ℕ) (text : Text)
      → ((a ≡ 50) → (b ≢ 53))
      → unescape_with (37 ∷ a ∷ b ∷ []) (escape_with (37 ∷ a ∷ b ∷ []) text (s ∷ [])) (s ∷ [])
        ≡ text
  unfolding unescape_with
  unescape_with-escape_with a b text apart =
      ap (λ t. replace (37 ∷ 50 ∷ 53 ∷ []) (37 ∷ []) (replace (37 ∷ a ∷ b ∷ []) (s ∷ []) t))
        (escape_with-encode_all (37 ∷ a ∷ b ∷ []) text)
      ∙ ap (replace (37 ∷ 50 ∷ 53 ∷ []) (37 ∷ [])) (unescape-encode s valid a b apart text)
      ∙ replace-plain text

  undo :
      (text : Text)
      → unescape_with
          (escaped_sep (s ∷ []))
          (escape_with (escaped_sep (s ∷ [])) text (s ∷ []))
          (s ∷ [])
        ≡ text
  unfolding escaped_sep
  undo text =
      unescape_with-escape_with (hex_digit (s / 16)) (hex_digit (s % 16)) text
        (hex_digit-apart s valid.1)

  pub unescape_segment-escape_segment :
      (text : Text) → unescape_segment (escape_segment text (s ∷ [])) (s ∷ []) ≡ text
  unfolding unescape_segment escape_segment
  unescape_segment-escape_segment text =
      subst
        (λ bytes.
          unescape_with (escaped_sep bytes) (escape_with (escaped_sep bytes) text (s ∷ [])) (s ∷ [])
          ≡ text)
        (sym (encode_utf8-ascii s valid.0)) (undo text)

  -- A segment or a leaf that is escaped is read back as it was, by the texts' operations and by
  -- the bytes', whatever it contains: separators, percent signs and escapes. The separator is one
  -- ASCII character that is not `%`, `2` or `5`.
  pub unescape-escape :
      (text : Text)
      → ((str_blob_ops (s ∷ [])).unescape ((str_blob_ops (s ∷ [])).escape text) ≡ text)
        × ((bytes_blob_ops (s ∷ [])).unescape ((bytes_blob_ops (s ∷ [])).escape text) ≡ text)
  unfolding str_blob_ops bytes_blob_ops
  unescape-escape text = (
    unescape_segment-escape_segment text,
    subst
        (λ bytes.
          unescape_with (escaped_sep bytes) (escape_with (escaped_sep bytes) text bytes) bytes
          ≡ text)
        (sym (encode_utf8-ascii s valid.0)) (undo text),
  )

free-encode_all : (text : Text) → free 58 (encode_all (encode 58 (37 ∷ 51 ∷ 65 ∷ [])) text) ≡ true
free-encode_all [] = refl
free-encode_all (c ∷ text) = ground (arith, free-encode_all text)

pub colon-IsSeparator : IsSeparator 58
colon-IsSeparator = (omega arith, (λ e. omega arith), (λ e. omega arith), (λ e. omega arith))

colon-encode_all :
    (text : Text) → escape_segment text (58 ∷ []) ≡ encode_all (encode 58 (37 ∷ 51 ∷ 65 ∷ [])) text
unfolding escape_segment
colon-encode_all text = escape_with-encode_all 58 colon-IsSeparator (37 ∷ 51 ∷ 65 ∷ []) text

-- An escaped segment holds no `:`.
pub free-escape_segment : (text : Text) → free 58 (escape_segment text (58 ∷ [])) ≡ true
free-escape_segment text = ap (free 58) (colon-encode_all text) ∙ free-encode_all text

encode_all-append :
    (f : ℕ → Text) (a b : Text) → encode_all f (a ++ b) ≡ encode_all f a ++ encode_all f b
encode_all-append f [] b = refl
encode_all-append f (c ∷ a) b =
    ap (◌++◌ (f c)) (encode_all-append f a b)
    ∙ sym (append_assoc (f c) (encode_all f a) (encode_all f b))

pub escape_segment-append :
    (a b : Text)
    → escape_segment (a ++ b) (58 ∷ []) ≡ escape_segment a (58 ∷ []) ++ escape_segment b (58 ∷ [])
escape_segment-append a b =
    colon-encode_all (a ++ b)
    ∙ encode_all-append (encode 58 (37 ∷ 51 ∷ 65 ∷ [])) a b
    ∙ ap₂ (λ x y. x ++ y) (sym (colon-encode_all a)) (sym (colon-encode_all b))
