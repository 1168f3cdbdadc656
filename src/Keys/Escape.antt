-- ===== src/Keys/Escape.antt =====
-- src/kvtsjl/schema/blob_ops.py: the escaping of scope segments and leaves, and the operations on
-- key blobs. `BlobOps` is an abstract class; its two implementations differ in what a separator is
-- escaped to.
pub mod Laws
use kvtsjl.Prelude.{ℕ, ◌+◌, ◌/◌, ◌%◌, List, [], ◌∷◌, ◌++◌, ltb, if◌then◌else◌}
use kvtsjl.Keys.Text.{Text, replace, encode_utf8}

-- A digit of `f"{b:02X}"`.
abbrev pub hex_digit : ℕ → ℕ
hex_digit d = if ltb d 10 then 48 + d else 55 + d

-- `"".join(f"%{b:02X}" for b in blob)`
unfoldable pub escaped_sep : List ℕ → Text
escaped_sep [] = []
escaped_sep (b ∷ bytes) = 37 ∷ hex_digit (b / 16) ∷ hex_digit (b % 16) ∷ escaped_sep bytes

-- `text.replace("%", "%25").replace(separator, escaped)`
unfoldable pub escape_with : Text → Text → Text → Text
unfolding replace
escape_with escaped text separator =
    replace separator escaped (replace (37 ∷ []) (37 ∷ 50 ∷ 53 ∷ []) text)

-- `text.replace(escaped, separator).replace("%25", "%")`
unfoldable pub unescape_with : Text → Text → Text → Text
unfolding replace
unescape_with escaped text separator =
    replace (37 ∷ 50 ∷ 53 ∷ []) (37 ∷ []) (replace escaped separator text)

unfoldable pub escape_segment : Text → Text → Text
unfolding escape_with escaped_sep encode_utf8
escape_segment text separator = escape_with (escaped_sep (encode_utf8 separator)) text separator

unfoldable pub unescape_segment : Text → Text → Text
unfolding unescape_with escaped_sep encode_utf8
unescape_segment text separator = unescape_with (escaped_sep (encode_utf8 separator)) text separator

-- `join` of `BlobOps`: the parts with the separator between them.
unfoldable pub join_onto : Text → Text → List Text → Text
join_onto separator out [] = out
join_onto separator out (part ∷ parts) = join_onto separator (out ++ separator ++ part) parts

pub record BlobOps : Type 0 where
  pub separator : Text
  pub separator_str : Text
  pub escape : Text → Text
  pub unescape : Text → Text

unfoldable pub join : BlobOps → List Text → Text
unfolding join_onto
join ops [] = []
join ops (part ∷ parts) = join_onto ops.separator part parts

unfoldable pub str_blob_ops : Text → BlobOps
unfolding escape_segment unescape_segment
str_blob_ops separator = record {
  separator = separator;
  separator_str = separator;
  escape = λ blob. escape_segment blob separator;
  unescape = λ blob. unescape_segment blob separator;
}

-- `separator` is the text of which the bytes are the separator.
unfoldable pub bytes_blob_ops : Text → BlobOps
unfolding escape_with unescape_with escaped_sep encode_utf8
bytes_blob_ops separator = record {
  separator = encode_utf8 separator;
  separator_str = separator;
  escape = λ blob. escape_with (escaped_sep (encode_utf8 separator)) blob (encode_utf8 separator);
  unescape =
      λ blob. unescape_with (escaped_sep (encode_utf8 separator)) blob (encode_utf8 separator);
}
