-- ===== src/Serde/Laws.antt =====
-- Pipelines of streaming codecs keep what their stages promise: src/kvtsjl/serde/__init__.py.
use kvtsjl.Prelude.{ℕ, ◌≡◌, sym, ap, ◌∙◌, List, none, some, inl, inr, Option-cases, arith}
use kvtsjl.Errors.{ok, ◌>>=◌, bind-ok}
use kvtsjl.Serde.{SerDe, serialize, deserialize, then, StreamingSerDe, then_streaming}

-- How chunks make up a whole, and how long a whole is.
pub record Chunked (C T : Type 0) : Type 0 where
  pub whole : List C → T
  pub size : T → ℕ

-- Encoding by chunks makes up what encoding the whole makes, decoding by chunks makes up what
-- decoding the whole makes, and a size that is promised is the size of what is written.
pub record Streams {T C B : Type 0} (values : Chunked C T) (blobs : Chunked B B)
    (s : StreamingSerDe T C B) : Type 0 where
  pub encodes :
      (chunks : List C)
      → serialize s.whole (values.whole chunks) ≡ ok (blobs.whole (s.encode_stream chunks))
  pub decodes :
      (wire : List B) (value : T)
      → deserialize s.whole (blobs.whole wire) ≡ ok value
      → values.whole (s.decode_stream wire) ≡ value
  pub promises :
      (value : T) (blob : B) (n : ℕ)
      → serialize s.whole value ≡ ok blob
      → s.encoded_size (some (values.size value)) ≡ some n
      → blobs.size blob ≡ n
  pub unknown : s.encoded_size none ≡ none

module _ {T M B : Type 0} (first : SerDe T M) (second : SerDe M B) where
  serialize-then :
      (value : T)
      → serialize (then first second) value ≡ (serialize first value >>= serialize second)
  unfolding serialize then
  serialize-then value = ground arith

  deserialize-then :
      (blob : B)
      → deserialize (then first second) blob ≡ (deserialize second blob >>= deserialize first)
  unfolding deserialize then
  deserialize-then blob = ground arith

none-some : {A : Type 0} {a : A} → none ≡ some a → ⊥
none-some same = cc

module _ {T C M B : Type 0} (values : Chunked C T) (middle : Chunked M M) (blobs : Chunked B B)
    (first : StreamingSerDe T C M) (second : StreamingSerDe M M B) (f : Streams values middle first)
    (s : Streams middle blobs second) where
  through :
      (chunks : List C)
      → serialize (then first.whole second.whole) (values.whole chunks)
        ≡ ok (blobs.whole (second.encode_stream (first.encode_stream chunks)))
  through chunks =
      serialize-then first.whole second.whole (values.whole chunks)
      ∙ ap (λ r. r >>= serialize second.whole) (f.encodes chunks)
      ∙ s.encodes (first.encode_stream chunks)

  back :
      (wire : List B) (value : T)
      → deserialize (then first.whole second.whole) (blobs.whole wire) ≡ ok value
      → values.whole (first.decode_stream (second.decode_stream wire)) ≡ value
  back wire value p =
      let m =
        bind-ok (deserialize second.whole (blobs.whole wire)) (deserialize first.whole) value
          (sym (deserialize-then first.whole second.whole (blobs.whole wire)) ∙ p) in
      f.decodes (second.decode_stream wire) value
        (ap (deserialize first.whole) (s.decodes wire m.0 m.1) ∙ m.2)

  promised :
      (value : T) (blob : B) (n : ℕ)
      → serialize (then first.whole second.whole) value ≡ ok blob
      → second.encoded_size (first.encoded_size (some (values.size value))) ≡ some n
      → blobs.size blob ≡ n
  promised value blob n p q = elim (Option-cases (first.encoded_size (some (values.size value)))) [
    | inl nothing ↦ absurd (none-some (sym s.unknown ∙ ap second.encoded_size (sym nothing) ∙ q))
    | inr (k, known) ↦
        let m =
          bind-ok (serialize first.whole value) (serialize second.whole) blob
            (sym (serialize-then first.whole second.whole value) ∙ p) in
        s.promises m.0 blob n m.2 (
          ap (λ k. second.encoded_size (some k)) (f.promises value m.0 k m.1 known)
          ∙ ap second.encoded_size (sym known)
          ∙ q)
  ]

  -- `first.then(second)` streams what it serializes, where both do: encoding the chunks of a value
  -- makes up what serializing the value writes, decoding the chunks of a blob makes up what
  -- deserializing it reads, and a size that it promises is the size of what is written.
  pub then_streaming-Streams : Streams values blobs (then_streaming first second)
  unfolding then_streaming
  then_streaming-Streams = record {
    encodes = through;
    decodes = back;
    promises = promised;
    unknown = ap second.encoded_size f.unknown ∙ s.unknown;
  }
