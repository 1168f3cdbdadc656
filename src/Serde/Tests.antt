-- ===== src/Serde/Tests.antt =====
-- Tests of the codecs, and the instance of what is proved of them.
use kvtsjl.Prelude.{ℕ, ◌≡◌, refl, List, [], ◌∷◌, ◌++◌, length}
use kvtsjl.Errors.{serde_error, value_error, ok, raise}
use kvtsjl.Serde.{
  SerDe, serialize, deserialize, then, identity, StreamingSerDe, then_streaming, identity_streaming,
}
use kvtsjl.Serde.Laws.{Chunked, Streams, then_streaming-Streams}

abbrev concat : List (List ℕ) → List ℕ
concat [] = []
concat (c ∷ cs) = c ++ concat cs

abbrev texts : Chunked (List ℕ) (List ℕ)
texts = record { whole = concat; size = length }

broken : SerDe (List ℕ) (List ℕ)
broken = record { serializer = λ value. raise value_error; deserializer = ok }

failure_wrapped : serialize (then identity broken) (1 ∷ []) ≡ raise serde_error
unfolding serialize then identity broken
failure_wrapped = refl

abbrev plain : StreamingSerDe (List ℕ) (List ℕ) (List ℕ)
plain = identity_streaming

plain-Streams : Streams texts texts plain
unfolding serialize deserialize identity_streaming identity
plain-Streams = record {
  encodes = λ chunks. refl;
  decodes = λ wire value p. cc;
  promises = λ value blob n p q. cc;
  unknown = refl;
}

then_streaming-Streams_example : Streams texts texts (then_streaming plain plain)
then_streaming-Streams_example =
    then_streaming-Streams texts texts texts plain plain plain-Streams plain-Streams
