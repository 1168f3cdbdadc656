-- ===== src/Serde.antt =====
-- src/kvtsjl/serde/__init__.py: codecs between values and blobs, their pipelines, and codecs that
-- work chunk by chunk. The libraries behind a codec are its functions, which are parameters; a
-- chunk generator is the list of what it yields.
pub mod Laws
mod Tests
use kvtsjl.Prelude.{ℕ, List, Option}
use kvtsjl.Errors.{serde_error, Result, ok, raise, ◌>>=◌}

pub record SerDe (T B : Type 0) : Type 0 where
  pub serializer : T → Result B
  pub deserializer : B → Result T

-- `except Exception as exc: raise KvStoreSerDeError`
abbrev pub serde_failure : {A : Type 0} → Result A → Result A
serde_failure (ok a) = ok a
serde_failure (raise _) = raise serde_error

module _ {T B : Type 0} where
  unfoldable pub serialize : SerDe T B → T → Result B
  serialize s value = serde_failure (s.serializer value)

  unfoldable pub deserialize : SerDe T B → B → Result T
  deserialize s blob = serde_failure (s.deserializer blob)

-- `first.then(second)`, `first >> second`
unfoldable pub then : {T B C : Type 0} → SerDe T B → SerDe B C → SerDe T C
unfolding serialize deserialize
then first second = record {
  serializer = λ value. serialize first value >>= serialize second;
  deserializer = λ blob. deserialize second blob >>= deserialize first;
}

-- `SerDe.identity`, and `SerDe.safe_str` on texts.
unfoldable pub identity : {A : Type 0} → SerDe A A
identity = record { serializer = ok; deserializer = ok }

pub record StreamingSerDe (T C B : Type 0) : Type 0 where
  pub whole : SerDe T B
  pub encode_stream : List C → List B
  pub decode_stream : List B → List C
  pub encoded_size : Option ℕ → Option ℕ

-- `ChainedStreamingSerDe`: `then` of two streaming codecs.
unfoldable pub then_streaming :
    {T C M B : Type 0} → StreamingSerDe T C M → StreamingSerDe M M B → StreamingSerDe T C B
unfolding then
then_streaming first second = record {
  whole = then first.whole second.whole;
  encode_stream = λ chunks. second.encode_stream (first.encode_stream chunks);
  decode_stream = λ chunks. first.decode_stream (second.decode_stream chunks);
  encoded_size = λ size. second.encoded_size (first.encoded_size size);
}

unfoldable pub identity_streaming : {A : Type 0} → StreamingSerDe A A A
unfolding identity
identity_streaming = record {
  whole = identity;
  encode_stream = λ chunks. chunks;
  decode_stream = λ chunks. chunks;
  encoded_size = λ size. size;
}
