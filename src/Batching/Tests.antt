-- ===== src/Batching/Tests.antt =====
-- Runs of the chunking helpers of src/kvtsjl/batching.py, and their theorems at them.
use kvtsjl.Prelude.{ℕ, ◌≡◌, refl, List, [], ◌∷◌, arith}
use kvtsjl.Errors.{ok, raise, value_error}
use kvtsjl.Batching.{iter_chunks, chunk_sequence}
use kvtsjl.Batching.Laws.{
  concat, Fits, IsFull, chunk_sequence-partition, iter_chunks-eq-chunk_sequence,
}

abbrev five : List ℕ
five = 1 ∷ 2 ∷ 3 ∷ 4 ∷ 5 ∷ []

iter_five : iter_chunks five 2 ≡ ok ((1 ∷ 2 ∷ []) ∷ (3 ∷ 4 ∷ []) ∷ (5 ∷ []) ∷ [])
unfolding iter_chunks
iter_five = refl

chunk_sequence-partition_example :
    (cs : List (List ℕ)) × (chunk_sequence five 2 ≡ ok cs)
    × (concat cs ≡ five)
    × Fits 2 cs
    × IsFull 2 cs
chunk_sequence-partition_example = chunk_sequence-partition five 2 (omega arith)

iter_chunks-eq-chunk_sequence_example :
    (iter_chunks five 2 ≡ chunk_sequence five 2)
    × (iter_chunks five 0 ≡ raise value_error)
    × (chunk_sequence five 0 ≡ raise value_error)
iter_chunks-eq-chunk_sequence_example = iter_chunks-eq-chunk_sequence five 2
