-- ===== src/Batching.antt =====
-- src/kvtsjl/batching.py: the chunking helpers. A generator is the list of what it yields, and the
-- thread pool of `map_concurrent` is not modelled.
pub mod Laws
mod Tests
use kvtsjl.Prelude.{
  ℕ, zero, suc, ◌+◌, ◌-◌, ◌≤◌, List, [], ◌∷◌, ◌++◌, length, take, drop, ltb, leb, if◌then◌else◌,
  true, false,
}
use kvtsjl.Errors.{Result, ok, raise, value_error}

module _ {ℓ} {A : Type ℓ} where
  -- The loop of `iter_chunks`: `chunk` holds what was collected since the last `yield`.
  unfoldable pub collect_chunks : ℕ → List A → List A → List (List A)
  collect_chunks size [] [] = []
  collect_chunks size (c ∷ chunk) [] = (c ∷ chunk) ∷ []
  collect_chunks size chunk (item ∷ items) =
      let grown = chunk ++ item ∷ [] in
      elim (leb size (length grown)) [
        | true ↦ grown ∷ collect_chunks size [] items
        | false ↦ collect_chunks size grown items
      ]

  unfoldable pub iter_chunks : List A → ℕ → Result (List (List A))
  unfolding collect_chunks
  iter_chunks items size =
      if ltb size 1 then raise value_error else ok (collect_chunks size [] items)

  -- `items[i : i + size]` for `i` in `range(0, len(items), size)`, on fuel: a round takes at least
  -- one item, so as many rounds as there are items are enough.
  unfoldable pub slices : ℕ → ℕ → List A → List (List A)
  slices zero size items = []
  slices (suc fuel) size [] = []
  slices (suc fuel) size (x ∷ items) =
      take size (x ∷ items) ∷ slices fuel size (drop size (x ∷ items))

  unfoldable pub chunk_sequence : List A → ℕ → Result (List (List A))
  unfolding slices
  chunk_sequence items size =
      if ltb size 1 then raise value_error else ok (slices (length items) size items)
