-- ===== src/Batching/Laws.antt =====
-- The chunks of src/kvtsjl/batching.py: what they hold, how long they are, and that the two ways
-- of cutting agree.
use kvtsjl.Prelude.{
  ℕ, zero, suc, ◌-◌, ◌≤◌, ◌<◌, ◌≡◌, refl, sym, ap, ◌∙◌, List, [], ◌∷◌, ◌++◌, length, take, drop,
  leb, append-nil, append_assoc, length-append, length-drop, length-take-le, take-append-drop,
  Bool-cases, inl, inr, arith, ap₂, leb→le, leb→lt, length-take, take_of_length-le,
  drop_of_length-le, true,
}
use kvtsjl.Errors.{ok, raise, value_error}
use kvtsjl.Batching.{collect_chunks, iter_chunks, slices, chunk_sequence}

abbrev pub concat {ℓ} : {A : Type ℓ} → List (List A) → List A
concat [] = []
concat (c ∷ cs) = c ++ concat cs

-- No chunk is empty, and none is longer than `size`.
abbrev pub Fits {ℓ} : {A : Type ℓ} → ℕ → List (List A) → Type 0
Fits size [] = Unit
Fits size (c ∷ cs) = (0 < length c) × (length c ≤ size) × Fits size cs

-- Every chunk but the last is full.
abbrev pub IsFull {ℓ} : {A : Type ℓ} → ℕ → List (List A) → Type 0
IsFull size [] = Unit
IsFull size (c ∷ []) = Unit
IsFull size (c ∷ d ∷ cs) = (length c ≡ size) × IsFull size (d ∷ cs)

module _ {ℓ} {A : Type ℓ} where
  concat-slices :
      (fuel size : ℕ) (items : List A)
      → 0 < size
      → length items ≤ fuel
      → concat (slices fuel size items) ≡ items
  unfolding slices
  concat-slices zero size [] p h = refl
  concat-slices zero size (x ∷ items) p h = absurd (omega arith)
  concat-slices (suc fuel) size [] p h = refl
  concat-slices (suc fuel) size (x ∷ items) p h =
      ap (◌++◌ (take size (x ∷ items))) (
        concat-slices fuel size (drop size (x ∷ items)) p
          (omega (arith, length-drop size (x ∷ items))))
      ∙ take-append-drop size (x ∷ items)

  Fits-slices : (fuel size : ℕ) (items : List A) → 0 < size → Fits size (slices fuel size items)
  unfolding slices
  Fits-slices zero size items p = tt
  Fits-slices (suc fuel) size [] p = tt
  Fits-slices (suc fuel) zero (x ∷ items) p = absurd (omega arith)
  Fits-slices (suc fuel) (suc size) (x ∷ items) p = (
    omega arith,
    length-take-le (suc size) (x ∷ items),
    Fits-slices fuel (suc size) (drop size items) p,
  )

  IsFull-slices :
      (fuel size : ℕ) (items : List A)
      → 0 < size
      → length items ≤ fuel
      → IsFull size (slices fuel size items)
  unfolding slices
  IsFull-slices zero size items p h = tt
  IsFull-slices (suc fuel) size [] p h = tt
  IsFull-slices (suc fuel) size (x ∷ items) p h =
      go fuel (drop size (x ∷ items)) (length-drop size (x ∷ items)) (
        IsFull-slices fuel size (drop size (x ∷ items)) p
          (omega (arith, length-drop size (x ∷ items))))
    where
      go :
          (f : ℕ) (rest : List A)
          → length rest ≡ suc (length items) - size
          → IsFull size (slices f size rest)
          → IsFull size (take size (x ∷ items) ∷ slices f size rest)
      go zero rest e full = tt
      go (suc f) [] e full = tt
      go (suc f) (y ∷ rest) e full = (omega (arith, length-take size (x ∷ items)), full)

  pub take-append_exact : (xs ys : List A) (n : ℕ) → length xs ≡ n → take n (xs ++ ys) ≡ xs
  take-append_exact [] ys zero e = refl
  take-append_exact [] ys (suc n) e = absurd (omega arith)
  take-append_exact (x ∷ xs) ys zero e = absurd (omega arith)
  take-append_exact (x ∷ xs) ys (suc n) e = ap (◌∷◌ x) (take-append_exact xs ys n (omega arith))

  drop-append_exact : (xs ys : List A) (n : ℕ) → length xs ≡ n → drop n (xs ++ ys) ≡ ys
  drop-append_exact [] ys zero e = refl
  drop-append_exact [] ys (suc n) e = absurd (omega arith)
  drop-append_exact (x ∷ xs) ys zero e = absurd (omega arith)
  drop-append_exact (x ∷ xs) ys (suc n) e = drop-append_exact xs ys n (omega arith)

  -- One more slice: what stands before the cut is the slice, what follows is sliced on.
  slices-append :
      (fuel size : ℕ) (xs ys : List A)
      → 0 < size
      → length xs ≡ size
      → slices (suc fuel) size (xs ++ ys) ≡ xs ∷ slices fuel size ys
  unfolding slices
  slices-append fuel size [] ys p e = absurd (omega arith)
  slices-append fuel size (x ∷ xs) ys p e =
      ap₂ (λ a b. a ∷ slices fuel size b) (take-append_exact (x ∷ xs) ys size e)
        (drop-append_exact (x ∷ xs) ys size e)

  slices_short :
      (fuel size : ℕ) (x : A) (xs : List A)
      → length (x ∷ xs) ≤ size
      → slices (suc fuel) size (x ∷ xs) ≡ (x ∷ xs) ∷ []
  unfolding slices
  slices_short fuel size x xs h =
      ap₂ (λ a b. a ∷ slices fuel size b) (take_of_length-le size (x ∷ xs) h)
        (drop_of_length-le size (x ∷ xs) h)
      ∙ ap (◌∷◌ (x ∷ xs)) (nil fuel)
    where
      nil : (f : ℕ) → slices {A = A} f size [] ≡ []
      nil zero = refl
      nil (suc f) = refl

  collect_chunks-eq-slices :
      (fuel size : ℕ) (chunk items : List A)
      → length chunk < size
      → length (chunk ++ items) ≤ fuel
      → collect_chunks size chunk items ≡ slices fuel size (chunk ++ items)
  unfolding collect_chunks
  collect_chunks-eq-slices zero size [] [] p h = unfold slices in refl
  collect_chunks-eq-slices (suc fuel) size [] [] p h = unfold slices in refl
  collect_chunks-eq-slices zero size (c ∷ chunk) [] p h = absurd (omega arith)
  collect_chunks-eq-slices (suc fuel) size (c ∷ chunk) [] p h =
      rw append-nil (sym (slices_short fuel size c chunk (omega arith)))
  collect_chunks-eq-slices zero size chunk (item ∷ items) p h =
      absurd (omega (arith, length-append chunk (item ∷ items)))
  collect_chunks-eq-slices (suc fuel) size chunk (item ∷ items) p h =
      elim (Bool-cases (leb size (length (chunk ++ item ∷ [])))) [
        | inl full ↦ ground (
          arith,
          full_step,
          collect_chunks-eq-slices fuel size [] items (omega arith)
              (omega (arith, length-append chunk (item ∷ items))),
        )
        | inr room ↦ ground (
          arith,
          regroup,
          collect_chunks-eq-slices (suc fuel) size (chunk ++ item ∷ []) items (leb→lt _ _ room) (
              omega (
                arith,
                length-append (chunk ++ item ∷ []) items,
                length-append chunk (item ∷ items),
                length-append chunk (item ∷ []),
              )),
        )
      ]
    where
      regroup : (chunk ++ item ∷ []) ++ items ≡ chunk ++ item ∷ items
      regroup = append_assoc chunk (item ∷ []) items

      full_step :
          leb size (length (chunk ++ item ∷ [])) ≡ true
          → slices (suc fuel) size (chunk ++ item ∷ items)
            ≡ (chunk ++ item ∷ []) ∷ slices fuel size items
      full_step full =
          ap (slices (suc fuel) size) (sym regroup)
          ∙ slices-append fuel size (chunk ++ item ∷ []) items (omega arith)
              (omega (arith, leb→le _ _ full, length-append chunk (item ∷ [])))

  -- For a size of at least 1 the slices of `chunk_sequence`, joined, are the items in their order;
  -- no slice is empty or longer than the size, and every slice but the last has exactly the size.
  pub chunk_sequence-partition :
      (items : List A) (size : ℕ)
      → 0 < size
      → (cs : List (List A)) × (chunk_sequence items size ≡ ok cs)
        × (concat cs ≡ items)
        × Fits size cs
        × IsFull size cs
  unfolding chunk_sequence
  chunk_sequence-partition items size p = (
    slices (length items) size items,
    ground arith,
    concat-slices (length items) size items p (omega arith),
    Fits-slices (length items) size items p,
    IsFull-slices (length items) size items p (omega arith),
  )

  -- `iter_chunks`, which collects items one by one, ends as `chunk_sequence` does at every size: it
  -- yields exactly the same slices; and both refuse a size of 0 with a `ValueError`.
  pub iter_chunks-eq-chunk_sequence :
      (items : List A) (size : ℕ)
      → (iter_chunks items size ≡ chunk_sequence items size)
        × (iter_chunks items 0 ≡ raise value_error)
        × (chunk_sequence items 0 ≡ raise value_error)
  unfolding iter_chunks chunk_sequence
  iter_chunks-eq-chunk_sequence items zero = (refl, refl, refl)
  iter_chunks-eq-chunk_sequence items (suc size) = (
    ground (
      arith,
      collect_chunks-eq-slices (length items) (suc size) [] items (omega arith) (omega arith),
    ),
    refl,
    refl,
  )
