-- ===== src/Memory/Expired.antt =====
-- What `expired_keys` of src/kvtsjl/backends/memory.py lists at a given instant, against a
-- description of the keys that are due for collection.
use kvtsjl.Prelude.{
  ℕ, suc, ◌≤◌, ◌<◌, ◌≡◌, refl, sym, ap, ◌∙◌, false, ◌&&◌, Option, none, some, List, [], ◌∷◌, ◌++◌,
  Eq, leb, ltb, length, take, Bool-cases, inl, inr, arith, append-nil, append_assoc, leb→le, leb→lt,
  length-append, take_of_length-le, if◌then◌else◌,
}
use kvtsjl.Prelude.Dict.{keys, lookup}
use kvtsjl.Errors.{ok}
use kvtsjl.Batching.Laws.{take-append_exact}
use kvtsjl.Keys.Text.{Text, text_eq, starts_with}
use kvtsjl.Keys.Codec.{scan_prefix_blob}
use kvtsjl.Memory.{Entry, Root, Backend, bucket_at, open_at, expired, expired_at, clock_base, name}
use kvtsjl.Memory.Listing.{decode, find_decoded, find_expired, find_each, expired_keys}
use kvtsjl.Memory.View.{entry-open_at}

-- What stands behind a physical key, if its entry has expired and the key begins with a prefix.
abbrev pub due : {K B : Type 0} → Text → ℕ → Option (Entry B) → Text → Option K → Option K
due prefix at none pk key = none
due prefix at (some entry) pk key =
    if expired_at entry at && starts_with pk prefix then key else none

abbrev pub with_due : {K : Type 0} → Option K → List K → List K
with_due none rest = rest
with_due (some key) rest = key ∷ rest

module _ (clock : ℕ → ℕ) {K V B : Type 0} ⦃e : Eq K⦄ (backend : Backend K V B) where
  -- The listing decodes each of these physical keys as `read` says.
  abbrev pub Reads : (Text → Option K) → List Text → Type 0
  Reads read [] = Unit
  Reads read (pk ∷ pks) = (decode clock backend pk ≡ ok (read pk)) × Reads read pks

  -- The keys behind these physical keys that are due at an instant, in order.
  abbrev pub all_due : Root B → Text → ℕ → (Text → Option K) → List Text → List K
  all_due root prefix at read [] = []
  all_due root prefix at read (pk ∷ pks) =
      with_due (due prefix at (lookup pk (bucket_at root (name clock backend))) pk (read pk))
        (all_due root prefix at read pks)

  append-find_decoded :
      (found rest : List K) (key : Option K)
      → find_decoded clock backend found key ++ rest ≡ found ++ with_due key rest
  append-find_decoded found rest none = refl
  append-find_decoded found rest (some key) = append_assoc found (key ∷ []) rest

  length-find_decoded :
      (found : List K) (key : Option K)
      → length (find_decoded clock backend found key) ≤ suc (length found)
  length-find_decoded found none = omega arith
  length-find_decoded found (some key) = omega (arith, length-append found (key ∷ []))

  find_expired-due :
      (prefix : Text) (at : ℕ) (found : List K) (pk : Text) (entry : Option (Entry B))
      (key : Option K) (root : Root B)
      → decode clock backend pk ≡ ok key
      → find_expired clock backend prefix (some at) found pk entry root
        ≡ (ok (find_decoded clock backend found (due prefix at entry pk key)), root)
  unfolding expired clock_base
  find_expired-due prefix at found pk none key root reads = refl
  find_expired-due prefix at found pk (some entry) key root reads =
      elim (Bool-cases (expired_at entry at)) [
        | inl dead ↦ elim (Bool-cases (starts_with pk prefix)) [
          | inl inside ↦ rw (dead, inside, reads)
          | inr outside ↦ rw (dead, outside)
        ]
        | inr alive ↦ rw alive
      ]

  find_each-take :
      (prefix : Text) (at limit : ℕ) (read : Text → Option K) (root : Root B) (found : List K)
      (pks : List Text)
      → length found ≤ limit
      → Reads read pks
      → find_each clock backend prefix (some at) limit found pks root
        ≡ (ok (take limit (found ++ all_due root prefix at read pks)), root)
  unfolding find_each
  find_each-take prefix at limit read root found [] room reads =
      ap (λ xs. (ok xs, root))
        (sym (ap (take limit) (append-nil found) ∙ take_of_length-le limit found room))
  find_each-take prefix at limit read root found (pk ∷ pks) room reads =
      elim (Bool-cases (leb limit (length found))) [
        | inl full ↦
            rw (find_each, full)
              (ap (λ xs. (ok xs, root))
                (sym (
                  take-append_exact found (all_due root prefix at read (pk ∷ pks)) limit
                    (omega (arith, leb→le limit (length found) full)))))
        | inr more ↦
            rw
              (
                find_each,
                more,
                find_expired-due prefix at found pk
                    (lookup pk (bucket_at root (name clock backend))) (read pk) root reads.0,
              )
              (find_each-take prefix at limit read root (find_decoded clock backend found key) pks
                  (omega (arith, leb→lt limit (length found) more, length-find_decoded found key))
                  reads.1
                ∙ ap (λ xs. (ok (take limit xs), root))
                    (append-find_decoded found (all_due root prefix at read pks) key))
      ]
    where
      key : Option K
      key = due prefix at (lookup pk (bucket_at root (name clock backend))) pk (read pk)

  all_due-open_at :
      (root : Root B) (prefix : Text) (at : ℕ) (read : Text → Option K) (pks : List Text)
      → all_due (open_at (name clock backend) root).1 prefix at read pks
        ≡ all_due root prefix at read pks
  all_due-open_at root prefix at read [] = refl
  all_due-open_at root prefix at read (pk ∷ pks) = rw (
    entry-open_at root (name clock backend) (name clock backend),
    all_due-open_at root prefix at read pks,
  )

  -- Asked with a limit for the expired keys at an instant, where the physical keys of the collection
  -- are decoded, the backend answers the first keys whose entries have expired and whose physical
  -- keys begin with the text of the scope's prefix, at most as many as the limit, in the order of
  -- the collection, and changes nothing but that the collection is there. The test is of the text
  -- only, so a scope whose last id is longer counts as well.
  pub expired_keys-take :
      (prefix : Text) (at limit : ℕ) (read : Text → Option K) (root : Root B)
      → 0 < limit
      → scan_prefix_blob backend.kvset backend.binding backend.scope none ≡ ok prefix
      → Reads read (keys (bucket_at root (name clock backend)))
      → expired_keys clock backend (some at) limit root ≡ (
        ok (take limit (all_due root prefix at read (keys (bucket_at root (name clock backend))))),
        (open_at (name clock backend) root).1,
      )
  unfolding expired_keys open_at
  expired_keys-take prefix at limit read root some_room composed reads =
      rw (ltb_of_lt limit some_room, composed)
        (find_each-take prefix at limit read (open_at (name clock backend) root).1 []
            (keys (bucket_at root (name clock backend))) (omega arith) reads
          ∙ ap (λ xs. (ok (take limit xs), (open_at (name clock backend) root).1))
              (all_due-open_at root prefix at read (keys (bucket_at root (name clock backend)))))
    where
      ltb_of_lt : (n : ℕ) → 0 < n → ltb n 1 ≡ false
      ltb_of_lt n positive = ground arith
