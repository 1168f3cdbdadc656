-- ===== src/Memory/Listing.antt =====
-- The listings of src/kvtsjl/backends/memory.py and the collection of expired entries of
-- src/kvtsjl/store/backend.py. A listing is run to its end at once; where it raises, what it had
-- yielded is not kept.
use kvtsjl.Prelude.{
  ℕ, Bool, true, false, not, Option, none, some, List, [], ◌∷◌, ◌++◌, Eq, ltb, leb, length,
  if◌then◌else◌,
}
use kvtsjl.Prelude.Dict.{keys, lookup}
use kvtsjl.Errors.{value_error, Result, ok, raise}
use kvtsjl.Exec.{Exec, pure, throw, lift, ◌>>=◌, ◌>>◌}
use kvtsjl.Serde.{deserialize}
use kvtsjl.Keys.Text.{Text, text_eq, starts_with}
use kvtsjl.Keys.Codec.{scan_prefix_blob, decode_key_from_physical}
use kvtsjl.Memory.{Entry, Root, Backend, bucket_at, open_at, expired, collect, name}
use kvtsjl.Memory.Batch.{fold_each, batch_delete}

module _ (clock : ℕ → ℕ) {K V B : Type 0} ⦃e : Eq K⦄ (backend : Backend K V B) where
  abbrev pub decode : Text → Result (Option K)
  decode pk = decode_key_from_physical backend.kvset backend.binding backend.scope pk

  abbrev pub listed_value : Bool → Entry B → Result (Option V)
  listed_value false entry = ok none
  listed_value true entry = elim (deserialize backend.value_serde entry.value_blob) [
    | ok value ↦ ok (some value)
    | raise exn ↦ raise exn
  ]

  abbrev pub yield_decoded :
      Bool → Entry B → List (K × Option V) → Option K → Exec (Root B) (List (K × Option V))
  yield_decoded include_values entry rows none = pure rows
  yield_decoded include_values entry rows (some key) =
      lift (listed_value include_values entry) >>= λ value. pure (rows ++ (key, value) ∷ [])

  abbrev pub scan_entry :
      Text
      → Bool
      → List (K × Option V)
      → Text
      → Option (Entry B)
      → Exec (Root B) (List (K × Option V))
  scan_entry prefix include_values rows pk none = pure rows
  scan_entry prefix include_values rows pk (some entry) = expired clock entry none >>= λ dead.
      if dead
      then collect clock backend pk >> pure rows
      else if not (starts_with pk prefix)
      then pure rows
      else lift (decode pk) >>= λ key. yield_decoded include_values entry rows key

  unfoldable pub scan_entries : Option K → Bool → Exec (Root B) (List (K × Option V))
  unfolding open_at fold_each expired collect scan_prefix_blob decode_key_from_physical deserialize
  scan_entries key_prefix include_values =
      lift (scan_prefix_blob backend.kvset backend.binding backend.scope key_prefix) >>= λ prefix.
      open_at (name clock backend) >>= λ bucket.
      fold_each
        (λ rows pk root.
          scan_entry prefix include_values rows pk (lookup pk (bucket_at root (name clock backend)))
            root)
        [] (keys bucket)

  abbrev pub find_decoded : List K → Option K → List K
  find_decoded found none = found
  find_decoded found (some key) = found ++ key ∷ []

  abbrev pub find_expired :
      Text → Option ℕ → List K → Text → Option (Entry B) → Exec (Root B) (List K)
  find_expired prefix now found pk none = pure found
  find_expired prefix now found pk (some entry) = expired clock entry now >>= λ dead.
      if not dead
      then pure found
      else if not (starts_with pk prefix)
      then pure found
      else lift (decode pk) >>= λ key. pure (find_decoded found key)

  -- The loop, which stops when `limit` keys are found.
  unfoldable pub find_each : Text → Option ℕ → ℕ → List K → List Text → Exec (Root B) (List K)
  unfolding expired decode_key_from_physical
  find_each prefix now limit found [] = pure found
  find_each prefix now limit found (pk ∷ pks) = elim (leb limit (length found)) [
    | true ↦ pure found
    | false ↦
        (λ root.
          find_expired prefix now found pk (lookup pk (bucket_at root (name clock backend))) root)
        >>= λ found'. find_each prefix now limit found' pks
  ]

  unfoldable pub expired_keys : Option ℕ → ℕ → Exec (Root B) (List K)
  unfolding open_at find_each scan_prefix_blob
  expired_keys now limit =
      if ltb limit 1
      then throw value_error
      else lift (scan_prefix_blob backend.kvset backend.binding backend.scope none) >>= λ prefix.
          open_at (name clock backend) >>= λ bucket. find_each prefix now limit [] (keys bucket)

  abbrev pub delete_found : List K → Exec (Root B) (List K)
  delete_found [] = pure []
  delete_found (key ∷ found) = batch_delete clock backend (key ∷ found) >> pure (key ∷ found)

  unfoldable pub gc_expired_keys : ℕ → Exec (Root B) (List K)
  unfolding expired_keys batch_delete
  gc_expired_keys max_entries =
      if ltb max_entries 1
      then throw value_error
      else expired_keys none max_entries >>= delete_found
