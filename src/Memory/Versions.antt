-- ===== src/Memory/Versions.antt =====
-- The conditional writes of src/kvtsjl/backends/memory.py: the entry object is the version.
use kvtsjl.Prelude.{
  ℕ, Bool, true, false, Option, none, some, is_some, List, [], ◌∷◌, ◌++◌, Eq, ◌==◌, nat_eq,
  if◌then◌else◌,
}
use kvtsjl.Prelude.Dict.{Dict, lookup, insert, dedup}
use kvtsjl.Errors.{ok}
use kvtsjl.Exec.{Exec, pure, lift, ◌>>=◌, ◌>>◌}
use kvtsjl.Ttl.{TtlPolicy}
use kvtsjl.KeyMap.{Versioned, absent, Change, put, remove, ConditionalWrite, Conditional}
use kvtsjl.Serde.{deserialize}
use kvtsjl.Keys.Text.{Text, text_eq}
use kvtsjl.Memory.{
  Entry, Root, Backend, bucket_at, open_at, pop_at, expired, set, name, physical_key, read_blob,
}
use kvtsjl.Memory.Batch.{fold_each}

-- `bucket.get(pk) is w.seen.version`
abbrev pub is_version : {B : Type 0} → Option (Entry B) → Option ℕ → Bool
is_version none none = true
is_version (some entry) (some number) = entry.number == number
is_version _ _ = false

module _ (clock : ℕ → ℕ) {K V B : Type 0} ⦃e : Eq K⦄ (backend : Backend K V B) where
  abbrev pub version_of : Option (Entry B) → Exec (Root B) (Versioned V ℕ)
  version_of none = pure absent
  version_of (some entry) = expired clock entry none >>= λ dead.
      lift (read_blob clock backend (if dead then none else some entry)) >>= λ value.
      pure (record { value = value; version = some entry.number })

  -- `bucket` is the collection itself, which is read anew for each key.
  unfoldable pub read_version : K → Exec (Root B) (Versioned V ℕ)
  unfolding expired deserialize
  read_version key = lift (physical_key clock backend key) >>= λ pk.
      λ root. version_of (lookup pk (bucket_at root (name clock backend))) root

  unfoldable pub batch_read_versioned : List K → Exec (Root B) (Dict K (Versioned V ℕ))
  unfolding open_at fold_each read_version
  batch_read_versioned keys = open_at (name clock backend) >>= λ _.
      fold_each (λ out key. read_version key >>= λ seen. pure (insert key seen out)) [] (dedup keys)

  -- The change of an entry that is the one that was read: whether the key counts as written.
  abbrev pub make :
      K → Text → ConditionalWrite V ℕ → Change V → Option TtlPolicy → Exec (Root B) Bool
  make key pk w remove ttl = pop_at (name clock backend) pk >>= λ entry. pure (is_some entry)
  make key pk w (put value) ttl = set clock backend key value ttl w.created_at >> pure true

  unfoldable pub write_one : K → ConditionalWrite V ℕ → Option TtlPolicy → Exec (Root B) Bool
  unfolding pop_at set
  write_one key w ttl = lift (physical_key clock backend key) >>= λ pk. λ root.
      if is_version (lookup pk (bucket_at root (name clock backend))) w.seen.version
      then make key pk w w.change ttl root
      else (ok false, root)

  unfoldable pub batch_write_if_unchanged :
      Dict K (ConditionalWrite V ℕ) → Option TtlPolicy → Exec (Root B) (List K)
  unfolding open_at fold_each write_one
  batch_write_if_unchanged writes ttl = open_at (name clock backend) >>= λ _.
      fold_each
        (λ written w.
          write_one w.0 w.1 ttl >>= λ done. pure (if done then written ++ w.0 ∷ [] else written))
        [] writes

  -- The backend as a medium that can be updated.
  abbrev pub conditional : Conditional (Root B) K V ℕ
  conditional = record {
    batch_read_versioned = batch_read_versioned;
    batch_write_if_unchanged = batch_write_if_unchanged;
  }
