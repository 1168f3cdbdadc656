-- ===== src/Memory/Batch.antt =====
-- The batch operations of src/kvtsjl/backends/memory.py, which run over chunks, and its metadata.
-- A set is the list of its members.
use kvtsjl.Prelude.{
  ℕ, suc, Bool, Option, none, some, is_none, List, [], ◌∷◌, ◌++◌, Eq, contains, if◌then◌else◌,
}
use kvtsjl.Prelude.Dict.{Dict, insert}
use kvtsjl.Exec.{Exec, pure, lift, ◌>>=◌}
use kvtsjl.Batching.{chunk_sequence}
use kvtsjl.Ttl.{TtlPolicy}
use kvtsjl.Topology.Target.{RecordStat}
use kvtsjl.Memory.{Entry, Root, Backend, live_entry, get, exists, set, delete}

-- `for item in items`, where the body changes `out`.
unfoldable pub fold_each : {W S A : Type 0} → (S → A → Exec W S) → S → List A → Exec W S
fold_each step out [] = pure out
fold_each step out (item ∷ items) = step out item >>= λ out'. fold_each step out' items

-- `for chunk in chunk_sequence(items, size): for item in chunk`
unfoldable pub fold_chunks : {W S A : Type 0} → (S → A → Exec W S) → S → List A → ℕ → Exec W S
unfolding fold_each chunk_sequence
fold_chunks step out items size =
    lift (chunk_sequence items size) >>= λ chunks. fold_each (fold_each step) out chunks

abbrev pub stat_of : {B : Type 0} → Option (Entry B) → Option RecordStat
stat_of none = none
stat_of (some entry) = some (record {
  created_at = some entry.created_at;
  modified_at = some entry.written_at;
  expires_at = entry.expires_at;
  size = none;
  etag = none;
  persistent = is_none entry.expires_at;
})

-- `if value is not None: out[key] = value`
abbrev pub keep_found : {K A : Type 0} ⦃e : Eq K⦄ → Dict K A → K → Option A → Dict K A
keep_found out key none = out
keep_found out key (some a) = insert key a out

abbrev pub add_member : {K : Type 0} ⦃e : Eq K⦄ → List K → K → Bool → List K
add_member out key member =
    if member then (if contains out key then out else out ++ key ∷ []) else out

module _ (clock : ℕ → ℕ) {K V B : Type 0} ⦃e : Eq K⦄ (backend : Backend K V B) where
  unfoldable pub stat : K → Exec (Root B) (Option RecordStat)
  unfolding live_entry
  stat key = live_entry clock backend key >>= λ entry. pure (stat_of entry)

  unfoldable pub batch_exists : List K → Exec (Root B) (List K)
  unfolding fold_each exists
  batch_exists keys =
      fold_each (λ out key. exists clock backend key >>= λ member. pure (add_member out key member))
        [] keys

  unfoldable pub batch_stat : List K → Exec (Root B) (Dict K RecordStat)
  unfolding fold_each stat
  batch_stat keys =
      fold_each (λ out key. stat key >>= λ meta. pure (keep_found out key meta)) [] keys

  unfoldable pub batch_get : List K → Exec (Root B) (Dict K V)
  unfolding fold_chunks get
  batch_get keys =
      fold_chunks (λ out key. get clock backend key >>= λ value. pure (keep_found out key value)) []
        keys backend.batch_size

  unfoldable pub batch_set : Dict K V → Option TtlPolicy → Option ℕ → Exec (Root B) (Unit {0})
  unfolding fold_chunks set
  batch_set items ttl created_at =
      fold_chunks (λ _ item. set clock backend item.0 item.1 ttl created_at) tt items
        backend.batch_size

  unfoldable pub batch_delete : List K → Exec (Root B) ℕ
  unfolding fold_chunks delete
  batch_delete keys =
      fold_chunks
        (λ deleted key.
          delete clock backend key >>= λ held. pure (if held then suc deleted else deleted))
        0 keys backend.batch_size
