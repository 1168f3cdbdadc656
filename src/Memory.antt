-- ===== src/Memory.antt =====
-- src/kvtsjl/backends/memory.py: the in-memory leaf backend, whose entries expire. An entry object
-- is its number, which stands for its identity. `clock n` is the answer of the n-th `time.time()`;
-- an instant is a number of microseconds. No value is `None`.
pub mod Batch
pub mod Versions
pub mod Listing
pub mod View
pub mod Reads
pub mod Expired
pub mod Writes
pub mod Fresh
pub mod Steps
pub mod Evolves
pub mod Conflicts
mod Tests
use kvtsjl.Prelude.{
  ℕ, zero, suc, ◌+◌, ◌*◌, Bool, true, false, not, ◌&&◌, Option, none, some, is_none, is_some, List,
  [], ◌∷◌, Eq, ◌==◌, nat_eq, ltb, leb, length, contains, if◌then◌else◌,
}
use kvtsjl.Prelude.Dict.{Dict, keys, lookup, insert, erase, dedup}
use kvtsjl.Errors.{value_error, Result, ok, raise}
use kvtsjl.Exec.{Exec, pure, throw, lift, ◌>>=◌, ◌>>◌}
use kvtsjl.Batching.{chunk_sequence}
use kvtsjl.Ttl.{
  TtlPolicy, ExpiryGc, lazy_delete, hide, ttl_seconds, second, require_write_clock_supported,
}
use kvtsjl.KeyMap.{Versioned, absent, Change, put, remove, ConditionalWrite}
use kvtsjl.Serde.{SerDe, serialize, deserialize}
use kvtsjl.Keys.Text.{Text, text_eq, starts_with}
use kvtsjl.Keys.Scope.{Scope}
use kvtsjl.Keys.Binding.{CollectionBinding}
use kvtsjl.Keys.KvSet.{KvSet}
use kvtsjl.Keys.Codec.{physical_key_blob, scan_prefix_blob, decode_key_from_physical}

pub record Entry (B : Type 0) : Type 0 where
  pub number : ℕ
  pub value_blob : B
  pub expires_at : Option ℕ
  pub created_at : ℕ
  pub written_at : ℕ

abbrev pub Bucket : Type 0 → Type 0
Bucket B = Dict Text (Entry B)

-- `_MemoryRoot`, with the number of entries that were made and of the clock's readings.
pub record Root (B : Type 0) : Type 0 where
  pub collections : Dict Text (Bucket B)
  pub made : ℕ
  pub ticks : ℕ

pub record Backend (K V B : Type 0) : Type 0 where
  pub kvset : KvSet K
  pub value_serde : SerDe V B
  pub ttl_policy : TtlPolicy
  pub scope : Scope
  pub binding : CollectionBinding Text
  pub batch_size : ℕ
  pub expiry_gc : ExpiryGc

abbrev pub collection_name : Option Text → Text
collection_name none = []
collection_name (some collection) = collection

abbrev pub bucket_at : {B : Type 0} → Root B → Text → Bucket B
bucket_at root name = elim (lookup name root.collections) [ none ↦ [] | some bucket ↦ bucket ]

-- Whether an entry has expired at an instant.
abbrev pub expired_at : {B : Type 0} → Entry B → ℕ → Bool
expired_at entry at = elim entry.expires_at [ none ↦ false | some end ↦ leb end at ]

-- `bucket.pop(pk, None)`
unfoldable pub pop_at : {B : Type 0} → Text → Text → Exec (Root B) (Option (Entry B))
pop_at name pk root = (
  ok (lookup pk (bucket_at root name)),
  record root { collections = insert name (erase pk (bucket_at root name)) root.collections },
)

-- `bucket[pk] = entry`
unfoldable pub store_at : {B : Type 0} → Text → Text → Entry B → Exec (Root B) (Unit {0})
store_at name pk entry root = (
  ok tt,
  record root {
    collections = insert name (insert pk entry (bucket_at root name)) root.collections;
  },
)

-- `_MemoryRoot.bucket`
unfoldable pub open_at : {B : Type 0} → Text → Exec (Root B) (Bucket B)
open_at name root = (
  ok (bucket_at root name),
  record root { collections = insert name (bucket_at root name) root.collections },
)

module _ (clock : ℕ → ℕ) where
  -- `time.time()`
  unfoldable pub time : {B : Type 0} → Exec (Root B) ℕ
  time root = (ok (clock root.ticks), record root { ticks = suc root.ticks })

  unfoldable pub clock_base : {B : Type 0} → Option ℕ → Exec (Root B) ℕ
  unfolding time
  clock_base none = time
  clock_base (some created_at) = pure created_at

  unfoldable pub expired : {B : Type 0} → Entry B → Option ℕ → Exec (Root B) Bool
  unfolding clock_base
  expired entry now = clock_base now >>= λ at. pure (expired_at entry at)

  module _ {K V B : Type 0} (backend : Backend K V B) where
    abbrev pub name : Text
    name = collection_name backend.binding.collection

    abbrev pub physical_key : K → Result Text
    physical_key key = physical_key_blob backend.kvset backend.binding backend.scope key

    abbrev pub resolve_ttl_seconds : Option TtlPolicy → Option ℕ
    resolve_ttl_seconds none = ttl_seconds backend.ttl_policy
    resolve_ttl_seconds (some ttl) = ttl_seconds ttl

    abbrev pub lives_for : Option ℕ → Option ℕ → Exec (Root B) (Option ℕ)
    lives_for none created_at = pure none
    lives_for (some secs) created_at =
        clock_base created_at >>= λ base. pure (some (base + secs * second))

    unfoldable pub expires_at : Option TtlPolicy → Option ℕ → Exec (Root B) (Option ℕ)
    unfolding clock_base ttl_seconds
    expires_at ttl created_at = lives_for (resolve_ttl_seconds ttl) created_at

    -- `if self._expiry_gc is ExpiryGc.LAZY_DELETE: bucket.pop(pk, None)`
    unfoldable pub collect : Text → Exec (Root B) (Unit {0})
    unfolding pop_at
    collect pk = elim backend.expiry_gc [
      | lazy_delete ↦ pop_at name pk >>= λ _. pure tt
      | hide ↦ pure tt
    ]

    abbrev pub live : Text → Option (Entry B) → Exec (Root B) (Option (Entry B))
    live pk none = pure none
    live pk (some entry) =
        expired entry none >>= λ dead. if dead then collect pk >> pure none else pure (some entry)

    unfoldable pub live_entry : K → Exec (Root B) (Option (Entry B))
    unfolding open_at expired collect
    live_entry key =
        lift (physical_key key) >>= λ pk. open_at name >>= λ bucket. live pk (lookup pk bucket)

    abbrev pub read_blob : Option (Entry B) → Result (Option V)
    read_blob none = ok none
    read_blob (some entry) = elim (deserialize backend.value_serde entry.value_blob) [
      | ok value ↦ ok (some value)
      | raise exn ↦ raise exn
    ]

    unfoldable pub get : K → Exec (Root B) (Option V)
    unfolding live_entry deserialize
    get key = live_entry key >>= λ entry. lift (read_blob entry)

    unfoldable pub exists : K → Exec (Root B) Bool
    unfolding live_entry
    exists key = live_entry key >>= λ entry. pure (is_some entry)

    -- The entry of a write, and its store: the base of its expiry is read first, then the time of
    -- the write, then the expiry.
    unfoldable pub store_entry : Text → B → Option TtlPolicy → Option ℕ → Exec (Root B) (Unit {0})
    unfolding clock_base time expires_at store_at
    store_entry pk blob ttl created_at = clock_base created_at >>= λ base. time >>= λ written.
        expires_at ttl created_at >>= λ end. λ root.
          store_at name pk
            (record {
              number = root.made;
              value_blob = blob;
              expires_at = end;
              created_at = base;
              written_at = written;
            })
            (record root { made = suc root.made })

    unfoldable pub set : K → V → Option TtlPolicy → Option ℕ → Exec (Root B) (Unit {0})
    unfolding store_entry serialize require_write_clock_supported
    set key value ttl created_at =
        lift (require_write_clock_supported created_at true)
        >> (lift (physical_key key) >>= λ pk. lift (serialize backend.value_serde value) >>= λ blob.
            store_entry pk blob ttl created_at)

    unfoldable pub delete : K → Exec (Root B) Bool
    unfolding pop_at
    delete key = lift (physical_key key) >>= λ pk. pop_at name pk >>= λ entry. pure (is_some entry)
