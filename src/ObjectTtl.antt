-- ===== src/ObjectTtl.antt =====
-- src/kvtsjl/backends/object/ttl.py: how the leaves of object stores interpret an expiry. The
-- classes of `TtlSource` are the constructors of a type. An instant is a number of microseconds, and
-- the sum of an instant and of seconds is exact. `time.time()` is an argument.
pub mod Laws
mod Tests
use kvtsjl.Prelude.{
  ℕ, ◌+◌, ◌*◌, Bool, true, false, ◌||◌, ◌==◌, nat_eq, Option, none, some, String, List, [], ◌∷◌,
  ◌++◌, leb, if◌then◌else◌,
}
use kvtsjl.Ttl.{second}
use kvtsjl.Topology.Target.{RecordStat}

-- `kvtsjl.backends.object.driver.BlobStat`
pub record BlobStat : Type 0 where
  pub modified_at : Option ℕ
  pub native_expires_at : Option ℕ
  pub size : Option ℕ
  pub etag : Option String

pub data TtlSource : Type 0 where
  object_time s3_expires gcs_custom_time azure_metadata filesystem_mtime filesystem_sidecar :
      TtlSource

-- The last second of 2099, and the beginning of that year.
abbrev pub ttl_none_expires_at : ℕ
ttl_none_expires_at = 4102444799 * second

abbrev pub year_2099 : ℕ
year_2099 = 4070908800 * second

unfoldable pub supports_write_clock : TtlSource → Bool
supports_write_clock object_time = false
supports_write_clock _ = true

unfoldable pub supports_per_write_ttl : TtlSource → Bool
supports_per_write_ttl object_time = false
supports_per_write_ttl filesystem_mtime = false
supports_per_write_ttl _ = true

unfoldable pub needs_head_for_list_expiry : TtlSource → Bool
needs_head_for_list_expiry s3_expires = true
needs_head_for_list_expiry _ = false

-- Expiry by the time of the last change and the policy of the collection.
abbrev pub expired_by_policy : Option ℕ → Option ℕ → ℕ → Bool
expired_by_policy (some modified) (some seconds) now = leb (modified + seconds * second) now
expired_by_policy _ _ now = false

abbrev pub expired_by_native : Option ℕ → Option ℕ → Option ℕ → ℕ → Bool
expired_by_native (some end) modified seconds now = leb end now
expired_by_native none modified seconds now = expired_by_policy modified seconds now

unfoldable pub is_expired : TtlSource → BlobStat → Option ℕ → ℕ → Bool
is_expired object_time stat seconds now = expired_by_policy stat.modified_at seconds now
is_expired filesystem_mtime stat seconds now = expired_by_policy stat.modified_at seconds now
is_expired _ stat seconds now =
    expired_by_native stat.native_expires_at stat.modified_at seconds now

abbrev pub info : BlobStat → Option ℕ → Bool → RecordStat
info stat expires persistent = record {
  created_at = stat.modified_at;
  modified_at = stat.modified_at;
  expires_at = expires;
  size = stat.size;
  etag = stat.etag;
  persistent = persistent;
}

abbrev pub info_by_policy : BlobStat → Option ℕ → Option ℕ → RecordStat
info_by_policy stat (some modified) (some seconds) =
    info stat (some (modified + seconds * second)) false
info_by_policy stat _ _ = info stat none true

-- Whether a native expiry stands for none.
abbrev pub is_never : TtlSource → ℕ → Bool
is_never gcs_custom_time end = (end == ttl_none_expires_at) || leb year_2099 end
is_never _ end = end == ttl_none_expires_at

abbrev pub info_by_native : TtlSource → BlobStat → Option ℕ → Option ℕ → RecordStat
info_by_native source stat none seconds = info_by_policy stat stat.modified_at seconds
info_by_native source stat (some end) seconds =
    if is_never source end then info stat none true else info stat (some end) false

unfoldable pub to_record_stat : TtlSource → BlobStat → Option ℕ → RecordStat
to_record_stat object_time stat seconds = info_by_policy stat stat.modified_at seconds
to_record_stat filesystem_mtime stat seconds = info_by_policy stat stat.modified_at seconds
to_record_stat source stat seconds = info_by_native source stat stat.native_expires_at seconds

-- `"none"`, or the text of an instant in seconds.
pub data Token : Type 0 where
  never : Token
  until : ℕ → Token

-- The options that a write passes to the medium.
pub data Header : Type 0 where
  expires : ℕ → Header
  custom_time : Option ℕ → Header
  metadata : Token → Header
  mtime : ℕ → Header
  expires_sidecar : Option Token → Header

abbrev pub end_of : Option ℕ → ℕ → ℕ
end_of none clock_base = ttl_none_expires_at
end_of (some seconds) clock_base = clock_base + seconds * second

abbrev pub token_of : Option ℕ → ℕ → Token
token_of none clock_base = never
token_of (some seconds) clock_base = until (clock_base + seconds * second)

abbrev pub custom_time_of : Option ℕ → ℕ → Bool → Option ℕ
custom_time_of none clock_base explicit_ttl =
    if explicit_ttl then some ttl_none_expires_at else none
custom_time_of (some seconds) clock_base explicit_ttl = some (clock_base + seconds * second)

abbrev pub mtime_header : ℕ → Bool → List Header
mtime_header clock_base created_at_set = if created_at_set then mtime clock_base ∷ [] else []

unfoldable pub write_headers : TtlSource → Option ℕ → ℕ → Bool → Bool → List Header
write_headers object_time seconds base explicit_ttl created_at_set = []
write_headers s3_expires seconds base explicit_ttl created_at_set =
    if explicit_ttl then expires (end_of seconds base) ∷ [] else []
write_headers gcs_custom_time seconds base explicit_ttl created_at_set =
    custom_time (custom_time_of seconds base explicit_ttl) ∷ []
write_headers azure_metadata seconds base explicit_ttl created_at_set =
    if explicit_ttl then metadata (token_of seconds base) ∷ [] else []
write_headers filesystem_mtime seconds base explicit_ttl created_at_set =
    expires_sidecar none ∷ mtime_header base created_at_set
write_headers filesystem_sidecar seconds base explicit_ttl created_at_set =
    mtime_header base created_at_set
    ++ expires_sidecar (if explicit_ttl then some (token_of seconds base) else none) ∷ []
