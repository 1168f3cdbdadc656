-- ===== src/ObjectTtl/Laws.antt =====
-- That the stat of an object and the test of its expiry, in src/kvtsjl/backends/object/ttl.py, say
-- the same.
use kvtsjl.Prelude.{
  ℕ, ◌≡◌, ◌<◌, refl, Bool, true, false, nat_eq, Option, none, some, is_none, leb, arith, Bool-cases,
  inl, inr,
}
use kvtsjl.Topology.Target.{RecordStat}
use kvtsjl.ObjectTtl.{
  BlobStat, TtlSource, object_time, s3_expires, gcs_custom_time, azure_metadata, filesystem_mtime,
  filesystem_sidecar, year_2099, is_expired, to_record_stat, info_by_policy, info_by_native,
  expired_by_policy, expired_by_native, is_never,
}

-- The expiry of a stat has come at an instant.
abbrev pub has_expired : RecordStat → ℕ → Bool
has_expired stat now = elim stat.expires_at [ none ↦ false | some end ↦ leb end now ]

abbrev pub Agrees : Bool → RecordStat → ℕ → Type 0
Agrees dead stat now = (dead ≡ has_expired stat now) × (stat.persistent ≡ is_none stat.expires_at)

Agrees-policy :
    (stat : BlobStat) (modified seconds : Option ℕ) (now : ℕ)
    → Agrees (expired_by_policy modified seconds now) (info_by_policy stat modified seconds) now
Agrees-policy stat (some modified) (some seconds) now = (refl, refl)
Agrees-policy stat (some modified) none now = (refl, refl)
Agrees-policy stat none seconds now = (refl, refl)

never-later :
    (source : TtlSource) (end now : ℕ)
    → now < year_2099
    → is_never source end ≡ true
    → leb end now ≡ false
never-later gcs_custom_time end now before never = ground arith
never-later object_time end now before never = ground arith
never-later s3_expires end now before never = ground arith
never-later azure_metadata end now before never = ground arith
never-later filesystem_mtime end now before never = ground arith
never-later filesystem_sidecar end now before never = ground arith

Agrees-native :
    (source : TtlSource) (stat : BlobStat) (end seconds : Option ℕ) (now : ℕ)
    → now < year_2099
    → Agrees
        (expired_by_native end stat.modified_at seconds now)
        (info_by_native source stat end seconds)
        now
Agrees-native source stat none seconds now before = Agrees-policy stat stat.modified_at seconds now
Agrees-native source stat (some end) seconds now before = elim (Bool-cases (is_never source end)) [
  | inl never ↦ rw never (never-later source end now before never, refl)
  | inr timed ↦ rw timed (refl, refl)
]

-- Before the year 2099, an object of any kind of store has expired exactly where the expiry of its
-- stat has come, and its stat is persistent exactly where it has no expiry.
pub to_record_stat-is_expired :
    (source : TtlSource) (stat : BlobStat) (seconds : Option ℕ) (now : ℕ)
    → now < year_2099
    → (is_expired source stat seconds now ≡ has_expired (to_record_stat source stat seconds) now)
      × ((to_record_stat source stat seconds).persistent
          ≡ is_none (to_record_stat source stat seconds).expires_at)
unfolding is_expired to_record_stat
to_record_stat-is_expired object_time stat seconds now before =
    Agrees-policy stat stat.modified_at seconds now
to_record_stat-is_expired filesystem_mtime stat seconds now before =
    Agrees-policy stat stat.modified_at seconds now
to_record_stat-is_expired s3_expires stat seconds now before =
    Agrees-native s3_expires stat stat.native_expires_at seconds now before
to_record_stat-is_expired gcs_custom_time stat seconds now before =
    Agrees-native gcs_custom_time stat stat.native_expires_at seconds now before
to_record_stat-is_expired azure_metadata stat seconds now before =
    Agrees-native azure_metadata stat stat.native_expires_at seconds now before
to_record_stat-is_expired filesystem_sidecar stat seconds now before =
    Agrees-native filesystem_sidecar stat stat.native_expires_at seconds now before
