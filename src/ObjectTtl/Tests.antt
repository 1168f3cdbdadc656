-- ===== src/ObjectTtl/Tests.antt =====
-- Tests of the expiry of objects, and the instance of what is proved of it.
use kvtsjl.Prelude.{ℕ, ◌+◌, ◌*◌, ◌≡◌, refl, true, false, none, some, is_none, [], ◌∷◌, arith}
use kvtsjl.Ttl.{second}
use kvtsjl.ObjectTtl.{
  BlobStat, gcs_custom_time, filesystem_sidecar, is_expired, to_record_stat, write_headers, mtime,
  expires_sidecar, until, year_2099,
}
use kvtsjl.ObjectTtl.Laws.{has_expired, to_record_stat-is_expired}

-- An object changed at second 100 that has an expiry of its own.
abbrev blob_until : ℕ → BlobStat
blob_until end = record {
  modified_at = some (100 * second);
  native_expires_at = some end;
  size = some 3;
  etag = none;
}

stamped :
    write_headers filesystem_sidecar (some 5) (100 * second) true true
    ≡ mtime (100 * second) ∷ expires_sidecar (some (until (105 * second))) ∷ []
unfolding write_headers
stamped = refl

kept_for_ever : (to_record_stat gcs_custom_time (blob_until year_2099) none).persistent ≡ true
unfolding to_record_stat kvtsjl.Prelude.ℕ_discrete
kept_for_ever = refl

to_record_stat-is_expired_example :
    (is_expired gcs_custom_time (blob_until (105 * second)) (some 9) (105 * second)
      ≡ has_expired
          (to_record_stat gcs_custom_time (blob_until (105 * second)) (some 9))
          (105 * second))
    × ((to_record_stat gcs_custom_time (blob_until (105 * second)) (some 9)).persistent
        ≡ is_none (to_record_stat gcs_custom_time (blob_until (105 * second)) (some 9)).expires_at)
to_record_stat-is_expired_example =
    to_record_stat-is_expired gcs_custom_time (blob_until (105 * second)) (some 9) (105 * second)
      (omega arith)
