-- ===== src/FsDriver/Tests.antt =====
-- Tests of objects on the file system, and the instance of what is proved of them.
use kvtsjl.Prelude.{ℕ, ◌*◌, ◌≡◌, refl, none, some, List, [], ◌∷◌, length, if◌then◌else◌}
use kvtsjl.Errors.{ok, raise, ttl_unsupported}
use kvtsjl.Ttl.{TtlPolicy, hourly, second, ttl_seconds, lazy_delete}
use kvtsjl.ObjectTtl.{supports_per_write_ttl, write_headers}
use kvtsjl.FsDriver.{Disk, by_mtime, by_sidecar, ttl_source_for, set, read_live}
use kvtsjl.FsDriver.Laws.{end_after, has_ended, read_live-set}

abbrev blank : Disk (List ℕ)
blank = record { file = none; sidecar = none }

abbrev minute : TtlPolicy
minute = record { ttl_duration = some (60 * second) }

-- Written at second 10 as a record of second 5, for a minute.
abbrev kept : Disk (List ℕ)
kept =
    (set length (ttl_source_for by_sidecar) hourly lazy_delete (7 ∷ []) (some minute)
      (some (5 * second)) (10 * second) (10 * second) blank).1

refused :
    (set length
      (ttl_source_for by_mtime)
      hourly
      lazy_delete
      (7 ∷ [])
      (some minute)
      none
      (10 * second)
      (10 * second)
      blank).0
    ≡ raise ttl_unsupported
unfolding set supports_per_write_ttl
refused = refl

cleared :
    (read_live length (ttl_source_for by_sidecar) hourly lazy_delete (65 * second) kept).1 ≡ blank
unfolding read_live set ttl_seconds supports_per_write_ttl kvtsjl.ObjectTtl.supports_write_clock
    write_headers
cleared = refl

read_live-set_example :
    ((set length
        (ttl_source_for by_sidecar)
        hourly
        lazy_delete
        (7 ∷ [])
        (some minute)
        (some (5 * second))
        (10 * second)
        (10 * second)
        blank).0
      ≡ ok tt)
    × ((read_live length (ttl_source_for by_sidecar) hourly lazy_delete (64 * second) kept).0
        ≡ ok (
            if has_ended
              (end_after
                (ttl_seconds hourly)
                (some minute)
                (some (5 * second))
                (10 * second)
                (10 * second))
              (64 * second)
            then none
            else some (7 ∷ [])))
unfolding supports_per_write_ttl
read_live-set_example =
    read_live-set length hourly lazy_delete by_sidecar (7 ∷ []) (some minute) (some (5 * second))
      (10 * second) (10 * second) (64 * second) blank refl
