-- ===== src/FsDriver/Laws.antt =====
-- What a write to the file system of src/kvtsjl/backends/object is read back as.
use kvtsjl.Prelude.{
  ℕ, ◌≡◌, refl, ◌+◌, ◌*◌, Bool, true, false, ◌&&◌, not, Option, none, some, is_some, leb,
  if◌then◌else◌,
}
use kvtsjl.Errors.{ok}
use kvtsjl.Exec.{pure, ◌>>◌}
use kvtsjl.Ttl.{TtlPolicy, ExpiryGc, ttl_seconds, second, lazy_delete, hide}
use kvtsjl.ObjectTtl.{
  TtlSource, Token, filesystem_mtime, filesystem_sidecar, end_of, token_of, is_expired,
  expired_by_policy, expired_by_native, write_headers, supports_write_clock, supports_per_write_ttl,
}
use kvtsjl.FsDriver.{
  Disk, FilesystemTtlMode, by_mtime, by_sidecar, ttl_source_for, set, read_live, clock_base, delete,
  collect, native_expires, stat_for_path,
}

-- When what was written expires: its own time counts from the clock base, the time of the collection
-- from the time of the file.
abbrev pub end_after : Option ℕ → Option TtlPolicy → Option ℕ → ℕ → ℕ → Option ℕ
end_after none none created_at now changed = none
end_after (some seconds) none created_at now changed =
    some (clock_base created_at changed + seconds * second)
end_after collection (some ttl) created_at now changed =
    some (end_of (ttl_seconds ttl) (clock_base created_at now))

abbrev pub has_ended : Option ℕ → ℕ → Bool
has_ended none at = false
has_ended (some end) at = leb end at

expired_by_native-token_of :
    (seconds : Option ℕ) (clock : ℕ) (modified collection : Option ℕ) (later : ℕ)
    → expired_by_native (native_expires (some (token_of seconds clock))) modified collection later
      ≡ leb (end_of seconds clock) later
expired_by_native-token_of none clock modified collection later = refl
expired_by_native-token_of (some seconds) clock modified collection later = refl

expired_by_policy-end_after :
    (collection created_at : Option ℕ) (now changed later : ℕ)
    → expired_by_policy (some (clock_base created_at changed)) collection later
      ≡ has_ended (end_after collection none created_at now changed) later
expired_by_policy-end_after none created_at now changed later = refl
expired_by_policy-end_after (some seconds) created_at now changed later = refl

module _ {B : Type 0} (size_of : B → ℕ) (policy : TtlPolicy) (expiry_gc : ExpiryGc) where
  collect-none :
      (source : TtlSource) (gc : ExpiryGc) (disk : Disk B)
      → ((collect size_of source policy gc >> pure {A = Option B} none) disk).0 ≡ ok none
  unfolding delete
  collect-none source lazy_delete disk = refl
  collect-none source hide disk = refl

  read_live-file :
      (source : TtlSource) (later at : ℕ) (content : B) (sidecar : Option Token) (ended : Bool)
      → is_expired source
          (stat_for_path size_of (record { content = content; st_mtime = at }) sidecar)
          (ttl_seconds policy)
          later
        ≡ ended
      → (read_live size_of source policy expiry_gc later (record {
        file = some (record { content = content; st_mtime = at });
        sidecar = sidecar;
      })).0
        ≡ ok (if ended then none else some content)
  unfolding read_live
  read_live-file source later at content sidecar true same = rw same (
      collect-none source expiry_gc
        (record { file = some (record { content = content; st_mtime = at }); sidecar = sidecar }))
  read_live-file source later at content sidecar false same = rw same

  -- A write to the file system whose time to live, if it has one, the mode keeps, succeeds, whatever
  -- was there before, and after it the content is read until it expires, which the time to live of
  -- the write determines, or else that of the collection.
  pub read_live-set :
      (mode : FilesystemTtlMode) (content : B) (ttl : Option TtlPolicy) (created_at : Option ℕ)
      (now changed later : ℕ) (disk : Disk B)
      → (is_some ttl && not (supports_per_write_ttl (ttl_source_for mode))) ≡ false
      → ((set size_of
            (ttl_source_for mode)
            policy
            expiry_gc
            content
            ttl
            created_at
            now
            changed
            disk).0
          ≡ ok tt)
        × ((read_live size_of
              (ttl_source_for mode)
              policy
              expiry_gc
              later
              (set size_of
                (ttl_source_for mode)
                policy
                expiry_gc
                content
                ttl
                created_at
                now
                changed
                disk).1).0
            ≡ ok (
                if has_ended (end_after (ttl_seconds policy) ttl created_at now changed) later
                then none
                else some content))
  unfolding set read_live write_headers is_expired supports_write_clock supports_per_write_ttl
  read_live-set by_mtime content none none now changed later disk kept = (
    refl,
    read_live-file filesystem_mtime later changed content none _
        (expired_by_policy-end_after (ttl_seconds policy) none now changed later),
  )
  read_live-set by_mtime content none (some c) now changed later disk kept = (
    refl,
    read_live-file filesystem_mtime later c content none _
        (expired_by_policy-end_after (ttl_seconds policy) (some c) now changed later),
  )
  read_live-set by_mtime content (some ttl) created_at now changed later disk kept = absurd cc
  read_live-set by_sidecar content none none now changed later disk kept = (
    refl,
    read_live-file filesystem_sidecar later changed content none _
        (expired_by_policy-end_after (ttl_seconds policy) none now changed later),
  )
  read_live-set by_sidecar content none (some c) now changed later disk kept = (
    refl,
    read_live-file filesystem_sidecar later c content none _
        (expired_by_policy-end_after (ttl_seconds policy) (some c) now changed later),
  )
  read_live-set by_sidecar content (some ttl) none now changed later disk kept = (
    refl,
    read_live-file filesystem_sidecar later changed content (some (token_of (ttl_seconds ttl) now))
        _
        (expired_by_native-token_of (ttl_seconds ttl) now (some changed) (ttl_seconds policy)
          later),
  )
  read_live-set by_sidecar content (some ttl) (some c) now changed later disk kept = (
    refl,
    read_live-file filesystem_sidecar later c content (some (token_of (ttl_seconds ttl) c)) _
        (expired_by_native-token_of (ttl_seconds ttl) c (some c) (ttl_seconds policy) later),
  )
