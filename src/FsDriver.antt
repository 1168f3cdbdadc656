-- ===== src/FsDriver.antt =====
-- One object of src/kvtsjl/backends/object/fs_driver.py, a file with an optional file beside it that
-- holds its expiry, and its writes and reads by src/kvtsjl/backends/object/store.py, of values that
-- are serialized already. That the operating system refuses a call is not modelled, nor the inode
-- that names a version. The text of an instant in seconds is read back as that instant.
pub mod Laws
mod Tests
use kvtsjl.Prelude.{ℕ, Bool, true, false, Option, none, some, is_some, List, [], ◌∷◌, if◌then◌else◌}
use kvtsjl.Errors.{ok}
use kvtsjl.Exec.{Exec, pure, lift, ◌>>=◌, ◌>>◌}
use kvtsjl.Ttl.{
  TtlPolicy, ExpiryGc, lazy_delete, hide, ttl_seconds, require_explicit_ttl_supported,
  require_write_clock_supported,
}
use kvtsjl.Topology.Target.{RecordStat}
use kvtsjl.ObjectTtl.{
  BlobStat, TtlSource, filesystem_mtime, filesystem_sidecar, ttl_none_expires_at, is_expired,
  supports_write_clock, supports_per_write_ttl, to_record_stat, write_headers, Token, never, until,
  Header, mtime, expires_sidecar,
}

pub record File (B : Type 0) : Type 0 where
  pub content : B
  pub st_mtime : ℕ

-- What the disk holds at a path, and at the path of its expiry.
pub record Disk (B : Type 0) : Type 0 where
  pub file : Option (File B)
  pub sidecar : Option Token

pub data FilesystemTtlMode : Type 0 where
  by_mtime by_sidecar : FilesystemTtlMode

abbrev pub ttl_source_for : FilesystemTtlMode → TtlSource
ttl_source_for by_mtime = filesystem_mtime
ttl_source_for by_sidecar = filesystem_sidecar

abbrev pub native_expires : Option Token → Option ℕ
native_expires none = none
native_expires (some never) = some ttl_none_expires_at
native_expires (some (until end)) = some end

abbrev pub clock_base : Option ℕ → ℕ → ℕ
clock_base none now = now
clock_base (some created_at) now = created_at

abbrev pub resolve_ttl_seconds : TtlPolicy → Option TtlPolicy → Option ℕ
resolve_ttl_seconds policy none = ttl_seconds policy
resolve_ttl_seconds policy (some ttl) = ttl_seconds ttl

abbrev pub apply_sidecar : List Header → Option Token → Option Token
apply_sidecar [] sidecar = sidecar
apply_sidecar (expires_sidecar token ∷ headers) sidecar = token
apply_sidecar (_ ∷ headers) sidecar = apply_sidecar headers sidecar

module _ {B : Type 0} where
  abbrev pub apply_mtime : List Header → File B → File B
  apply_mtime [] file = file
  apply_mtime (mtime at ∷ headers) file = record file { st_mtime = at }
  apply_mtime (_ ∷ headers) file = apply_mtime headers file

  -- The file takes the place of the one before, at the time `changed` of the system.
  unfoldable pub write : B → List Header → ℕ → Exec (Disk B) (Unit {0})
  write content headers changed disk = (
    ok tt,
    record {
      file = some (apply_mtime headers (record { content = content; st_mtime = changed }));
      sidecar = apply_sidecar headers disk.sidecar;
    },
  )

  unfoldable pub delete : Exec (Disk B) Bool
  delete disk = (ok (is_some disk.file), record { file = none; sidecar = none })

  module _ (size_of : B → ℕ) where
    abbrev pub stat_for_path : File B → Option Token → BlobStat
    stat_for_path file sidecar = record {
      modified_at = some file.st_mtime;
      native_expires_at = native_expires sidecar;
      size = some (size_of file.content);
      etag = none;
    }

    module _ (source : TtlSource) (policy : TtlPolicy) (expiry_gc : ExpiryGc) where
      unfoldable pub set : B → Option TtlPolicy → Option ℕ → ℕ → ℕ → Exec (Disk B) (Unit {0})
      unfolding require_explicit_ttl_supported require_write_clock_supported write
      set content ttl created_at now changed =
          lift (require_explicit_ttl_supported ttl (supports_per_write_ttl source))
          >> (lift (require_write_clock_supported created_at (supports_write_clock source))
              >> write content
                  (write_headers source (resolve_ttl_seconds policy ttl) (clock_base created_at now)
                    (is_some ttl) (is_some created_at))
                  changed)

      abbrev pub collect : Exec (Disk B) (Unit {0})
      collect = elim expiry_gc [ lazy_delete ↦ delete >> pure tt | hide ↦ pure tt ]

      abbrev pub unless_expired : {A : Type 0} → ℕ → BlobStat → A → Exec (Disk B) (Option A)
      unless_expired now stat answer =
          if is_expired source stat (ttl_seconds policy) now
          then collect >> pure none
          else pure (some answer)

      unfoldable pub live_stat : ℕ → Exec (Disk B) (Option BlobStat)
      unfolding delete is_expired
      live_stat now disk = elim disk.file [
        | none ↦ (ok none, disk)
        | some file ↦
            unless_expired now (stat_for_path file disk.sidecar) (stat_for_path file disk.sidecar)
              disk
      ]

      -- The content of the file, where it is live.
      unfoldable pub read_live : ℕ → Exec (Disk B) (Option B)
      unfolding delete is_expired
      read_live now disk = elim disk.file [
        | none ↦ (ok none, disk)
        | some file ↦ unless_expired now (stat_for_path file disk.sidecar) file.content disk
      ]

      unfoldable pub stat : ℕ → Exec (Disk B) (Option RecordStat)
      unfolding live_stat to_record_stat
      stat now = live_stat now >>= λ found. pure (elim found [
        | none ↦ none
        | some blob ↦ some (to_record_stat source blob (ttl_seconds policy))
      ])
