-- ===== src/Topology/Sync.antt =====
-- `_committing`, `_settle`, `_try_fill` and `DependentSyncs` of
-- src/kvtsjl/keymap_algebra/topology.py: what becomes of an exception on either side of the commit
-- point, and the queue of the operations that wait for it. Logging is not modelled.
use kvtsjl.Prelude.{
  ℕ, String, Bool, true, false, not, ◌&&◌, List, [], ◌∷◌, ◌++◌, length, if◌then◌else◌,
}
use kvtsjl.Errors.{
  Exn, Failures, none_failed, failure, uncommitted, partial_sync, is_unsupported, is_uncommitted,
  is_partial_sync, is_record_write_error, Result, ok, raise,
}
use kvtsjl.Exec.{Exec, pure, throw, ◌>>=◌, catch}
use kvtsjl.Topology.Target.{Role, authority, is_role, SyncPolicy, required, best_effort}

abbrev pub is_best_effort : SyncPolicy → Bool
is_best_effort required = false
is_best_effort best_effort = true

-- `_Queued`
pub record Queued (W : Type 0) : Type 0 where
  pub name : String
  pub what : String
  pub policy : SyncPolicy
  pub run : Exec W (Unit {0})

-- The state of a composed node: its media, and the queue of its `DependentSyncs`.
pub record Node (W : Type 0) : Type 0 where
  pub media : W
  pub queue : List (Queued W)

-- The exception that `_committing` raises for one that was raised.
unfoldable pub committing_error : String → Role → Exn → Exn
committing_error name role exn =
    if is_role role authority && is_record_write_error exn
    then exn
    else uncommitted (failure name exn none_failed)

-- What `_settle` does about an exception.
unfoldable pub settle_error : String → SyncPolicy → Bool → Exn → Result (Unit {0})
settle_error name policy before_commit exn =
    if is_best_effort policy && not (is_unsupported exn)
    then ok tt
    else if before_commit
    then (if is_uncommitted exn
        then raise exn
        else raise (uncommitted (failure name exn none_failed)))
    else if is_partial_sync exn
    then raise exn
    else raise (partial_sync (failure name exn none_failed))

module _ {W A : Type 0} where
  -- `_committing`
  unfoldable pub committing : String → Role → Exec W A → Exec W A
  unfolding committing_error
  committing name role run = catch run (λ exn. throw (committing_error name role exn))

  -- An operation on the media, which leaves the queue.
  unfoldable pub on_media : Exec W A → Exec (Node W) A
  on_media m n = let r = m n.media in (r.0, record n { media = r.1 })

module _ {W : Type 0} where
  -- `_settle`
  unfoldable pub settle : String → SyncPolicy → Bool → Exec W (Unit {0}) → Exec W (Unit {0})
  unfolding settle_error
  settle name policy before_commit run =
      catch run (λ exn w. (settle_error name policy before_commit exn, w))

  -- `_try_fill`
  unfoldable pub try_fill : Exec W (Unit {0}) → Exec W (Unit {0})
  try_fill run = catch run (λ exn. if is_unsupported exn then throw exn else pure tt)

  -- `DependentSyncs.run`
  unfoldable pub run_sync :
      String → String → SyncPolicy → Exec W (Unit {0}) → Bool → Bool → Exec (Node W) (Unit {0})
  unfolding on_media
  run_sync name what policy op defer before_commit n = elim defer [
    | true ↦ (
      ok tt,
      record n {
        queue = n.queue ++ (record { name = name; what = what; policy = policy; run = op }) ∷ [];
      },
    )
    | false ↦ on_media (settle name policy before_commit op) n
  ]

  -- `DependentSyncs.pending`, `DependentSyncs.discard`
  unfoldable pub pending : Node W → ℕ
  pending n = length n.queue

  unfoldable pub discard : Node W → Node W
  discard n = record n { queue = [] }

-- `failures.update({label: e for label, e in exc.failures.items()})`; the text of a label, which
-- makes it one of its operation's, is not modelled.
unfoldable pub add_failures : Failures → Failures → Failures
add_failures none_failed more = more
add_failures (failure label exn rest) more = failure label exn (add_failures rest more)

unfoldable pub failures_of : Exn → Failures
failures_of (partial_sync failures) = failures
failures_of _ = none_failed

module _ {W : Type 0} where
  -- The loop of `DependentSyncs.flush`: what failed. Every failure of `_settle` that is not
  -- before a commit is a `PartialSyncError`, so the loop never stops.
  unfoldable pub flush_each : List (Queued W) → Failures → Exec W Failures
  unfolding settle add_failures failures_of
  flush_each [] failures w = (ok failures, w)
  flush_each (q ∷ queue) failures w =
      let r = settle q.name q.policy false q.run w in
      elim r.0 [
        | ok _ ↦ flush_each queue failures r.1
        | raise exn ↦
            if is_partial_sync exn
            then flush_each queue (add_failures failures (failures_of exn)) r.1
            else (raise exn, r.1)
      ]

  unfoldable pub report : Failures → Exec W (Unit {0})
  report none_failed = pure tt
  report (failure label exn rest) = throw (partial_sync (failure label exn rest))

  -- `DependentSyncs.flush`
  unfoldable pub flush : Exec (Node W) (Unit {0})
  unfolding on_media flush_each report
  flush n = on_media (flush_each n.queue none_failed >>= report) (record n { queue = [] })
