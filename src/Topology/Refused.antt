-- ===== src/Topology/Refused.antt =====
-- What `_settle` and `_try_fill` of src/kvtsjl/keymap_algebra/topology.py let through, and what
-- `Topology.batch_delete` answers.
use kvtsjl.Prelude.{ℕ, String, ◌≡◌, Bool, Option, some, List, ◌∷◌, arith, if◌then◌else◌, Eq}
use kvtsjl.Prelude.Dict.{dedup}
use kvtsjl.Errors.{ok}
use kvtsjl.Exec.{Exec}
use kvtsjl.Topology.Target.{SyncPolicy, Target}
use kvtsjl.Topology.Sync.{Node, is_best_effort, settle, settle_error, try_fill, on_media}
use kvtsjl.Topology.Shape.{Topology, the_authority, removed_now}
use kvtsjl.Topology.Write.{batch_delete, batch_remove, remove_unique, collect}
use kvtsjl.Topology.Flush.{is_raise}
use kvtsjl.Topology.Lookups.{is_refused}

-- After the commit point or before it, an operation of a dependent runs once, and its failure is
-- raised unless the policy is best-effort and the failure is not a `KvStoreUnsupported`; that of a
-- fill is raised exactly if it is a `KvStoreUnsupported`. What was asked for and cannot be done
-- is never passed over in silence.
pub settle-refused :
    {W : Type 0} (name : String) (policy : SyncPolicy) (before_commit : Bool)
    (run : Exec W (Unit {0})) (w : W)
    → ((settle name policy before_commit run w).1 ≡ (run w).1)
      × (is_raise (settle name policy before_commit run w).0
          ≡ (if is_best_effort policy then is_refused (run w).0 else is_raise (run w).0))
      × ((try_fill run w).1 ≡ (run w).1)
      × (is_raise (try_fill run w).0 ≡ is_refused (run w).0)
unfolding settle settle_error try_fill
settle-refused name policy before_commit run w =
    (ground arith, ground arith, ground arith, ground arith)

module _ {W K V O Ver : Type 0} ⦃e : Eq K⦄ (t : Topology W K V O Ver) where
  -- With an authority, a batch deletion of some keys that succeeds answers what the authority
  -- answered for those keys, each once.
  pub batch_delete-answers :
      (k : K) (ks : List K) (policy : Option SyncPolicy) (n : Node W) (a : Target W K V O Ver)
      (count : ℕ)
      → the_authority t ≡ some a
      → (batch_delete t (k ∷ ks) policy n).0 ≡ ok count
      → (a.batch_delete (dedup (k ∷ ks)) n.media).0 ≡ ok count
  unfolding batch_delete batch_remove remove_unique removed_now collect on_media
  batch_delete-answers k ks policy n a count h r = ground (arith, h, r)
