-- ===== src/Topology/Commit.antt =====
-- The writes of src/kvtsjl/keymap_algebra/topology.py around the commit point: what a failure says,
-- and what it leaves.
use kvtsjl.Prelude.{
  String, ◌≡◌, sym, ap, true, false, Option, none, List, [], ◌∷◌, ◌++◌, arith, if◌then◌else◌,
  append-nil, append_assoc, map,
}
use kvtsjl.Errors.{Exn, is_uncommitted, is_partial_sync, ok, raise}
use kvtsjl.Exec.{Exec, ◌>>◌}
use kvtsjl.KeyMap.{get_or}
use kvtsjl.Topology.Target.{SyncPolicy, Target, WriteOptions}
use kvtsjl.Topology.Sync.{Queued, Node, on_media, run_sync}
use kvtsjl.Topology.Shape.{Topology, committing_targets, dependents, deferred}
use kvtsjl.Topology.Write.{for_each, sync_one, to_dependents, commit_all, write_to, write}
use kvtsjl.Topology.Loops.{
  Each, Keeps, Raises, for_each-Keeps, for_each-Raises, Each-of, Each-map, committing-Keeps,
  settle-Raises, settle-Raises_before,
}

module _ {W K V O Ver : Type 0} (t : Topology W K V O Ver) where
  abbrev pub Op : Type 0
  Op = Target W K V O Ver → Exec W (Unit {0})

  -- What a write of either kind does.
  abbrev pub commit_then_sync : String → Op → Exec (Node W) (Unit {0})
  commit_then_sync what op = on_media (commit_all t op) >> to_dependents t what op none

  pub commit_all-Keeps :
      {X : Type 0} (view : W → X) (op : Op)
      → Each (λ p. Keeps view (op p)) (committing_targets t)
      → Keeps view (commit_all t op)
  unfolding commit_all
  commit_all-Keeps view op h =
      for_each-Keeps view _ (committing_targets t)
        (Each-map (λ p k. committing-Keeps view p.name p.role (op p) k) _ h)

  sync_one-Raises :
      (p : Target W K V O Ver) (what : String) (run : Exec W (Unit {0}))
      (policy : Option SyncPolicy)
      → Raises
          (λ exn. if deferred t then is_uncommitted exn else is_partial_sync exn)
          (sync_one t p what run policy)
  unfolding sync_one run_sync on_media
  sync_one-Raises p what run policy n exn r = ground (
    arith,
    settle-Raises p.name (get_or p.policy policy) run n.media exn,
    settle-Raises_before p.name (get_or p.policy policy) run n.media exn,
  )

  pub to_dependents-Raises :
      (what : String) (op : Op) (policy : Option SyncPolicy)
      → Raises
          (λ exn. if deferred t then is_uncommitted exn else is_partial_sync exn)
          (to_dependents t what op policy)
  unfolding to_dependents
  to_dependents-Raises what op policy =
      for_each-Raises _ _ (dependents t) (Each-of _ (λ p. sync_one-Raises p what (op p) policy) _)

  -- A failure that says that nothing is committed stops before the dependents.
  commit_then_sync-uncommitted :
      {X : Type 0} (view : W → X) (what : String) (op : Op) (n : Node W) (exn : Exn)
      → deferred t ≡ false
      → Each (λ p. Keeps view (op p)) (committing_targets t)
      → (commit_then_sync what op n).0 ≡ raise exn
      → is_uncommitted exn ≡ true
      → (view (commit_then_sync what op n).1.media ≡ view n.media)
        × ((commit_then_sync what op n).1.queue ≡ n.queue)
  unfolding on_media is_uncommitted is_partial_sync
  commit_then_sync-uncommitted view what op n exn d h r u = ground (
    arith,
    commit_all-Keeps view op h n.media,
    to_dependents-Raises what op none (on_media (commit_all t op) n).1 exn,
  )

  -- If the commit is not the caller's to make, and the committing targets' writes leave the part
  -- of the media that `view` shows as it is, then a write that fails with
  -- `UncommittedWriteError` leaves it as it is too, and queues nothing: no dependent is written
  -- for a record that is not committed.
  pub write-uncommitted :
      {X : Type 0} (view : W → X) (key : K) (value : V) (options : WriteOptions) (n : Node W)
      (exn : Exn)
      → deferred t ≡ false
      → Each (λ p. Keeps view (write_to t key value options p)) (committing_targets t)
      → (write t key value options n).0 ≡ raise exn
      → is_uncommitted exn ≡ true
      → (view (write t key value options n).1.media ≡ view n.media)
        × ((write t key value options n).1.queue ≡ n.queue)
  unfolding write
  write-uncommitted view key value options =
      commit_then_sync-uncommitted view "set" (write_to t key value options)

  -- What a deferred write of the dependents puts on the queue.
  unfoldable pub queued : String → Op → Target W K V O Ver → Queued W
  queued what op p = record { name = p.name; what = what; policy = p.policy; run = op p }

  -- Dependents that wait for the commit.
  pub for_each-queues :
      (what : String) (op : Op)
      → deferred t ≡ true
      → (ps : List (Target W K V O Ver)) → Each (λ p. p.writes_are_deferred ≡ false) ps
      → (n : Node W)
      → for_each ps (λ p. sync_one t p what (op p) none) n
        ≡ (ok tt, record n { queue = n.queue ++ map (queued what op) ps })
  unfolding for_each sync_one run_sync Each queued
  for_each-queues what op d [] h n =
      ap (λ q. (ok tt, record n { queue = q })) (sym (append-nil n.queue))
  for_each-queues what op d (p ∷ ps) h n = ground (
    arith,
    for_each-queues what op d ps h.1 (record n { queue = n.queue ++ queued what op p ∷ [] }),
    append_assoc n.queue (queued what op p ∷ []) (map (queued what op) ps),
  )
