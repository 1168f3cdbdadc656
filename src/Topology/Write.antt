-- ===== src/Topology/Write.antt =====
-- The writes and removals of `Topology` in src/kvtsjl/keymap_algebra/topology.py, on a node: the
-- targets' media and the queue of the dependents' operations that wait for the commit.
use kvtsjl.Prelude.{
  ℕ, ltb, String, Bool, false, not, ◌&&◌, Option, none, some, is_none, is_some, List, [], ◌∷◌, ◌++◌,
  Eq, any, length, if◌then◌else◌, nat_eq,
}
use kvtsjl.Prelude.Dict.{Dict, dedup}
use kvtsjl.Errors.{value_error, Result, ok, raise}
use kvtsjl.Exec.{Exec, pure, throw, ◌>>=◌, ◌>>◌}
use kvtsjl.KeyMap.{get_or}
use kvtsjl.Topology.Target.{
  component, authority, is_role, SyncPolicy, best_effort, WriteOptions, receives, Target,
}
use kvtsjl.Topology.Sync.{Node, committing, on_media, run_sync, settle}
use kvtsjl.Topology.Shape.{
  Topology, the_authority, components, by_role, committing_targets, dependents, deferred,
  removed_now, removed_after_commit,
}

module _ {W A : Type 0} where
  unfoldable pub for_each : List A → (A → Exec W (Unit {0})) → Exec W (Unit {0})
  for_each [] body w = (ok tt, w)
  for_each (x ∷ xs) body w = (body x >> for_each xs body) w

  unfoldable pub collect : {B : Type 0} → List A → (A → Exec W B) → Exec W (List B)
  collect [] body w = (ok [], w)
  collect (x ∷ xs) body w = (body x >>= λ b. collect xs body >>= λ bs. pure (b ∷ bs)) w

  -- An operation for its effect.
  abbrev pub forget : Exec W A → Exec W (Unit {0})
  forget m = m >>= λ _. pure tt

-- How an operation ended, without what it returned.
abbrev pub done : {A : Type 0} → Result A → Result (Unit {0})
done (ok a) = ok tt
done (raise exn) = raise exn

abbrev pub gathered : {A : Type 0} → Result (Unit {0}) → Result (List A) → Result (List A)
gathered (raise exn) r = raise exn
gathered (ok u) (ok own) = ok own
gathered (ok u) (raise exn) = ok []

-- `a | b` of sets, in the order of first insertion
unfoldable pub union : {K : Type 0} ⦃e : Eq K⦄ → List K → List K → List K
union xs ys = dedup (xs ++ ys)

module _ {W K V O Ver : Type 0} (t : Topology W K V O Ver) where
  -- `_sync_one`
  unfoldable pub sync_one :
      Target W K V O Ver → String → Exec W (Unit {0}) → Option SyncPolicy → Exec (Node W) (Unit {0})
  sync_one target what run policy =
      run_sync target.name what (get_or target.policy policy) run
        (deferred t && not target.writes_are_deferred) (deferred t)

  -- `_to_dependents`
  unfoldable pub to_dependents :
      String
      → (Target W K V O Ver → Exec W (Unit {0}))
      → Option SyncPolicy
      → Exec (Node W) (Unit {0})
  unfolding for_each sync_one
  to_dependents what op policy =
      for_each (dependents t) (λ target. sync_one target what (op target) policy)

  -- The loop over `self.committing`.
  unfoldable pub commit_all : (Target W K V O Ver → Exec W (Unit {0})) → Exec W (Unit {0})
  unfolding for_each
  commit_all op =
      for_each (committing_targets t) (λ target. committing target.name target.role (op target))

  abbrev pub write_to : K → V → WriteOptions → Target W K V O Ver → Exec W (Unit {0})
  write_to key value options target =
      target.write key value (receives target.supports_write_clock options)

  abbrev pub batch_write_to : Dict K V → WriteOptions → Target W K V O Ver → Exec W (Unit {0})
  batch_write_to items options target =
      target.batch_write items (receives target.supports_write_clock options)

  unfoldable pub write : K → V → WriteOptions → Exec (Node W) (Unit {0})
  unfolding commit_all to_dependents on_media
  write key value options =
      on_media (commit_all (write_to key value options))
      >> to_dependents "set" (write_to key value options) none

  unfoldable pub batch_write : Dict K V → WriteOptions → Exec (Node W) (Unit {0})
  unfolding commit_all to_dependents on_media
  batch_write [] options n = (ok tt, n)
  batch_write (item ∷ items) options n =
      (on_media (commit_all (batch_write_to (item ∷ items) options))
          >> to_dependents "batch set" (batch_write_to (item ∷ items) options) none)
        n

  -- `removed[0]` of one answer
  abbrev pub first_of : {A : Type 0} → A → List A → A
  first_of d [] = d
  first_of d (a ∷ rest) = a

  -- `_remove`
  unfoldable pub remove_key : String → (Target W K V O Ver → Exec W Bool) → Exec (Node W) Bool
  unfolding collect for_each sync_one on_media
  remove_key what op = on_media (collect (removed_now t) op) >>= λ removed.
      for_each (removed_after_commit t) (λ target. sync_one target what (forget (op target)) none)
      >>= λ _.
          pure (if is_some (the_authority t) then first_of false removed else any removed (λ b. b))

  unfoldable pub delete : K → Exec (Node W) Bool
  unfolding remove_key
  delete key = remove_key "delete" (λ target. target.delete key)

  unfoldable pub unset : K → Exec (Node W) Bool
  unfolding remove_key
  unset key = remove_key "unset" (λ target. target.unset key)

module _ {W K V O Ver : Type 0} ⦃e : Eq K⦄ (t : Topology W K V O Ver) where
  -- The keys that some component holds.
  unfoldable pub held_by : List (Target W K V O Ver) → List K → List K → Exec W (List K)
  unfolding union
  held_by [] unique held w = (ok held, w)
  held_by (target ∷ targets) unique held w =
      (target.batch_exists unique >>= λ more. held_by targets unique (union held more)) w

  abbrev pub probed : List K → Exec W (List K)
  probed unique = if is_none (the_authority t) then held_by (components t) unique [] else pure []

  -- `_batch_remove` of some keys
  unfoldable pub remove_unique :
      List K
      → String
      → (Target W K V O Ver → List K → Exec W ℕ)
      → Option SyncPolicy
      → Exec (Node W) ℕ
  unfolding collect for_each sync_one on_media held_by
  remove_unique unique what op policy = on_media (probed unique) >>= λ held.
      on_media (collect (removed_now t) (λ target. op target unique)) >>= λ counts.
      for_each (removed_after_commit t)
        (λ target. sync_one t target what (forget (op target unique)) policy)
      >>= λ _. pure (if is_some (the_authority t) then first_of t 0 counts else length held)

  -- `_batch_remove`
  unfoldable pub batch_remove :
      List K
      → String
      → (Target W K V O Ver → List K → Exec W ℕ)
      → Option SyncPolicy
      → Exec (Node W) ℕ
  unfolding remove_unique
  batch_remove [] what op policy = pure 0
  batch_remove (k ∷ ks) what op policy = remove_unique (dedup (k ∷ ks)) what op policy

  unfoldable pub batch_delete : List K → Option SyncPolicy → Exec (Node W) ℕ
  unfolding batch_remove
  batch_delete keys policy = batch_remove keys "batch delete" (λ target. target.batch_delete) policy

  unfoldable pub batch_unset : List K → Exec (Node W) ℕ
  unfolding batch_remove
  batch_unset keys = batch_remove keys "batch unset" (λ target. target.batch_unset) none

  -- The first loop of `gc`: what the authority collected, and what was collected at all. A
  -- topology has one authority, so a target with that role is it.
  unfoldable pub gc_committed :
      List (Target W K V O Ver) → ℕ → List K → List K → Exec W (List K × List K)
  unfolding union
  gc_committed [] max_entries expired collected w = (ok (expired, collected), w)
  gc_committed (target ∷ targets) max_entries expired collected w =
      (target.gc max_entries >>= λ keys.
      gc_committed targets max_entries (if is_role target.role authority then keys else expired)
        (union collected keys))
        w

  -- `_settle(target.name, "gc", SyncPolicy.BEST_EFFORT, collect)`: what `collect` put in `own`.
  unfoldable pub gc_own : Target W K V O Ver → ℕ → Exec W (List K)
  gc_own target max_entries w =
      let r = target.gc max_entries w in
      let s = settle target.name best_effort false (λ v. (done r.0, r.1)) w in
      (gathered s.0 r.0, s.1)

  -- The loop over the dependents that expire.
  unfoldable pub gc_dependents : List (Target W K V O Ver) → ℕ → List K → Exec W (List K)
  unfolding union gc_own
  gc_dependents [] max_entries collected w = (ok collected, w)
  gc_dependents (target ∷ targets) max_entries collected w =
      if target.expires
      then (gc_own target max_entries >>= λ own.
            gc_dependents targets max_entries (union collected own))
          w
      else gc_dependents targets max_entries collected w

  abbrev pub forget_expired : List K → SyncPolicy → Exec (Node W) (Unit {0})
  forget_expired [] policy n = (ok tt, n)
  forget_expired (k ∷ ks) policy n =
      to_dependents t "gc" (λ target. forget (target.batch_delete (k ∷ ks))) (some policy) n

  unfoldable pub gc : ℕ → SyncPolicy → Exec (Node W) (List K)
  unfolding gc_committed gc_dependents on_media to_dependents
  gc max_entries policy =
      if ltb max_entries 1
      then throw value_error
      else (on_media (gc_committed (by_role t (authority ∷ component ∷ [])) max_entries [] [])
          >>= λ (expired, collected).
              forget_expired expired policy
              >> on_media (gc_dependents (dependents t) max_entries collected))
