-- ===== src/Topology/Nothing.antt =====
-- What follows the authority's conditional write in src/kvtsjl/keymap_algebra/topology.py, where it
-- wrote nothing.
use kvtsjl.Prelude.{◌≡◌, refl, Bool, not, ◌&&◌, List, [], ◌∷◌, arith, Eq, filter, contains}
use kvtsjl.Prelude.Dict.{Dict, keys}
use kvtsjl.Errors.{ok}
use kvtsjl.KeyMap.{ConditionalWrite}
use kvtsjl.Topology.Target.{Target, WriteOptions}
use kvtsjl.Topology.Sync.{Node}
use kvtsjl.Topology.Shape.{Topology, dependents}
use kvtsjl.Topology.Write.{for_each}
use kvtsjl.Topology.Changes.{puts_of, kept_in, changed, by_clock, group_all}
use kvtsjl.Topology.Conditional.{write_dependents, after_commit}

module _ {W K V O Ver : Type 0} ⦃e : Eq K⦄ (t : Topology W K V O Ver) where
  kept_in-none : (puts : Dict K V) → kept_in [] puts ≡ []
  unfolding kept_in
  kept_in-none [] = refl
  kept_in-none ((k, v) ∷ puts) = ground (arith, kept_in-none puts)

  filter-none : (f : K → Bool) (ks : List K) → filter (λ k. contains [] k && f k) ks ≡ []
  filter-none f [] = refl
  filter-none f (k ∷ ks) = ground (arith, filter-none f ks)

  write_dependents-none :
      (ps : List (Target W K V O Ver)) (writes : Dict K (ConditionalWrite V Ver))
      (options : WriteOptions) (n : Node W)
      → write_dependents t ps [] writes options n ≡ (ok tt, n)
  unfolding write_dependents changed by_clock group_all for_each
  write_dependents-none [] writes options n = refl
  write_dependents-none (p ∷ ps) writes options n = write_dependents-none ps writes options n

  -- Where the authority wrote nothing, nothing follows.
  pub after_commit-none :
      (writes : Dict K (ConditionalWrite V Ver)) (options : WriteOptions) (n : Node W)
      → after_commit t writes options [] n ≡ (ok [], n)
  unfolding after_commit
  after_commit-none writes options n = ground (
    arith,
    kept_in-none (puts_of writes),
    filter-none (λ (k : K). not (contains (keys (puts_of writes)) k)) (keys writes),
    write_dependents-none (dependents t) writes options n,
  )

  pub after_commit-answers :
      (writes : Dict K (ConditionalWrite V Ver)) (options : WriteOptions) (written ws : List K)
      (n : Node W)
      → (after_commit t writes options written n).0 ≡ ok ws
      → ws ≡ written
  unfolding after_commit
  after_commit-answers writes options written ws n r = ground (arith, r)
