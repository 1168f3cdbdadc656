-- ===== src/Topology/Conditional.antt =====
-- The conditional writes of `Topology` in src/kvtsjl/keymap_algebra/topology.py: a record's version
-- is its authority's, whose conditional write decides.
use kvtsjl.Prelude.{
  ℕ, Bool, false, not, ◌&&◌, ◌||◌, Option, none, some, List, [], ◌∷◌, Eq, filter, if◌then◌else◌,
  nat_eq, contains,
}
use kvtsjl.Prelude.Dict.{Dict, keys, dedup}
use kvtsjl.Errors.{unsupported, Result, ok, raise}
use kvtsjl.Exec.{Exec, pure, throw, lift, ◌>>=◌, ◌>>◌}
use kvtsjl.KeyMap.{Versioned, ConditionalWrite}
use kvtsjl.Topology.Target.{fallback, is_role, WriteOptions, receives, Target}
use kvtsjl.Topology.Sync.{Node, committing, on_media}
use kvtsjl.Topology.Shape.{
  Topology, components, dependents, assembled, lookups, require_authority, require_whole,
  removed_after_commit,
}
use kvtsjl.Topology.Write.{for_each, forget, sync_one}
use kvtsjl.Topology.Fill.{received}
use kvtsjl.Topology.Assemble.{assemble_many}
use kvtsjl.Topology.Changes.{
  values_of, puts_of, versioned, read_fallbacks, kept_in, changed, by_clock, against_version,
}

module _ {W K V O Ver : Type 0} ⦃e : Eq K⦄ (t : Topology W K V O Ver) where
  unfoldable pub batch_read_versioned : List K → Exec W (Dict K (Versioned V Ver))
  unfolding values_of versioned read_fallbacks
  batch_read_versioned ks =
      let unique = dedup ks in
      if assembled t
      then (lift (require_authority t) >>= λ anchor. anchor.batch_read_versioned unique >>= λ seen.
          assemble_many t (keys (values_of seen)) (some (values_of seen)) >>= λ records.
          lift (versioned records seen unique))
      else (lift (require_whole t) >>= λ whole. whole.batch_read_versioned unique >>= λ seen.
          read_fallbacks (filter (λ p. is_role p.role fallback) (lookups t)) unique (values_of seen)
          >>= λ values. lift (versioned values seen unique))

  -- `[(t, _changed(t, puts, writes)) for t in self.components]`
  unfoldable pub changed_parts :
      List (Target W K V O Ver)
      → Dict K V
      → Dict K (ConditionalWrite V Ver)
      → Result (List (Target W K V O Ver × Dict K V))
  unfolding changed
  changed_parts [] puts writes = ok []
  changed_parts (p ∷ ps) puts writes = elim (changed p.holds_same puts writes) [
    | raise exn ↦ raise exn
    | ok c ↦ elim (changed_parts ps puts writes) [
      | raise exn ↦ raise exn
      | ok rest ↦ ok ((p, c) ∷ rest)
    ]
  ]

  -- `replaced`, as whether it is empty
  unfoldable pub some_replaced :
      List (Target W K V O Ver × Dict K V) → Dict K (ConditionalWrite V Ver) → Result Bool
  unfolding against_version
  some_replaced [] writes = ok false
  some_replaced ((p, c) ∷ ps) writes = elim (against_version c writes) [
    | raise exn ↦ raise exn
    | ok here ↦ elim (some_replaced ps writes) [
      | raise exn ↦ raise exn
      | ok more ↦ ok (here || more)
    ]
  ]

  abbrev pub group_options : WriteOptions → Option ℕ → WriteOptions
  group_options options clock = record { ttl = options.ttl; created_at = clock }

  abbrev pub write_group :
      WriteOptions → Target W K V O Ver → Option ℕ × Dict K V → Exec W (Unit {0})
  write_group options p (clock, items) =
      p.batch_write items (receives p.supports_write_clock (group_options options clock))

  -- The components' writes, before the commit point.
  unfoldable pub write_parts :
      List (Target W K V O Ver × Dict K V)
      → Dict K (ConditionalWrite V Ver)
      → WriteOptions
      → Exec W (Unit {0})
  unfolding by_clock for_each
  write_parts [] writes options w = (ok tt, w)
  write_parts ((p, c) ∷ ps) writes options w =
      (lift (by_clock c writes) >>= λ groups.
      for_each groups (λ g. committing p.name p.role (write_group options p g))
      >> write_parts ps writes options)
        w

  abbrev pub remove_all : List K → Exec (Node W) (Unit {0})
  remove_all [] n = (ok tt, n)
  remove_all (k ∷ removed) n =
      for_each (removed_after_commit t)
        (λ p. sync_one t p "batch delete" (forget (p.batch_delete (k ∷ removed))) none) n

  -- The dependents' writes, after the commit point.
  unfoldable pub write_dependents :
      List (Target W K V O Ver)
      → Dict K V
      → Dict K (ConditionalWrite V Ver)
      → WriteOptions
      → Exec (Node W) (Unit {0})
  unfolding changed by_clock for_each sync_one
  write_dependents [] stored writes options n = (ok tt, n)
  write_dependents (p ∷ ps) stored writes options n =
      (lift (changed p.holds_same stored writes) >>= λ c. lift (by_clock c writes) >>= λ groups.
      for_each groups (λ g. sync_one t p "batch set" (write_group options p g) none)
      >> write_dependents ps stored writes options)
        n

  -- What follows the authority's conditional write.
  unfoldable pub after_commit :
      Dict K (ConditionalWrite V Ver) → WriteOptions → List K → Exec (Node W) (List K)
  unfolding puts_of kept_in write_dependents
  after_commit writes options written =
      let puts = puts_of writes in
      let removed =
        filter (λ k. contains written k && not (contains (keys puts) k)) (keys writes) in
      remove_all removed
      >> write_dependents (dependents t) (kept_in written puts) writes options
      >> pure written

  unfoldable pub batch_write_if_unchanged :
      Dict K (ConditionalWrite V Ver) → WriteOptions → Exec (Node W) (List K)
  unfolding puts_of changed_parts some_replaced write_parts on_media received after_commit
  batch_write_if_unchanged writes options = lift (require_authority t) >>= λ anchor.
      lift (changed_parts (components t) (puts_of writes) writes) >>= λ parts.
      lift (some_replaced parts writes) >>= λ replaced.
      if replaced
      then throw unsupported
      else (on_media (write_parts parts writes options)
          >> on_media (
              committing anchor.name anchor.role (
                anchor.batch_write_if_unchanged (received anchor.supports_write_clock writes)
                  options))
          >>= after_commit writes options)
