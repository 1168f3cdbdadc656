-- ===== src/Topology/Downstream.antt =====
-- The fills of src/kvtsjl/keymap_algebra/topology.py flow downstream only.
use kvtsjl.Prelude.{
  ltb, ltb, ◌<◌, ◌≡◌, refl, Bool, true, false, ◌&&◌, List, [], ◌∷◌, arith, if◌then◌else◌, Eq,
}
use kvtsjl.Prelude.Dict.{Dict, keys}
use kvtsjl.Exec.{Exec, pure}
use kvtsjl.KeyMap.{ConditionalWrite}
use kvtsjl.Topology.Target.{Target, WriteOptions}
use kvtsjl.Topology.Sync.{try_fill}
use kvtsjl.Topology.Write.{forget}
use kvtsjl.Topology.Fill.{
  stream_order, received, fillable, batch_fill, fill_into, fill_stats, fill_writes, no_options,
}
use kvtsjl.Topology.Loops.{Each, Keeps, for_each-Keeps, continue-Keeps, Each-map}

module _ {W K V Ver X : Type 0} ⦃e : Eq K⦄ (view : W → X) where
  -- If the target lies downstream of `source` and asked to be filled, its conditional writes leave
  -- what `view` shows.
  abbrev pub Apart : Target W K V V Ver → Target W K V V Ver → Type 0
  Apart source t =
      t.fill ≡ true
      → stream_order source.role < stream_order t.role
      → (ws : Dict K (ConditionalWrite V Ver)) (o : WriteOptions)
      → Keeps view (t.batch_write_if_unchanged ws o)

  abbrev FillKeeps : Target W K V V Ver → Type 0
  FillKeeps t =
      (ws : Dict K (ConditionalWrite V Ver)) (o : WriteOptions)
      → Keeps view (try_fill (forget (t.batch_write_if_unchanged ws o)))

  fill-Keeps :
      (source t : Target W K V V Ver)
      → Apart source t
      → t.fill ≡ true
      → stream_order source.role < stream_order t.role
      → FillKeeps t
  unfolding try_fill
  fill-Keeps source t h f d ws o w = ground (arith, h f d ws o w)

  fillable-Keeps :
      (source : Target W K V V Ver) (consulted : List (Target W K V V Ver))
      → Each (Apart source) consulted
      → Each FillKeeps (fillable source consulted)
  unfolding fillable Each
  fillable-Keeps source [] h = tt
  fillable-Keeps source (t ∷ ts) h =
      go (t.fill && ltb (stream_order source.role) (stream_order t.role)) refl (fillable source ts)
        (fillable-Keeps source ts h.1)
    where
      go :
          (b : Bool)
          → (t.fill && ltb (stream_order source.role) (stream_order t.role)) ≡ b
          → (us : List (Target W K V V Ver)) → Each FillKeeps us
          → Each FillKeeps (if b then t ∷ us else us)
      go true p us k = (fill-Keeps source t h.0 (ground (arith, p)) (ground (arith, p)), k)
      go false p us k = k

  fill_into-Keeps :
      (source : Target W K V V Ver) (into : List (Target W K V V Ver)) (hits : Dict K V)
      → ((ks : List K) → Keeps view (source.batch_stat ks))
      → Each FillKeeps into
      → Keeps view (fill_into source into hits)
  unfolding fill_into
  fill_into-Keeps source into hits h k w =
      let stats = fill_stats source into hits w in
      continue-Keeps view stats.0 stats.1 _
        (λ found. for_each-Keeps view _ into (
          Each-map (λ t f. f (received t.supports_write_clock (fill_writes found hits)) no_options)
            into k))
        (ground (arith, h (keys hits) w))

  -- If the reading of the source's metadata leaves what `view` shows, and so do the conditional
  -- writes of those consulted targets that asked to be filled and lie downstream of it, then a
  -- fill leaves it too: no target that is not downstream (the authority, for a copy's value) and
  -- none that did not ask is written.
  pub batch_fill-Keeps :
      (hits : Dict K V) (source : Target W K V V Ver) (consulted : List (Target W K V V Ver))
      → ((ks : List K) → Keeps view (source.batch_stat ks))
      → Each (Apart source) consulted
      → Keeps view (batch_fill hits source consulted)
  unfolding batch_fill
  batch_fill-Keeps hits source consulted h g w =
      go (fillable source consulted) (fillable-Keeps source consulted g)
    where
      go :
          (ts : List (Target W K V V Ver))
          → Each FillKeeps ts
          → view
              ((elim ts as (λ _. Exec W (Unit {0})) [
                | [] ↦ pure tt
                | t ∷ us ↦ fill_into source (t ∷ us) hits
              ])
                w).1
            ≡ view w
      go [] k = refl
      go (t ∷ ts) k = fill_into-Keeps source (t ∷ ts) hits h k w
