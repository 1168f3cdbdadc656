-- ===== src/Topology/Read.antt =====
-- The reads of `Topology` in src/kvtsjl/keymap_algebra/topology.py: through the lookup order, with
-- the fills that a hit makes, or assembled from parts.
use kvtsjl.Prelude.{
  Bool, true, false, Option, none, some, is_some, List, [], ◌∷◌, ◌++◌, Eq, if◌then◌else◌, nat_eq,
}
use kvtsjl.Prelude.Dict.{Dict, keys}
use kvtsjl.Errors.{ok}
use kvtsjl.Exec.{Exec, pure, ◌>>=◌, ◌>>◌}
use kvtsjl.Topology.Target.{RecordStat, Target}
use kvtsjl.Topology.Shape.{Topology, assembled, lookups}
use kvtsjl.Topology.Write.{union}
use kvtsjl.Topology.Fill.{batch_fill, update_dict, missing_from}
use kvtsjl.Topology.Assemble.{assemble_one, assemble_many}

module _ {W K V Ver : Type 0} ⦃e : Eq K⦄ where
  -- The loop of `read`.
  unfoldable pub read_from :
      List (Target W K V V Ver) → K → List (Target W K V V Ver) → Exec W (Option V)
  unfolding batch_fill
  read_from [] key consulted w = (ok none, w)
  read_from (target ∷ targets) key consulted w =
      (target.read key >>= λ value. elim value [
        | none ↦ read_from targets key (consulted ++ target ∷ [])
        | some v ↦ batch_fill ((key, v) ∷ []) target consulted >>= λ _. pure (some v)
      ])
        w

  abbrev pub fill_hits :
      Dict K V → Target W K V V Ver → List (Target W K V V Ver) → Exec W (Unit {0})
  fill_hits [] source consulted = pure tt
  fill_hits (hit ∷ hits) source consulted = batch_fill (hit ∷ hits) source consulted

  -- The loop of `batch_read`.
  unfoldable pub batch_read_from :
      List (Target W K V V Ver) → List K → Dict K V → List (Target W K V V Ver) → Exec W (Dict K V)
  unfolding batch_fill update_dict missing_from
  batch_read_from [] ks found consulted w = (ok found, w)
  batch_read_from (target ∷ targets) ks found consulted w = elim (missing_from ks (keys found)) [
    | [] ↦ (ok found, w)
    | k ∷ missing ↦
        (target.batch_read (k ∷ missing) >>= λ hits.
        fill_hits hits target consulted
        >> batch_read_from targets ks (update_dict found hits) (consulted ++ target ∷ []))
          w
  ]

  -- `any(target.exists(key) for target in targets)`
  unfoldable pub exists_in : List (Target W K V V Ver) → K → Exec W Bool
  exists_in [] key w = (ok false, w)
  exists_in (target ∷ targets) key w =
      (target.exists key >>= λ held. elim held [ true ↦ pure true | false ↦ exists_in targets key ])
        w

  -- The loop of `batch_exists`.
  unfoldable pub batch_exists_in : List (Target W K V V Ver) → List K → List K → Exec W (List K)
  unfolding union missing_from
  batch_exists_in [] ks found w = (ok found, w)
  batch_exists_in (target ∷ targets) ks found w = elim (missing_from ks found) [
    | [] ↦ (ok found, w)
    | k ∷ missing ↦
        (target.batch_exists (k ∷ missing) >>= λ more.
        batch_exists_in targets ks (union found more))
          w
  ]

  -- The loop of `stat`.
  unfoldable pub stat_in : List (Target W K V V Ver) → K → Exec W (Option RecordStat)
  stat_in [] key w = (ok none, w)
  stat_in (target ∷ targets) key w =
      (target.stat key >>= λ meta. elim meta [
        | none ↦ stat_in targets key
        | some m ↦ pure (some m)
      ])
        w

  -- The loop of `batch_stat`.
  unfoldable pub batch_stat_in :
      List (Target W K V V Ver) → List K → Dict K RecordStat → Exec W (Dict K RecordStat)
  unfolding update_dict missing_from
  batch_stat_in [] ks found w = (ok found, w)
  batch_stat_in (target ∷ targets) ks found w = elim (missing_from ks (keys found)) [
    | [] ↦ (ok found, w)
    | k ∷ missing ↦
        (target.batch_stat (k ∷ missing) >>= λ more.
        batch_stat_in targets ks (update_dict found more))
          w
  ]

module _ {W K V O Ver : Type 0} ⦃e : Eq K⦄ (t : Topology W K V O Ver) where
  unfoldable pub read : K → Exec W (Option V)
  unfolding assemble_one read_from
  read key = if assembled t then assemble_one t key else read_from (lookups t) key []

  unfoldable pub batch_read : List K → Exec W (Dict K V)
  unfolding assemble_many batch_read_from
  batch_read ks =
      if assembled t then assemble_many t ks none else batch_read_from (lookups t) ks [] []

  unfoldable pub exists : K → Exec W Bool
  unfolding read exists_in
  exists key =
      if assembled t then (read key >>= λ v. pure (is_some v)) else exists_in (lookups t) key

  unfoldable pub batch_exists : List K → Exec W (List K)
  unfolding batch_read batch_exists_in
  batch_exists ks =
      if assembled t
      then (batch_read ks >>= λ found. pure (keys found))
      else batch_exists_in (lookups t) ks []

  unfoldable pub stat : K → Exec W (Option RecordStat)
  unfolding stat_in
  stat key = stat_in (lookups t) key

  unfoldable pub batch_stat : List K → Exec W (Dict K RecordStat)
  unfolding batch_stat_in
  batch_stat ks = batch_stat_in (lookups t) ks []
