-- ===== src/Topology/Fill.antt =====
-- The fills of `Topology` in src/kvtsjl/keymap_algebra/topology.py: a hit is given to the targets
-- that were consulted before it, asked to be filled, and lie downstream.
use kvtsjl.Prelude.{
  ℕ, ltb, Bool, true, false, not, ◌&&◌, Option, none, some, List, [], ◌∷◌, Eq, any, filter,
  if◌then◌else◌, nat_eq, contains,
}
use kvtsjl.Prelude.Dict.{Dict, keys, lookup, insert}
use kvtsjl.Exec.{Exec, pure, ◌>>=◌}
use kvtsjl.KeyMap.{absent, put, ConditionalWrite}
use kvtsjl.Topology.Target.{
  Role, component, authority, dependent, fallback, WriteOptions, RecordStat, write_clock, Target,
}
use kvtsjl.Topology.Sync.{try_fill}
use kvtsjl.Topology.Write.{for_each, forget}

-- `_STREAM_ORDER`
unfoldable pub stream_order : Role → ℕ
stream_order fallback = 0
stream_order authority = 1
stream_order component = 1
stream_order dependent = 2

-- `_clock`
unfoldable pub clock_of : Option RecordStat → Option ℕ
unfolding write_clock
clock_of none = none
clock_of (some meta) = write_clock meta

module _ {W K V Ver : Type 0} where
  -- `_fillable`
  unfoldable pub fillable :
      Target W K V V Ver → List (Target W K V V Ver) → List (Target W K V V Ver)
  unfolding stream_order
  fillable source consulted =
      filter (λ t. t.fill && ltb (stream_order source.role) (stream_order t.role)) consulted

-- `_received`
module _ {K V Ver : Type 0} where
  unfoldable pub received : Bool → Dict K (ConditionalWrite V Ver) → Dict K (ConditionalWrite V Ver)
  received true writes = writes
  received false [] = []
  received false ((k, w) ∷ writes) = (k, record w { created_at = none }) ∷ received false writes

-- `found.update(hits)`
unfoldable pub update_dict : {K V : Type 0} ⦃e : Eq K⦄ → Dict K V → Dict K V → Dict K V
update_dict found [] = found
update_dict found ((k, v) ∷ hits) = update_dict (insert k v found) hits

-- `[k for k in keys if k not in found]`
unfoldable pub missing_from : {K : Type 0} ⦃e : Eq K⦄ → List K → List K → List K
missing_from ks found = filter (λ k. not (contains found k)) ks

abbrev pub no_options : WriteOptions
no_options = record { ttl = none; created_at = none }

module _ {K V Ver : Type 0} ⦃e : Eq K⦄ where
  -- The writes of `_batch_fill`.
  unfoldable pub fill_writes : Dict K RecordStat → Dict K V → Dict K (ConditionalWrite V Ver)
  unfolding clock_of
  fill_writes stats [] = []
  fill_writes stats ((k, v) ∷ hits) =
      (k, record { seen = absent; change = put v; created_at = clock_of (lookup k stats) })
      ∷ fill_writes stats hits

module _ {W K V Ver : Type 0} ⦃e : Eq K⦄ where
  abbrev pub fill_stats :
      Target W K V V Ver → List (Target W K V V Ver) → Dict K V → Exec W (Dict K RecordStat)
  fill_stats source into hits =
      if any into (λ t. t.supports_write_clock) then source.batch_stat (keys hits) else pure []

  -- What `_batch_fill` does where `into` is not empty.
  unfoldable pub fill_into :
      Target W K V V Ver → List (Target W K V V Ver) → Dict K V → Exec W (Unit {0})
  unfolding fill_writes received for_each try_fill
  fill_into source into hits = fill_stats source into hits >>= λ stats. for_each into (λ t.
      try_fill (
        forget (
          t.batch_write_if_unchanged (received t.supports_write_clock (fill_writes stats hits))
            no_options)))

  -- `_batch_fill`, and `_fill` of one entry
  unfoldable pub batch_fill :
      Dict K V → Target W K V V Ver → List (Target W K V V Ver) → Exec W (Unit {0})
  unfolding fill_into fillable
  batch_fill hits source consulted = elim (fillable source consulted) [
    | [] ↦ pure tt
    | t ∷ ts ↦ fill_into source (t ∷ ts) hits
  ]
