-- ===== src/Scan/Pushdown.antt =====
-- What src/kvtsjl/store/schema/scan.py takes out of a predicate for a leaf or a part to evaluate,
-- and what it leaves to the cascade.
pub mod Laws
pub mod Stages
use kvtsjl.Prelude.{Bool, true, false, ◌&&◌, Option, none, some, List, [], ◌∷◌, ◌++◌, if◌then◌else◌}
use kvtsjl.Scan.Predicate.{
  Predicate, always_true, and, or, not, key_prefix, key_range, key_in, key_matches, modified_before,
  modified_after, size_between, expired, value_where, needs,
}

pub record Partition (K V : Type 0) : Type 0 where
  pub key_p : List (Predicate K V)
  pub stat_p : List (Predicate K V)
  pub value_p : List (Predicate K V)

module _ {K V : Type 0} where
  -- `isinstance(pred, AlwaysTrue)`
  abbrev pub is_always_true : Predicate K V → Bool
  is_always_true always_true = true
  is_always_true _ = false

  -- `isinstance(pred, KeyPredicate)`
  abbrev pub is_key_predicate : Predicate K V → Bool
  is_key_predicate (key_prefix _) = true
  is_key_predicate (key_range _) = true
  is_key_predicate (key_in _) = true
  is_key_predicate (key_matches _) = true
  is_key_predicate _ = false

  unfoldable pub extract_key_prefix : Predicate K V → Option K
  extract_key_prefix (key_prefix p) = some p
  extract_key_prefix (and l r) = elim (extract_key_prefix l) [
    | some p ↦ some p
    | none ↦ extract_key_prefix r
  ]
  extract_key_prefix _ = none

  -- The two returns of a side that held a prefix.
  abbrev peeled_left : K → Predicate K V → Predicate K V → Option K × Predicate K V
  peeled_left p rest right =
      if is_always_true rest then (some p, right) else (some p, and rest right)

  abbrev peeled_right : K → Predicate K V → Predicate K V → Option K × Predicate K V
  peeled_right p rest left = if is_always_true rest then (some p, left) else (some p, and left rest)

  abbrev peel_both :
      Predicate K V
      → Predicate K V
      → Option K × Predicate K V
      → Option K × Predicate K V
      → Option K × Predicate K V
  peel_both left right (some p, lr) r = peeled_left p lr right
  peel_both left right (none, _) (some p, rr) = peeled_right p rr left
  peel_both left right (none, _) (none, _) = (none, and left right)

  unfoldable pub peel_key_prefix : Predicate K V → Option K × Predicate K V
  peel_key_prefix (key_prefix p) = (some p, always_true)
  peel_key_prefix (and l r) = peel_both l r (peel_key_prefix l) (peel_key_prefix r)
  peel_key_prefix p = (none, p)

  unfoldable pub is_key_only_predicate : Predicate K V → Bool
  is_key_only_predicate always_true = true
  is_key_only_predicate (and l r) = is_key_only_predicate l && is_key_only_predicate r
  is_key_only_predicate (or l r) = is_key_only_predicate l && is_key_only_predicate r
  is_key_only_predicate (not p) = is_key_only_predicate p
  is_key_only_predicate p = is_key_predicate p

  -- The conjunction of two sides, without the sides that are `AlwaysTrue`.
  abbrev join_sides : Predicate K V → Predicate K V → Predicate K V
  join_sides l r = if is_always_true l then r else if is_always_true r then l else and l r

  abbrev split_negated :
      Predicate K V → Predicate K V × Predicate K V → Predicate K V × Predicate K V
  split_negated whole (key_w, resid) =
      if is_always_true resid
      then (if is_always_true key_w then (always_true, whole) else (not key_w, always_true))
      else (if is_always_true key_w then (always_true, not resid) else (always_true, whole))

  unfoldable pub split_key_predicates : Predicate K V → Predicate K V × Predicate K V
  unfolding is_key_only_predicate
  split_key_predicates always_true = (always_true, always_true)
  split_key_predicates (not p) = split_negated (not p) (split_key_predicates p)
  split_key_predicates (and l r) =
      let (lk, lr) = split_key_predicates l in
      let (rk, rr) = split_key_predicates r in (join_sides lk rk, join_sides lr rr)
  split_key_predicates (or l r) =
      if is_key_only_predicate (or l r) then (or l r, always_true) else (always_true, or l r)
  split_key_predicates p = if is_key_predicate p then (p, always_true) else (always_true, p)

  unfoldable pub is_gc_predicate : Predicate K V → Bool
  is_gc_predicate expired = true
  is_gc_predicate (and l r) = is_gc_predicate l && is_gc_predicate r
  is_gc_predicate (or l r) = is_gc_predicate l && is_gc_predicate r
  is_gc_predicate _ = false

  unfoldable pub flatten_and : Predicate K V → List (Predicate K V)
  flatten_and (and l r) = flatten_and l ++ flatten_and r
  flatten_and always_true = []
  flatten_and p = p ∷ []

  -- One round of the loop of `partition_by_needs`: where a conjunct goes by what it needs.
  abbrev pub placed : Bool → Bool → Predicate K V → Partition K V → Partition K V
  placed true _ p r = record r { value_p = r.value_p ++ p ∷ [] }
  placed false true p r = record r { stat_p = r.stat_p ++ p ∷ [] }
  placed false false p r = record r { key_p = r.key_p ++ p ∷ [] }

  abbrev pub place : Predicate K V → Partition K V → Partition K V
  place p r = placed (needs p).value (needs p).stat p r

  unfoldable pub place_all : List (Predicate K V) → Partition K V → Partition K V
  place_all [] r = r
  place_all (p ∷ ps) r = place_all ps (place p r)

  unfoldable pub partition_by_needs : Predicate K V → Partition K V
  unfolding flatten_and place_all
  partition_by_needs residual =
      place_all (flatten_and residual) (record { key_p = []; stat_p = []; value_p = [] })
