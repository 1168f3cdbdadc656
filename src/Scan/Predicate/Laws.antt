-- ===== src/Scan/Predicate/Laws.antt =====
-- What a predicate reads of a row, against what `needs` of src/kvtsjl/store/schema/scan.py says.
use kvtsjl.Prelude.{ℕ, ◌≡◌, refl, ap, ap₂, false, not as flip, ◌&&◌, ◌||◌, Option, Eq, arith}
use kvtsjl.Scan.Row.{KeyClass, ScanRow, ScanStat}
use kvtsjl.Scan.Predicate.{Predicate, always_true, and, or, not, value_where, needs, evaluate}

module _ {K V : Type 0} ⦃e : Eq K⦄ (c : KeyClass K) (now : ℕ) where
  -- A predicate whose `needs` lack VALUE answers the same whatever value the row carries.
  pub evaluate-needs_value :
      (p : Predicate K V) (row : ScanRow K V) (v : Option V)
      → (needs p).value ≡ false
      → evaluate c now p (record row { value = v }) ≡ evaluate c now p row
  unfolding needs evaluate
  evaluate-needs_value (and l r) row v h =
      ap₂ ◌&&◌ (evaluate-needs_value l row v (ground arith))
        (evaluate-needs_value r row v (ground arith))
  evaluate-needs_value (or l r) row v h =
      ap₂ ◌||◌ (evaluate-needs_value l row v (ground arith))
        (evaluate-needs_value r row v (ground arith))
  evaluate-needs_value (not p) row v h = ap flip (evaluate-needs_value p row v h)
  evaluate-needs_value (value_where p) row v h = ground arith
  evaluate-needs_value _ row v h = refl

  -- A predicate whose `needs` lack STAT answers the same whatever metadata the row carries.
  pub evaluate-needs_stat :
      (p : Predicate K V) (row : ScanRow K V) (s : Option ScanStat)
      → (needs p).stat ≡ false
      → evaluate c now p (record row { stat = s }) ≡ evaluate c now p row
  unfolding needs evaluate
  evaluate-needs_stat (and l r) row s h =
      ap₂ ◌&&◌ (evaluate-needs_stat l row s (ground arith))
        (evaluate-needs_stat r row s (ground arith))
  evaluate-needs_stat (or l r) row s h =
      ap₂ ◌||◌ (evaluate-needs_stat l row s (ground arith))
        (evaluate-needs_stat r row s (ground arith))
  evaluate-needs_stat (not p) row s h = ap flip (evaluate-needs_stat p row s h)
  evaluate-needs_stat always_true row s h = refl
  evaluate-needs_stat (value_where p) row s h = refl
  evaluate-needs_stat (Predicate.key_prefix p) row s h = refl
  evaluate-needs_stat (Predicate.key_range p) row s h = refl
  evaluate-needs_stat (Predicate.key_in p) row s h = refl
  evaluate-needs_stat (Predicate.key_matches p) row s h = refl
  evaluate-needs_stat (Predicate.modified_before _) row s h = ground arith
  evaluate-needs_stat (Predicate.modified_after _) row s h = ground arith
  evaluate-needs_stat (Predicate.size_between _ _) row s h = ground arith
  evaluate-needs_stat Predicate.expired row s h = ground arith
