-- ===== src/Scan/Pushdown/Stages.antt =====
-- The stages of the cascade: soundness of `flatten_and` and `partition_by_needs` of
-- src/kvtsjl/store/schema/scan.py.
use kvtsjl.Prelude.{
  ℕ, ◌≡◌, refl, ap₂, ◌∙◌, sym, Bool, true, false, ◌&&◌, List, [], ◌∷◌, ◌++◌, Eq, arith, all-append,
}
use kvtsjl.Scan.Row.{KeyClass, ScanRow}
use kvtsjl.Scan.Predicate.{Predicate, always_true, and, needs, evaluate, all_pass}
use kvtsjl.Scan.Pushdown.{flatten_and, Partition, placed, place, place_all, partition_by_needs}

module _ {K V : Type 0} where
  -- The predicates in a list need none of what `lacks` asks about.
  abbrev pub Lack : (Predicate K V → Bool) → List (Predicate K V) → Type 0
  Lack needed [] = Unit
  Lack needed (p ∷ ps) = (needed p ≡ false) × Lack needed ps

  Lack-snoc :
      (needed : Predicate K V → Bool) (ps : List (Predicate K V)) (p : Predicate K V)
      → Lack needed ps
      → needed p ≡ false
      → Lack needed (ps ++ p ∷ [])
  Lack-snoc needed [] p h hp = (hp, tt)
  Lack-snoc needed (q ∷ ps) p h hp = (h.0, Lack-snoc needed ps p h.1 hp)

  -- The stages of the cascade: key tests read the key alone, stat tests no value.
  pub record IsStaged (r : Partition K V) : Type 0 where
    pub key_no_stat : Lack (λ p. (needs p).stat) r.key_p
    pub key_no_value : Lack (λ p. (needs p).value) r.key_p
    pub stat_no_value : Lack (λ p. (needs p).value) r.stat_p

  placed-IsStaged :
      (v s : Bool) (p : Predicate K V) (r : Partition K V)
      → (needs p).value ≡ v
      → (needs p).stat ≡ s
      → IsStaged r
      → IsStaged (placed v s p r)
  placed-IsStaged true s p r ev es h = record {
    key_no_stat = h.key_no_stat;
    key_no_value = h.key_no_value;
    stat_no_value = h.stat_no_value;
  }
  placed-IsStaged false true p r ev es h = record {
    key_no_stat = h.key_no_stat;
    key_no_value = h.key_no_value;
    stat_no_value = Lack-snoc _ r.stat_p p h.stat_no_value ev;
  }
  placed-IsStaged false false p r ev es h = record {
    key_no_stat = Lack-snoc _ r.key_p p h.key_no_stat es;
    key_no_value = Lack-snoc _ r.key_p p h.key_no_value ev;
    stat_no_value = h.stat_no_value;
  }

  place_all-IsStaged :
      (ps : List (Predicate K V)) (r : Partition K V) → IsStaged r → IsStaged (place_all ps r)
  unfolding place_all
  place_all-IsStaged [] r h = h
  place_all-IsStaged (p ∷ ps) r h =
      place_all-IsStaged ps (place p r) (placed-IsStaged _ _ p r refl refl h)

module _ {K V : Type 0} ⦃e : Eq K⦄ (c : KeyClass K) (now : ℕ) where
  all_pass-flatten_and :
      (p : Predicate K V) (row : ScanRow K V)
      → all_pass c now (flatten_and p) row ≡ evaluate c now p row
  unfolding flatten_and evaluate
  all_pass-flatten_and (and l r) row =
      all-append (flatten_and l) (flatten_and r) (λ p. evaluate c now p row)
      ∙ ap₂ ◌&&◌ (all_pass-flatten_and l row) (all_pass-flatten_and r row)
  all_pass-flatten_and always_true row = refl
  all_pass-flatten_and _ row = ground arith

  abbrev pub partition_ok : Partition K V → ScanRow K V → Bool
  partition_ok r row =
      all_pass c now r.key_p row && all_pass c now r.stat_p row && all_pass c now r.value_p row

  all_pass_snoc :
      (ps : List (Predicate K V)) (p : Predicate K V) (row : ScanRow K V)
      → all_pass c now (ps ++ p ∷ []) row ≡ (all_pass c now ps row && evaluate c now p row)
  all_pass_snoc ps p row = all-append ps (p ∷ []) (λ q. evaluate c now q row) ∙ ground arith

  place_sound :
      (p : Predicate K V) (r : Partition K V) (row : ScanRow K V)
      → partition_ok (place p r) row ≡ (partition_ok r row && evaluate c now p row)
  place_sound p r row = ground (
    arith,
    all_pass_snoc r.key_p p row,
    all_pass_snoc r.stat_p p row,
    all_pass_snoc r.value_p p row,
  )

  place_all_sound :
      (ps : List (Predicate K V)) (r : Partition K V) (row : ScanRow K V)
      → partition_ok (place_all ps r) row ≡ (partition_ok r row && all_pass c now ps row)
  unfolding place_all
  place_all_sound [] r row = ground arith
  place_all_sound (p ∷ ps) r row =
      ground (arith, place_all_sound ps (place p r) row, place_sound p r row)

  -- A row satisfies a residual exactly when it passes the three stages of `partition_by_needs`,
  -- the key tests need neither metadata nor value, and the stat tests need no value.
  pub evaluate-partition_by_needs :
      (p : Predicate K V) (row : ScanRow K V)
      → (evaluate c now p row ≡ partition_ok (partition_by_needs p) row)
        × IsStaged (partition_by_needs p)
  unfolding partition_by_needs
  evaluate-partition_by_needs p row = (
    sym (place_all_sound (flatten_and p) _ row ∙ all_pass-flatten_and p row),
    place_all-IsStaged (flatten_and p) _
        (record { key_no_stat = tt; key_no_value = tt; stat_no_value = tt }),
  )
