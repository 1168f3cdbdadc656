-- ===== src/Scan/Pushdown/Laws.antt =====
-- Pushing part of a predicate down loses and adds no row: soundness of `peel_key_prefix`
-- and `split_key_predicates` of src/kvtsjl/store/schema/scan.py.
use kvtsjl.Prelude.{
  ℕ, ◌≡◌, refl, sym, Bool, true, false, not as flip, ◌&&◌, Option, none, some, Eq, arith,
}
use kvtsjl.Scan.Row.{KeyClass, ScanRow}
use kvtsjl.Scan.Predicate.{
  Predicate, always_true, and, or, not, key_prefix, expired, value_where, needs, evaluate,
}
use kvtsjl.Scan.Pushdown.{
  is_always_true, peel_key_prefix, peel_both, is_key_only_predicate, split_key_predicates,
  join_sides, split_negated, is_gc_predicate,
}

module _ {K V : Type 0} ⦃e : Eq K⦄ (c : KeyClass K) (now : ℕ) where
  -- What the leaf filters by: the prefix, where one was taken out.
  abbrev pub prefix_ok : Option K → ScanRow K V → Bool
  prefix_ok none row = true
  prefix_ok (some p) row = c.starts_with row.key p

  peeled_ok : Option K × Predicate K V → ScanRow K V → Bool
  peeled_ok (o, rest) row = prefix_ok o row && evaluate c now rest row

  peel_both_sound :
      (left right : Predicate K V) (l r : Option K × Predicate K V) (row : ScanRow K V)
      → peeled_ok l row ≡ evaluate c now left row
      → peeled_ok r row ≡ evaluate c now right row
      → peeled_ok (peel_both left right l r) row
        ≡ (evaluate c now left row && evaluate c now right row)
  unfolding peeled_ok evaluate
  peel_both_sound left right (some p, always_true) r row hl hr = ground arith
  peel_both_sound left right (some p, lr) r row hl hr = ground arith
  peel_both_sound left right (none, lr) (some p, always_true) row hl hr = ground arith
  peel_both_sound left right (none, lr) (some p, rr) row hl hr = ground arith
  peel_both_sound left right (none, lr) (none, rr) row hl hr = ground arith

  -- A row satisfies a predicate exactly when it has the prefix that `peel_key_prefix` takes out
  -- (if any) and satisfies the residual.
  pub evaluate-peel_key_prefix :
      (p : Predicate K V) (row : ScanRow K V)
      → (prefix_ok (peel_key_prefix p).0 row && evaluate c now (peel_key_prefix p).1 row)
        ≡ evaluate c now p row
  unfolding peel_key_prefix peeled_ok evaluate
  evaluate-peel_key_prefix (and l r) row =
      peel_both_sound l r (peel_key_prefix l) (peel_key_prefix r) row
        (evaluate-peel_key_prefix l row) (evaluate-peel_key_prefix r row)
  evaluate-peel_key_prefix (key_prefix p) row = ground arith
  evaluate-peel_key_prefix _ row = refl

  evaluate-is_always_true :
      (p : Predicate K V) (row : ScanRow K V)
      → is_always_true p ≡ true
      → evaluate c now p row ≡ true
  unfolding evaluate
  evaluate-is_always_true always_true row h = refl
  evaluate-is_always_true _ row h = cc

  join_sides_sound :
      (l r : Predicate K V) (row : ScanRow K V)
      → evaluate c now (join_sides l r) row ≡ (evaluate c now l row && evaluate c now r row)
  unfolding evaluate
  join_sides_sound l r row =
      ground (arith, evaluate-is_always_true l row, evaluate-is_always_true r row)

  split_ok : Predicate K V × Predicate K V → ScanRow K V → Bool
  split_ok (key_w, resid) row = evaluate c now key_w row && evaluate c now resid row

  split_negated_sound :
      (p : Predicate K V) (s : Predicate K V × Predicate K V) (row : ScanRow K V)
      → split_ok s row ≡ evaluate c now p row
      → split_ok (split_negated (not p) s) row ≡ flip (evaluate c now p row)
  unfolding split_ok evaluate
  split_negated_sound p (key_w, resid) row h =
      ground (arith, evaluate-is_always_true key_w row, evaluate-is_always_true resid row)

  split_sound :
      (p : Predicate K V) (row : ScanRow K V)
      → split_ok (split_key_predicates p) row ≡ evaluate c now p row
  unfolding split_key_predicates split_ok evaluate
  split_sound (not p) row = split_negated_sound p (split_key_predicates p) row (split_sound p row)
  split_sound (and l r) row = ground (
    arith,
    join_sides_sound (split_key_predicates l).0 (split_key_predicates r).0 row,
    join_sides_sound (split_key_predicates l).1 (split_key_predicates r).1 row,
    split_sound l row,
    split_sound r row,
  )
  split_sound (or l r) row = ground arith
  split_sound (value_where _) row = refl
  split_sound _ row = ground arith

  is_key_only-join_sides :
      (l r : Predicate K V)
      → is_key_only_predicate l ≡ true
      → is_key_only_predicate r ≡ true
      → is_key_only_predicate (join_sides l r) ≡ true
  unfolding is_key_only_predicate
  is_key_only-join_sides l r hl hr = ground arith

  is_key_only-split : (p : Predicate K V) → is_key_only_predicate (split_key_predicates p).0 ≡ true
  unfolding split_key_predicates is_key_only_predicate
  is_key_only-split (not p) = ground (arith, is_key_only-split p)
  is_key_only-split (and l r) =
      is_key_only-join_sides (split_key_predicates l).0 (split_key_predicates r).0
        (is_key_only-split l) (is_key_only-split r)
  is_key_only-split (or l r) = ground arith
  is_key_only-split (value_where _) = refl
  is_key_only-split _ = ground arith

  needs-is_key_only :
      (p : Predicate K V)
      → is_key_only_predicate p ≡ true
      → ((needs p).stat ≡ false) × ((needs p).value ≡ false)
  unfolding is_key_only_predicate needs
  needs-is_key_only (not p) h = needs-is_key_only p h
  needs-is_key_only (and l r) h = ground (arith, needs-is_key_only l, needs-is_key_only r)
  needs-is_key_only (or l r) h = ground (arith, needs-is_key_only l, needs-is_key_only r)
  needs-is_key_only _ h = ground arith

  -- A predicate is the conjunction of the two that `split_key_predicates` returns, and the first,
  -- which is forwarded to the parts, needs neither the metadata nor the value of a row.
  pub evaluate-split_key_predicates :
      (p : Predicate K V) (row : ScanRow K V)
      → (evaluate c now p row ≡ (
          evaluate c now (split_key_predicates p).0 row
          && evaluate c now (split_key_predicates p).1 row))
        × ((needs (split_key_predicates p).0).stat ≡ false)
        × ((needs (split_key_predicates p).0).value ≡ false)
  unfolding split_ok
  evaluate-split_key_predicates p row =
      let (stat, value) = needs-is_key_only (split_key_predicates p).0 (is_key_only-split p) in
      (sym (split_sound p row), stat, value)

  -- A GC predicate, built from `Expired` by `And` and `Or`, holds exactly of the expired rows.
  pub evaluate-is_gc_predicate :
      (p : Predicate K V) (row : ScanRow K V)
      → is_gc_predicate p ≡ true
      → evaluate c now p row ≡ evaluate c now expired row
  unfolding is_gc_predicate evaluate
  evaluate-is_gc_predicate (and l r) row h =
      ground (arith, evaluate-is_gc_predicate l row, evaluate-is_gc_predicate r row)
  evaluate-is_gc_predicate (or l r) row h =
      ground (arith, evaluate-is_gc_predicate l row, evaluate-is_gc_predicate r row)
  evaluate-is_gc_predicate expired row h = refl
  evaluate-is_gc_predicate _ row h = cc
