-- ===== src/Scan/Tests.antt =====
-- Runs of the scans of src/kvtsjl/store/schema/scan.py, and their theorems at them.
use kvtsjl.Prelude.{
  ℕ, ◌≡◌, refl, true, false, ◌&&◌, Option, none, some, List, [], ◌∷◌, arith, nat_eq, ◌==◌, contains,
  ltb, if◌then◌else◌,
}
use kvtsjl.Prelude.Dict.{Dict}
use kvtsjl.Scan.Row.{
  before, same, after, KeyClass, ScanRow, Projection, ScanQuery, unordered, client_side,
}
use kvtsjl.Scan.Predicate.{
  Predicate, and, key_prefix, key_in, expired, value_where, size_between, evaluate, needs,
}
use kvtsjl.Scan.Predicate.Laws.{evaluate-needs_value}
use kvtsjl.Scan.Pushdown.{
  peel_key_prefix, split_key_predicates, is_gc_predicate, partition_by_needs,
}
use kvtsjl.Scan.Pushdown.Laws.{
  prefix_ok, evaluate-peel_key_prefix, evaluate-split_key_predicates, evaluate-is_gc_predicate,
}
use kvtsjl.Scan.Pushdown.Stages.{partition_ok, IsStaged, evaluate-partition_by_needs}
use kvtsjl.Scan.Cascade.{Options, apply_cascade}
use kvtsjl.Scan.Cascade.Spec.{Answers, limited, answers}
use kvtsjl.Scan.Compile.{ScanSpec}
use kvtsjl.Scan.Cascade.Laws.{apply_cascade-answers}

-- Numbers as keys; a number is a prefix of the greater ones.
abbrev numbers : KeyClass ℕ
numbers = record {
  starts_with = λ key prefix. ltb prefix key;
  cmp = λ a b. if a == b then same else if ltb a b then before else after;
  matches = λ pattern k. true;
}

abbrev row : ScanRow ℕ ℕ
row = record {
  key = 4;
  value = none;
  stat = some (record { size = some 9; modified_at = some 1; expires_at = some 5; etag = none });
}

-- Key, metadata and value tests.
abbrev mixed : Predicate ℕ ℕ
mixed = and (key_prefix 2) (and (size_between (some 1) none) (value_where (λ v. ltb 3 v)))

evaluate-needs_value_example :
    evaluate numbers 10 (key_in (4 ∷ [])) (record row { value = some 5 })
    ≡ evaluate numbers 10 (key_in (4 ∷ [])) row
unfolding needs
evaluate-needs_value_example = evaluate-needs_value numbers 10 (key_in (4 ∷ [])) row (some 5) refl

evaluate-peel_key_prefix_example :
    (prefix_ok numbers 10 (peel_key_prefix mixed).0 row
      && evaluate numbers 10 (peel_key_prefix mixed).1 row)
    ≡ evaluate numbers 10 mixed row
evaluate-peel_key_prefix_example = evaluate-peel_key_prefix numbers 10 mixed row

evaluate-split_key_predicates_example :
    (evaluate numbers 10 mixed row ≡ (
      evaluate numbers 10 (split_key_predicates mixed).0 row
      && evaluate numbers 10 (split_key_predicates mixed).1 row))
    × ((needs (split_key_predicates mixed).0).stat ≡ false)
    × ((needs (split_key_predicates mixed).0).value ≡ false)
evaluate-split_key_predicates_example = evaluate-split_key_predicates numbers 10 mixed row

evaluate-is_gc_predicate_example :
    evaluate numbers 10 (and expired expired) row ≡ evaluate numbers 10 expired row
unfolding is_gc_predicate
evaluate-is_gc_predicate_example =
    evaluate-is_gc_predicate numbers 10 (and expired expired) row refl

evaluate-partition_by_needs_example :
    (evaluate numbers 10 mixed row ≡ partition_ok numbers 10 (partition_by_needs mixed) row)
    × IsStaged (partition_by_needs mixed)
evaluate-partition_by_needs_example = evaluate-partition_by_needs numbers 10 mixed row

-- A store that holds 5 under the key 4.
abbrev held : List ℕ → Dict ℕ ℕ
held ks = if contains ks 4 then (4, 5) ∷ [] else []

abbrev reads : ℕ → Option ℕ
reads k = if k == 4 then some 5 else none

held-Answers : Answers held reads
held-Answers ks k = ground arith

abbrev options : Options ℕ ℕ
options = record { store = some held; refine = none; limit = some 2; project = Projection.entries }

apply_cascade-answers_example : apply_cascade numbers 10 (row ∷ []) mixed options ≡ (
  limited (some 2) 0 (answers numbers 10 (partition_by_needs mixed) options reads (row ∷ [])),
  none,
)
apply_cascade-answers_example =
    apply_cascade-answers numbers 10 (row ∷ []) mixed options refl held-Answers (refl, tt)

abbrev spec : ScanSpec ℕ ℕ
spec = record {
  where_p = mixed;
  refine = none;
  project = Projection.entries;
  order = unordered;
  limit = none;
  page_size = 100;
  cursor = none;
  on_unsupported = client_side;
  order_by = [];
}

abbrev everything : List (ℕ × Option ℕ)
everything = (4, some 5) ∷ (1, some 2) ∷ []

-- A listing by prefix of the two entries.
abbrev under : ℕ → ℕ × Option ℕ → List (ℕ × Option ℕ) → List (ℕ × Option ℕ)
under p entry rest = if ltb p entry.0 then entry ∷ rest else rest

abbrev listing : ScanQuery ℕ → List (ℕ × Option ℕ)
listing q = elim q.prefix [
  | none ↦ everything
  | some p ↦ under p (4, some 5) (under p (1, some 2) [])
]
