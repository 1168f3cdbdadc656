-- ===== src/Scan/Compile/Laws.antt =====
-- A scan compiled from a listing, of src/kvtsjl/store/schema/scan.py, finds what the specification
-- asks for.
use kvtsjl.Prelude.{
  ℕ, String, ◌≡◌, refl, Bool, true, false, ◌&&◌, ◌||◌, Option, none, some, all, contains, List, [],
  ◌∷◌, Eq, filter, map, arith, if◌then◌else◌, string_eq,
}
use kvtsjl.Errors.{scan_unsupported, ok, raise}
use kvtsjl.Scan.Row.{OrderBy, KeyClass, ScanRow, ScanQuery}
use kvtsjl.Scan.Predicate.{Predicate, always_true, and, key_prefix, evaluate}
use kvtsjl.Scan.Pushdown.{is_always_true}
use kvtsjl.Scan.Pushdown.Laws.{prefix_ok}
use kvtsjl.Scan.Compile.{ScanSpec, entry_row, query_of, sugar_where, enforce_order_by_supported}

module _ {K V : Type 0} ⦃e : Eq K⦄ (c : KeyClass K) (now : ℕ) where
  -- A listing that yields, of the entries as the specification's projection lists them, those
  -- under the prefix of the query.
  abbrev pub Lists :
      ScanSpec K V → List (K × Option V) → (ScanQuery K → List (K × Option V)) → Type 0
  Lists spec everything scan_entries =
      (prefix : Option K)
      → map entry_row (scan_entries (query_of prefix spec))
        ≡ filter (prefix_ok c now prefix) (map entry_row everything)

  -- What `sugar_to_spec` makes of a prefix and a predicate holds of a row exactly if the row has
  -- the prefix, where one is given, and satisfies the predicate, where one is given.
  pub evaluate-sugar_where :
      (prefix : Option K) (where_p : Option (Predicate K V)) (row : ScanRow K V)
      → evaluate c now (sugar_where prefix where_p) row ≡ (
          prefix_ok c now prefix row
          && (elim where_p [ none ↦ true | some p ↦ evaluate c now p row ]))
  unfolding sugar_where evaluate
  evaluate-sugar_where none none row = refl
  evaluate-sugar_where none (some p) row = refl
  evaluate-sugar_where (some k) none row = ground arith
  evaluate-sugar_where (some k) (some p) row = go p (evaluate c now p row)
    where
      go :
          (q : Predicate K V) (b : Bool)
          → evaluate c now (if is_always_true q then key_prefix k else and q (key_prefix k)) row
            ≡ (c.starts_with row.key k && evaluate c now q row)
      go always_true b = ground arith
      go q b = ground arith

abbrev pub declares : Option (List String) → List OrderBy → Bool
declares none order_by = false
declares (some columns) order_by = all order_by (λ i. contains columns i.column)

abbrev pub is_empty : List OrderBy → Bool
is_empty [] = true
is_empty (i ∷ items) = false

module _ {K V : Type 0} where
  -- A specification passes `enforce_order_by_supported` exactly where it orders by nothing, or the
  -- medium declares every column that it orders by; otherwise it is refused.
  pub enforce_order_by_supported-declares :
      (spec : ScanSpec K V) (orderable : Option (List String))
      → enforce_order_by_supported spec orderable ≡ (
          if is_empty spec.order_by || declares orderable spec.order_by
          then ok tt
          else raise scan_unsupported)
  unfolding enforce_order_by_supported
  enforce_order_by_supported-declares spec orderable = ground arith
