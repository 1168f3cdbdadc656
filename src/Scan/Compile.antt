-- ===== src/Scan/Compile.antt =====
-- Scan specifications of src/kvtsjl/store/schema/scan.py: how keyword arguments become one, what is
-- refused, and the scan that a leaf compiles from its listing. A key comes with its text, `str`.
pub mod Laws
use kvtsjl.Prelude.{
  ℕ, String, Bool, true, false, not, ◌&&◌, Option, none, some, is_some, List, [], ◌∷◌, Eq, ◌==◌,
  contains, all, map, string_eq, if◌then◌else◌,
}
use kvtsjl.Errors.{value_error, scan_unsupported, Result, ok, raise, ◌>>=◌}
use kvtsjl.Scan.Row.{
  ScanRow, Projection, entries, ScanOrder, unordered, OrderBy, Pushdown, client_side, strict,
  ScanQuery,
}
use kvtsjl.Scan.Predicate.{Predicate, always_true, and, key_prefix}
use kvtsjl.Scan.Pushdown.{is_always_true, extract_key_prefix, peel_key_prefix}

pub record ScanSpec (K V : Type 0) : Type 0 where
  pub where_p : Predicate K V
  pub refine : Option (ScanRow K V → Bool)
  pub project : Projection
  pub order : ScanOrder
  pub limit : Option ℕ
  pub page_size : ℕ
  pub cursor : Option String
  pub on_unsupported : Pushdown
  pub order_by : List OrderBy

-- The keyword arguments of `sugar_to_spec`.
pub record Sugar (K V : Type 0) : Type 0 where
  pub prefix : Option K
  pub include_values : Bool
  pub page_size : ℕ
  pub where_p : Option (Predicate K V)
  pub project : Option Projection
  pub limit : Option ℕ
  pub cursor : Option String
  pub order : ScanOrder
  pub refine : Option (ScanRow K V → Bool)
  pub on_unsupported : Pushdown
  pub order_by : List OrderBy

pub record CompiledScan (K V : Type 0) : Type 0 where
  pub rows : List (ScanRow K V)
  pub residual : Predicate K V
  pub pushed : List String

abbrev pub is_unordered : ScanOrder → Bool
is_unordered unordered = true
is_unordered _ = false

abbrev pub is_entries : Projection → Bool
is_entries entries = true
is_entries _ = false

abbrev pub is_strict : Pushdown → Bool
is_strict strict = true
is_strict client_side = false

module _ {K V : Type 0} where
  -- `ScanSpec.__post_init__`
  unfoldable pub check_spec : ScanSpec K V → Result (ScanSpec K V)
  check_spec spec = elim spec.order_by [
    | [] ↦ ok spec
    | item ∷ items ↦
        if not (is_unordered spec.order)
        then raise value_error
        else if is_some spec.cursor
        then raise scan_unsupported
        else ok spec
  ]

  -- The predicate that `prefix` and `where` make.
  unfoldable pub sugar_where : Option K → Option (Predicate K V) → Predicate K V
  sugar_where none none = always_true
  sugar_where none (some p) = p
  sugar_where (some k) none = key_prefix k
  sugar_where (some k) (some p) = if is_always_true p then key_prefix k else and p (key_prefix k)

  unfoldable pub sugar_to_spec : Sugar K V → Result (ScanSpec K V)
  unfolding check_spec sugar_where
  sugar_to_spec s = check_spec (record {
    where_p = sugar_where s.prefix s.where_p;
    refine = s.refine;
    project = elim s.project [
      | some p ↦ p
      | none ↦ if s.include_values then entries else Projection.keys
    ];
    order = s.order;
    limit = s.limit;
    page_size = s.page_size;
    cursor = s.cursor;
    on_unsupported = s.on_unsupported;
    order_by = s.order_by;
  })

  -- `enforce_order_by_supported`; the argument is the capabilities' `orderable_columns`, none also
  -- where there are no capabilities.
  unfoldable pub enforce_order_by_supported :
      ScanSpec K V → Option (List String) → Result (Unit {0})
  enforce_order_by_supported spec orderable = elim spec.order_by [
    | [] ↦ ok tt
    | item ∷ items ↦ elim orderable [
      | none ↦ raise scan_unsupported
      | some columns ↦
          if all (item ∷ items) (λ i. contains columns i.column)
          then ok tt
          else raise scan_unsupported
    ]
  ]

  unfoldable pub enforce_strict : ScanSpec K V → Predicate K V → Result (Unit {0})
  enforce_strict spec residual =
      if is_strict spec.on_unsupported && not (is_always_true residual)
      then raise scan_unsupported
      else ok tt

  -- `after_cursor`: the rows behind the first whose key has the cursor's text.
  unfoldable pub after_cursor : (K → String) → String → List (ScanRow K V) → List (ScanRow K V)
  after_cursor text token [] = []
  after_cursor text token (row ∷ rows) =
      let rest = after_cursor text token rows in if text row.key == token then rows else rest

  abbrev pub from_cursor : (K → String) → Option String → List (ScanRow K V) → List (ScanRow K V)
  from_cursor text none rows = rows
  from_cursor text (some token) rows = after_cursor text token rows

  abbrev pub entry_row : K × Option V → ScanRow K V
  entry_row (key, value) = record { key = key; value = value; stat = none }

  abbrev pub query_of : Option K → ScanSpec K V → ScanQuery K
  query_of prefix spec = record {
    prefix = prefix;
    include_values = is_entries spec.project;
    page_size = spec.page_size;
  }

  unfoldable pub compile_from_scan_entries :
      (K → String) → (ScanQuery K → List (K × Option V)) → ScanSpec K V → Result (CompiledScan K V)
  unfolding after_cursor enforce_strict peel_key_prefix
  compile_from_scan_entries text scan_entries spec =
      let (prefix, residual) = peel_key_prefix spec.where_p in
      let listed = map entry_row (scan_entries (query_of prefix spec)) in
      enforce_strict spec residual >>= λ _. ok (record {
        rows = from_cursor text spec.cursor listed;
        residual = residual;
        pushed = if is_some prefix then "KeyPrefix" ∷ [] else [];
      })

  unfoldable pub spec_to_scan_query : ScanSpec K V → ScanQuery K
  unfolding extract_key_prefix
  spec_to_scan_query spec = query_of (extract_key_prefix spec.where_p) spec
