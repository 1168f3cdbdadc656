-- ===== src/Scan/Cascade.antt =====
-- `apply_cascade` of src/kvtsjl/store/schema/scan.py: KEY, STAT and VALUE tests, `refine`, `limit`.
-- A generator is the list of the rows that it yields and what it raises after them, if anything.
-- The store is what its `batch_get` answers during the scan: nothing is written meanwhile.
pub mod Spec
pub mod Flush
pub mod Wait
pub mod Rounds
pub mod Laws
use kvtsjl.Prelude.{
  ℕ, suc, Bool, true, false, not, ◌&&◌, ◌||◌, Option, none, some, List, [], ◌∷◌, ◌++◌, map, Eq, ltb,
  leb, length, is_none, is_some, if◌then◌else◌,
}
use kvtsjl.Prelude.Dict.{Dict, lookup, insert, erase}
use kvtsjl.Errors.{Exn, key_error, assertion_error, scan_unsupported}
use kvtsjl.Scan.Row.{KeyClass, ScanRow, Projection, stats, entries}
use kvtsjl.Scan.Predicate.{Predicate, all_pass}
use kvtsjl.Scan.Pushdown.{Partition, partition_by_needs}

-- The arguments of `apply_cascade` but the residual and the rows.
pub record Options (K V : Type 0) : Type 0 where
  pub store : Option (List K → Dict K V)
  pub refine : Option (ScanRow K V → Bool)
  pub limit : Option ℕ
  pub project : Projection

pub record State (K V : Type 0) : Type 0 where
  pub yielded : ℕ
  pub pending_keys : List K
  pub pending_rows : Dict K (ScanRow K V)

-- What one round of the loop, or a flush, yields, leaves and raises.
pub record Round (K V : Type 0) : Type 0 where
  pub out : List (ScanRow K V)
  pub state : State K V
  pub raised : Option Exn

abbrev pub Yield : Type 0 → Type 0 → Type 0
Yield K V = List (ScanRow K V) × Option Exn

abbrev pub page_limit : ℕ
page_limit = 100

-- `limit is not None and yielded >= limit`
abbrev pub reached : Option ℕ → ℕ → Bool
reached none yielded = false
reached (some limit) yielded = leb limit yielded

abbrev pub nonempty {ℓ} : {A : Type ℓ} → List A → Bool
nonempty [] = false
nonempty (_ ∷ _) = true

module _ {K V : Type 0} where
  -- `_project_row`
  unfoldable pub project_row : ScanRow K V → Projection → ScanRow K V
  project_row row entries = row
  project_row row stats = record { key = row.key; value = none; stat = row.stat }
  project_row row Projection.keys = record { key = row.key; value = none; stat = none }

  abbrev pub refined : Option (ScanRow K V → Bool) → ScanRow K V → Bool
  refined none row = true
  refined (some f) row = f row

  abbrev pub with_value : K → V → ScanRow K V → ScanRow K V
  with_value key v base = record { key = key; value = some v; stat = base.stat }

  module _ ⦃e : Eq K⦄ where
    -- `{k: pending_rows.pop(k) for k in keys}` and what is left; `none` is a `KeyError`.
    unfoldable pub pop_all :
        List K → Dict K (ScanRow K V) → Option (Dict K (ScanRow K V) × Dict K (ScanRow K V))
    pop_all [] d = some ([], d)
    pop_all (k ∷ ks) d = elim (lookup k d) [
      | none ↦ none
      | some row ↦ elim (pop_all ks (erase k d)) [
        | none ↦ none
        | some (snap, left) ↦ some ((k, row) ∷ snap, left)
      ]
    ]

    module _ (c : KeyClass K) (now : ℕ) (value_p : List (Predicate K V)) (o : Options K V) where
      -- The loop of `flush` over the keys, each with its row: what it yields, and the count after.
      unfoldable pub drain : Dict K (ScanRow K V) → Dict K V → ℕ → List (ScanRow K V) × ℕ
      drain [] found yielded = ([], yielded)
      drain ((k, base) ∷ snap) found yielded =
          let skip = drain snap found yielded in
          let next = drain snap found (suc yielded) in
          elim (lookup k found) [
            | none ↦ skip
            | some v ↦
                let row = with_value k v base in
                if all_pass c now value_p row && refined o.refine row
                then (if reached o.limit (suc yielded)
                    then (project_row row o.project ∷ [], suc yielded)
                    else (project_row row o.project ∷ next.0, next.1))
                else skip
          ]

      abbrev pub drained :
          State K V
          → (List K → Dict K V)
          → Option (Dict K (ScanRow K V) × Dict K (ScanRow K V))
          → Round K V
      drained s store none = record {
        out = [];
        state = record s { pending_keys = [] };
        raised = some key_error;
      }
      drained s store (some (snap, left)) =
          let (out, yielded) = drain snap (store s.pending_keys) s.yielded in
          record {
            out = out;
            state = record { yielded = yielded; pending_keys = []; pending_rows = left };
            raised = none;
          }

      unfoldable pub flush : State K V → Round K V
      unfolding drain pop_all
      flush s =
          if nonempty s.pending_keys
          then (elim o.store [
            | none ↦ record { out = []; state = s; raised = some assertion_error }
            | some store ↦ drained s store (pop_all s.pending_keys s.pending_rows)
          ])
          else record { out = []; state = s; raised = none }

      -- The end of a round: `refine`, then the row is yielded.
      abbrev pub emit : ScanRow K V → Round K V → Round K V
      emit row r =
          if refined o.refine row
          then record r {
            out = r.out ++ project_row row o.project ∷ [];
            state = record r.state { yielded = suc r.state.yielded };
          }
          else r

      -- A row that waits for its value; a full page is flushed.
      unfoldable pub wait : ScanRow K V → State K V → Round K V
      unfolding flush
      wait row s =
          let waiting = record s {
            pending_keys = s.pending_keys ++ row.key ∷ [];
            pending_rows = insert row.key row s.pending_rows;
          } in
          if is_none o.store
          then record { out = []; state = s; raised = some scan_unsupported }
          else if leb page_limit (length waiting.pending_keys)
          then flush waiting
          else record { out = []; state = waiting; raised = none }

      -- A row that the scan brought with its value, after the rows that wait for theirs.
      unfoldable pub brought : ScanRow K V → State K V → Round K V
      unfolding flush
      brought row s =
          let r = flush s in
          if is_some r.raised || reached o.limit r.state.yielded || not (all_pass c now value_p row)
          then r
          else emit row r

    module _ (c : KeyClass K) (now : ℕ) (p : Partition K V) (o : Options K V) where
      -- One round of the loop over the rows, past the test of the limit.
      unfoldable pub round : ScanRow K V → State K V → Round K V
      unfolding wait brought
      round row s =
          let quiet : Round K V = record { out = []; state = s; raised = none } in
          if not (all_pass c now p.key_p row) || not (all_pass c now p.stat_p row)
          then quiet
          else if nonempty p.value_p
          then (if is_none row.value
              then wait c now p.value_p o row s
              else brought c now p.value_p o row s)
          else emit c now p.value_p o row quiet

      -- After the loop: the rows that still wait.
      unfoldable pub finish : State K V → Yield K V
      unfolding flush
      finish s =
          if nonempty p.value_p && nonempty s.pending_keys && not (reached o.limit s.yielded)
          then (let r = flush c now p.value_p o s in (r.out, r.raised))
          else ([], none)

      unfoldable pub cascade_rows : List (ScanRow K V) → State K V → Yield K V
      cascade_rows [] s = finish s
      cascade_rows (row ∷ rows) s =
          let r = round row s in
          let rest = cascade_rows rows r.state in
          if reached o.limit s.yielded
          then finish s
          else elim r.raised [ some exn ↦ (r.out, some exn) | none ↦ (r.out ++ rest.0, rest.1) ]

  unfoldable pub apply_cascade :
      ⦃e : Eq K⦄ (c : KeyClass K) (now : ℕ)
      → List (ScanRow K V)
      → Predicate K V
      → Options K V
      → Yield K V
  unfolding cascade_rows
  apply_cascade c now rows residual o =
      cascade_rows c now (partition_by_needs residual) o rows
        (record { yielded = 0; pending_keys = []; pending_rows = [] })
