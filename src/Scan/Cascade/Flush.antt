-- ===== src/Scan/Cascade/Flush.antt =====
-- A flush of `apply_cascade` yields what the waiting rows lead to, up to the limit.
use kvtsjl.Prelude.{
  ℕ, suc, ◌+◌, ◌≡◌, refl, ap, true, false, ◌&&◌, Option, none, some, List, [], ◌∷◌, Eq, contains,
  length, is_none, arith,
}
use kvtsjl.Prelude.Dict.{Dict, lookup, erase}
use kvtsjl.Prelude.Distinct.{Distinct}
use kvtsjl.Scan.Row.{KeyClass, ScanRow}
use kvtsjl.Scan.Predicate.{all_pass}
use kvtsjl.Scan.Pushdown.{Partition}
use kvtsjl.Scan.Cascade.{
  Options, State, nonempty, with_value, project_row, reached, drain, pop_all, flush,
}
use kvtsjl.Scan.Cascade.Spec.{Answers, limited, limited-cons, limited-reached, limited-nil, answers}

module _ {K V : Type 0} where
  abbrev pub keys_of : List (ScanRow K V) → List K
  keys_of [] = []
  keys_of (row ∷ rows) = row.key ∷ keys_of rows

  abbrev pub by_key : List (ScanRow K V) → Dict K (ScanRow K V)
  by_key [] = []
  by_key (row ∷ rows) = (row.key, row) ∷ by_key rows

module _ {K V : Type 0} ⦃e : Eq K⦄ where
  erase-by_key :
      (k : K) (rows : List (ScanRow K V))
      → contains (keys_of rows) k ≡ false
      → erase k (by_key rows) ≡ by_key rows
  unfolding erase
  erase-by_key k [] h = refl
  erase-by_key k (row ∷ rows) h = ground (arith, erase-by_key k rows)

  -- Every waiting row is taken out, in the order of the keys, and none is left.
  pop_all-by_key :
      (rows : List (ScanRow K V))
      → Distinct (keys_of rows)
      → pop_all (keys_of rows) (by_key rows) ≡ some (by_key rows, [])
  unfolding pop_all
  pop_all-by_key [] d = refl
  pop_all-by_key (row ∷ rows) d = ground (arith, erase-by_key_self, pop_all-by_key rows d.1)
    where
      erase-by_key_self : erase row.key (by_key (row ∷ rows)) ≡ by_key rows
      erase-by_key_self = unfold erase in ground (arith, erase-by_key row.key rows d.0)

  module _ (c : KeyClass K) (now : ℕ) (p : Partition K V) (o : Options K V)
      (get : K → Option V) where
    -- Rows that wait for a value: they passed the key and stat tests and came without one.
    abbrev pub Waiting : List (ScanRow K V) → Type 0
    Waiting [] = Unit
    Waiting (row ∷ rows) =
        ((all_pass c now p.key_p row && all_pass c now p.stat_p row) ≡ true)
        × (is_none row.value ≡ true)
        × Waiting rows

    abbrev Found : Dict K V → List (ScanRow K V) → Type 0
    Found found [] = Unit
    Found found (row ∷ rows) = (lookup row.key found ≡ get row.key) × Found found rows

    drain_lem :
        (rows : List (ScanRow K V)) (found : Dict K V) (yielded : ℕ)
        → nonempty p.value_p ≡ true
        → Waiting rows
        → Found found rows
        → reached o.limit yielded ≡ false
        → drain c now p.value_p o (by_key rows) found yielded ≡ (
          limited o.limit yielded (answers c now p o get rows),
          yielded + length (limited o.limit yielded (answers c now p o get rows)),
        )
    unfolding drain answers
    drain_lem [] found yielded v w f r = rw limited-nil (ground arith)
    drain_lem (row ∷ rows) found yielded v w f r = ground (
      arith,
      drain_lem rows found yielded v w.2 f.1 r,
      drain_lem rows found (suc yielded) v w.2 f.1,
      limited-cons o.limit yielded (project_row (hydrated (get row.key)) o.project)
          (answers c now p o get rows) r,
      limited-reached o.limit (suc yielded) (answers c now p o get rows),
    )
      where
        hydrated : Option V → ScanRow K V
        hydrated none = row
        hydrated (some v) = with_value row.key v row

  abbrev pub holding : ℕ → List (ScanRow K V) → State K V
  holding yielded rows = record {
    yielded = yielded;
    pending_keys = keys_of rows;
    pending_rows = by_key rows;
  }

  module _ (c : KeyClass K) (now : ℕ) (p : Partition K V) (o : Options K V)
      {batch_get : List K → Dict K V} {get : K → Option V} (stored : o.store ≡ some batch_get)
      (reads : Answers batch_get get) where
    Found-all :
        (ks : List K) (rows : List (ScanRow K V))
        → ((k : K) → contains (keys_of rows) k ≡ true → contains ks k ≡ true)
        → Found c now p o get (batch_get ks) rows
    Found-all ks [] h = tt
    Found-all ks (row ∷ rows) h =
        (ground (arith, reads ks row.key, h row.key), Found-all ks rows (λ k m. h k (ground arith)))

    -- All that waits is answered for, in order and up to the limit, and nothing waits any more.
    pub flush_lem :
        (rows : List (ScanRow K V)) (yielded : ℕ)
        → nonempty p.value_p ≡ true
        → Distinct (keys_of rows)
        → Waiting c now p o get rows
        → reached o.limit yielded ≡ false
        → flush c now p.value_p o (holding yielded rows) ≡ record {
          out = limited o.limit yielded (answers c now p o get rows);
          state =
              holding (yielded + length (limited o.limit yielded (answers c now p o get rows))) [];
          raised = none;
        }
    unfolding flush
    flush_lem [] yielded v d w r =
        unfold answers in
        rw limited-nil (
          ap (λ y. record { out = []; state = holding y []; raised = none })
            (let e : yielded ≡ yielded + 0 = omega arith in e))
    flush_lem (row ∷ rows) yielded v d w r = ground (
      arith,
      pop_all-by_key (row ∷ rows) d,
      drain_lem c now p o get (row ∷ rows) (batch_get (keys_of (row ∷ rows))) yielded v w
          (Found-all _ (row ∷ rows) (λ k m. m)) r,
    )
