-- ===== src/Scan/Cascade/Laws.antt =====
-- `apply_cascade` against its specification: pages and pending rows leave no trace in what it
-- yields.
use kvtsjl.Prelude.{
  ℕ, ◌+◌, ◌≡◌, refl, ap, ◌∙◌, sym, true, false, Option, none, some, List, [], ◌∷◌, ◌++◌, Eq, length,
  arith, Bool-cases, inl, inr, append_assoc, append-nil, subst,
}
use kvtsjl.Prelude.Dict.{Dict}
use kvtsjl.Prelude.Distinct.{Distinct}
use kvtsjl.Scan.Row.{KeyClass, ScanRow}
use kvtsjl.Scan.Predicate.{Predicate}
use kvtsjl.Scan.Pushdown.{Partition, partition_by_needs}
use kvtsjl.Scan.Cascade.{Options, nonempty, reached, round, finish, cascade_rows, apply_cascade}
use kvtsjl.Scan.Cascade.Spec.{Answers, limited, limited-nil, limited-reached, answer, answers}
use kvtsjl.Scan.Cascade.Flush.{keys_of, Waiting, holding, flush_lem}
use kvtsjl.Scan.Cascade.Wait.{Follows}
use kvtsjl.Scan.Cascade.Rounds.{round-Follows}

module _ {K V : Type 0} ⦃e : Eq K⦄ (c : KeyClass K) (now : ℕ) where
  module _ (p : Partition K V) (o : Options K V) {batch_get : List K → Dict K V}
      {get : K → Option V} (stored : o.store ≡ some batch_get) (reads : Answers batch_get get) where
    finish_lem :
        (waiting : List (ScanRow K V)) (yielded : ℕ)
        → Waiting c now p o get waiting
        → (nonempty p.value_p ≡ false → waiting ≡ [])
        → Distinct (keys_of waiting)
        → finish c now p o (holding yielded waiting)
          ≡ (limited o.limit yielded (answers c now p o get waiting), none)
    unfolding finish answers
    finish_lem [] yielded w only d = ground (arith, limited-nil {A = ScanRow K V} o.limit yielded)
    finish_lem (row ∷ rows) yielded w only d = elim (Bool-cases (nonempty p.value_p)) [
      | inr v ↦ absurd (ground (arith, only v))
      | inl v ↦ elim (Bool-cases (reached o.limit yielded)) [
        | inl full ↦
            ground
              (arith, limited-reached o.limit yielded (answers c now p o get (row ∷ rows)) full)
        | inr room ↦
            ground (arith, flush_lem c now p o stored reads (row ∷ rows) yielded v d w room)
      ]
    ]

    finish-reached :
        (waiting : List (ScanRow K V)) (yielded : ℕ)
        → reached o.limit yielded ≡ true
        → finish c now p o (holding yielded waiting) ≡ ([], none)
    unfolding finish
    finish-reached waiting yielded full = ground arith

    next_lem :
        (row : ScanRow K V) (rows waiting : List (ScanRow K V)) (yielded : ℕ)
        → (f : Follows c now p o stored reads waiting row yielded
            (keys_of rows)
            (round c now p o row (holding yielded waiting)))
        → reached o.limit yielded ≡ false
        → (let y = yielded + length (round c now p o row (holding yielded waiting)).out in
            cascade_rows c now p o rows (holding y f.rest) ≡ (
              limited o.limit y (answers c now p o get f.rest ++ answers c now p o get rows),
              none,
            ))
        → cascade_rows c now p o (row ∷ rows) (holding yielded waiting) ≡ (
          limited o.limit yielded
              (answers c now p o get waiting ++ answers c now p o get (row ∷ rows)),
          none,
        )
    unfolding cascade_rows answers
    next_lem row rows waiting yielded f room ih = ground (
      arith,
      f.quiet,
      f.kept,
      f.total (answers c now p o get rows),
      append_assoc (answers c now p o get waiting) (answer c now p o get row)
          (answers c now p o get rows),
    )

    cascade_rows_lem :
        (rows waiting : List (ScanRow K V)) (yielded : ℕ)
        → Waiting c now p o get waiting
        → (nonempty p.value_p ≡ false → waiting ≡ [])
        → Distinct (keys_of waiting ++ keys_of rows)
        → cascade_rows c now p o rows (holding yielded waiting) ≡ (
          limited o.limit yielded (answers c now p o get waiting ++ answers c now p o get rows),
          none,
        )
    unfolding cascade_rows answers
    cascade_rows_lem [] waiting yielded w only d =
        finish_lem waiting yielded w only (subst Distinct (append-nil (keys_of waiting)) d)
        ∙ ap (λ xs. (limited o.limit yielded xs, none))
            (sym (append-nil (answers c now p o get waiting)))
    cascade_rows_lem (row ∷ rows) waiting yielded w only d =
        elim (Bool-cases (reached o.limit yielded)) [
          | inl full ↦ ground (
            arith,
            finish-reached waiting yielded full,
            limited-reached o.limit yielded
                (answers c now p o get waiting ++ answers c now p o get (row ∷ rows)) full,
          )
          | inr room ↦
              let f =
                round-Follows c now p o stored reads waiting row yielded (keys_of rows) w only d
                  room in
              next_lem row rows waiting yielded f room (
                cascade_rows_lem rows f.rest
                  (yielded + length (round c now p o row (holding yielded waiting)).out) f.waits
                  f.only_values f.distinct)
        ]

  -- Where the store answers `batch_get` by single reads and no key stands twice among the rows,
  -- `apply_cascade` raises nothing and yields, in the order of the rows and up to the limit, the
  -- projection of each row that passes the key, stat and value tests and `refine`, the row having
  -- its value read from the store where value tests need one that the scan did not bring.
  pub apply_cascade-answers :
      (rows : List (ScanRow K V)) (residual : Predicate K V) (o : Options K V)
      {batch_get : List K → Dict K V} {get : K → Option V}
      → o.store ≡ some batch_get
      → Answers batch_get get
      → Distinct (keys_of rows)
      → apply_cascade c now rows residual o
        ≡ (limited o.limit 0 (answers c now (partition_by_needs residual) o get rows), none)
  unfolding apply_cascade answers
  apply_cascade-answers rows residual o stored reads d =
      cascade_rows_lem (partition_by_needs residual) o stored reads rows [] 0 tt (λ h. refl) d
