-- ===== src/Scan/Cascade/Wait.antt =====
-- A row of `apply_cascade` that has to wait for its value: what the round leaves and yields, where
-- the page is full and where it is not.
use kvtsjl.Prelude.{
  ℕ, suc, ◌+◌, ◌≡◌, refl, ap, ◌∙◌, sym, subst, true, false, ◌&&◌, Option, none, some, List, [], ◌∷◌,
  ◌++◌, Eq, contains, length, is_none, arith, Bool-cases, inl, inr, append_assoc, leb,
}
use kvtsjl.Prelude.Dict.{Dict, insert}
use kvtsjl.Prelude.Distinct.{Distinct, Distinct-left, Distinct-right, Distinct-fresh}
use kvtsjl.Scan.Row.{KeyClass, ScanRow}
use kvtsjl.Scan.Predicate.{all_pass}
use kvtsjl.Scan.Pushdown.{Partition}
use kvtsjl.Scan.Cascade.{Options, Round, nonempty, reached, page_limit, flush, wait}
use kvtsjl.Scan.Cascade.Spec.{
  Answers, limited, limited-append, answers, answer, answers-append, answers_one,
}
use kvtsjl.Scan.Cascade.Flush.{keys_of, by_key, Waiting, holding, flush_lem}

module _ {K V : Type 0} ⦃e : Eq K⦄ where
  keys_of-append : (xs ys : List (ScanRow K V)) → keys_of (xs ++ ys) ≡ keys_of xs ++ keys_of ys
  keys_of-append [] ys = refl
  keys_of-append (x ∷ xs) ys = ap (◌∷◌ x.key) (keys_of-append xs ys)

  -- A fresh row is appended to the pending ones.
  insert-by_key :
      (row : ScanRow K V) (rows : List (ScanRow K V))
      → contains (keys_of rows) row.key ≡ false
      → insert row.key row (by_key rows) ≡ by_key (rows ++ row ∷ [])
  unfolding insert
  insert-by_key row [] h = refl
  insert-by_key row (r ∷ rows) h = ground (arith, insert-by_key row rows)

  module _ (c : KeyClass K) (now : ℕ) (p : Partition K V) (o : Options K V)
      {batch_get : List K → Dict K V} {get : K → Option V} (stored : o.store ≡ some batch_get)
      (reads : Answers batch_get get) where
    Waiting-snoc :
        (rows : List (ScanRow K V)) (row : ScanRow K V)
        → Waiting c now p o get rows
        → (all_pass c now p.key_p row && all_pass c now p.stat_p row) ≡ true
        → is_none row.value ≡ true
        → Waiting c now p o get (rows ++ row ∷ [])
    Waiting-snoc [] row w pass bare = (pass, bare, tt)
    Waiting-snoc (r ∷ rows) row w pass bare = (w.0, w.1, Waiting-snoc rows row w.2 pass bare)

    -- What a round leaves: rows that wait, and what it yields with what they will lead to.
    pub record Follows (waiting : List (ScanRow K V)) (row : ScanRow K V) (yielded : ℕ)
        (later : List K) (r : Round K V) : Type 0 where
      pub rest : List (ScanRow K V)
      pub waits : Waiting c now p o get rest
      pub distinct : Distinct (keys_of rest ++ later)
      pub kept : r.state ≡ holding (yielded + length r.out) rest
      pub quiet : r.raised ≡ none
      pub only_values : nonempty p.value_p ≡ false → rest ≡ []
      pub total :
          (more : List (ScanRow K V))
          → limited o.limit yielded
              ((answers c now p o get waiting ++ answer c now p o get row) ++ more)
            ≡ r.out ++ limited o.limit (yielded + length r.out) (answers c now p o get rest ++ more)

    wait_full :
        (row : ScanRow K V) (waiting : List (ScanRow K V)) (yielded : ℕ)
        → contains (keys_of waiting) row.key ≡ false
        → leb page_limit (length (keys_of waiting ++ row.key ∷ [])) ≡ true
        → wait c now p.value_p o row (holding yielded waiting)
          ≡ flush c now p.value_p o (holding yielded (waiting ++ row ∷ []))
    unfolding wait
    wait_full row waiting yielded fresh full =
        ground (arith, stored, insert-by_key row waiting fresh, keys_of-append waiting (row ∷ []))

    wait_room :
        (row : ScanRow K V) (waiting : List (ScanRow K V)) (yielded : ℕ)
        → contains (keys_of waiting) row.key ≡ false
        → leb page_limit (length (keys_of waiting ++ row.key ∷ [])) ≡ false
        → wait c now p.value_p o row (holding yielded waiting)
          ≡ record { out = []; state = holding yielded (waiting ++ row ∷ []); raised = none }
    unfolding wait
    wait_room row waiting yielded fresh room =
        ground (arith, stored, insert-by_key row waiting fresh, keys_of-append waiting (row ∷ []))

    abbrev pub limit_of : List (ScanRow K V) → ℕ → List (ScanRow K V)
    limit_of rows yielded = limited o.limit yielded (answers c now p o get rows)

    answers_snoc :
        (rows : List (ScanRow K V)) (row : ScanRow K V)
        → answers c now p o get (rows ++ row ∷ [])
          ≡ answers c now p o get rows ++ answer c now p o get row
    answers_snoc rows row =
        answers-append c now p o get rows (row ∷ [])
        ∙ ap (◌++◌ (answers c now p o get rows)) (answers_one c now p o get row)

    flush-Follows :
        (waiting : List (ScanRow K V)) (row : ScanRow K V) (yielded : ℕ) (later : List K)
        → nonempty p.value_p ≡ true
        → Waiting c now p o get (waiting ++ row ∷ [])
        → Distinct (keys_of (waiting ++ row ∷ []))
        → Distinct later
        → reached o.limit yielded ≡ false
        → Follows waiting row yielded later
            (flush c now p.value_p o (holding yielded (waiting ++ row ∷ [])))
    unfolding answers
    flush-Follows waiting row yielded later v w d dl r =
        subst (Follows waiting row yielded later)
          (sym (flush_lem c now p o stored reads (waiting ++ row ∷ []) yielded v d w r))
          (record {
            rest = [];
            waits = tt;
            distinct = dl;
            kept = refl;
            quiet = refl;
            only_values = λ h. refl;
            total = λ more. rw (← answers_snoc waiting row) (
                limited-append o.limit yielded (answers c now p o get (waiting ++ row ∷ [])) more
                ∙ refl);
          })

    pub plus_zero : (yielded : ℕ) → yielded ≡ yielded + 0
    plus_zero yielded = omega arith

    pub suc_one : (yielded : ℕ) → suc yielded ≡ yielded + 1
    suc_one yielded = omega arith

    room-Follows :
        (waiting : List (ScanRow K V)) (row : ScanRow K V) (yielded : ℕ) (later : List K)
        → nonempty p.value_p ≡ true
        → Waiting c now p o get (waiting ++ row ∷ [])
        → Distinct (keys_of (waiting ++ row ∷ []) ++ later)
        → Follows waiting row yielded later
            (record { out = []; state = holding yielded (waiting ++ row ∷ []); raised = none })
    room-Follows waiting row yielded later v w d = record {
      rest = waiting ++ row ∷ [];
      waits = w;
      distinct = d;
      kept = ap (λ y. holding y (waiting ++ row ∷ [])) (plus_zero yielded);
      quiet = refl;
      only_values = λ h. absurd (ground arith);
      total = λ more.
          ap (λ xs. limited o.limit yielded (xs ++ more)) (sym (answers_snoc waiting row))
          ∙ ap (λ y. limited o.limit y (answers c now p o get (waiting ++ row ∷ []) ++ more))
              (plus_zero yielded);
    }

    pub wait-Follows :
        (waiting : List (ScanRow K V)) (row : ScanRow K V) (yielded : ℕ) (later : List K)
        → nonempty p.value_p ≡ true
        → Waiting c now p o get waiting
        → Distinct (keys_of waiting ++ row.key ∷ later)
        → reached o.limit yielded ≡ false
        → (all_pass c now p.key_p row && all_pass c now p.stat_p row) ≡ true
        → is_none row.value ≡ true
        → Follows waiting row yielded later (wait c now p.value_p o row (holding yielded waiting))
    wait-Follows waiting row yielded later v w d r pass bare =
        let fresh = Distinct-fresh (keys_of waiting) row.key later d in
        let all : Distinct (keys_of (waiting ++ row ∷ []) ++ later) =
          rw keys_of-append (rw append_assoc d) in
        let w' = Waiting-snoc waiting row w pass bare in
        elim (Bool-cases (leb page_limit (length (keys_of waiting ++ row.key ∷ [])))) [
          | inl full ↦
              subst (Follows waiting row yielded later)
                (sym (wait_full row waiting yielded fresh full))
                (flush-Follows waiting row yielded later v w'
                  (Distinct-left (keys_of (waiting ++ row ∷ [])) later all)
                  (Distinct-right (keys_of (waiting ++ row ∷ [])) later all) r)
          | inr room ↦
              subst (Follows waiting row yielded later)
                (sym (wait_room row waiting yielded fresh room))
                (room-Follows waiting row yielded later v w' all)
        ]
