-- ===== src/Scan/Cascade/Rounds.antt =====
-- One round of `apply_cascade` against the specification: what it yields, with what the rows that
-- it leaves waiting will lead to, is what the row and the rows before it lead to.
use kvtsjl.Prelude.{
  ℕ, ◌+◌, ◌≡◌, refl, ap, ◌∙◌, sym, subst, true, false, ◌&&◌, Option, none, some, List, [], ◌∷◌,
  ◌++◌, Eq, length, length-append, is_none, if◌then◌else◌, arith, Bool-cases, inl, inr, append-nil,
  append_assoc,
}
use kvtsjl.Prelude.Dict.{Dict}
use kvtsjl.Prelude.Distinct.{Distinct, Distinct-left, Distinct-right, Distinct-remove}
use kvtsjl.Scan.Row.{KeyClass, ScanRow}
use kvtsjl.Scan.Predicate.{Predicate, all_pass}
use kvtsjl.Scan.Pushdown.{Partition}
use kvtsjl.Scan.Cascade.{
  Options, State, nonempty, refined, project_row, reached, wait, brought, emit, round,
}
use kvtsjl.Scan.Cascade.Spec.{
  Answers, limited, limited-cons, limited-reached, limited-append, answers, answer, accept,
}
use kvtsjl.Scan.Cascade.Flush.{keys_of, Waiting, holding, flush_lem}
use kvtsjl.Scan.Cascade.Wait.{Follows, wait-Follows, plus_zero, suc_one, limit_of}

module _ {K V : Type 0} ⦃e : Eq K⦄ where
  module _ (c : KeyClass K) (now : ℕ) (p : Partition K V) (o : Options K V)
      {batch_get : List K → Dict K V} {get : K → Option V} (stored : o.store ≡ some batch_get)
      (reads : Answers batch_get get) where
    -- A row is yielded or not; the limit is tested before.
    accept_step :
        (row : ScanRow K V) (yielded : ℕ) (more : List (ScanRow K V))
        → reached o.limit yielded ≡ false
        → limited o.limit yielded (accept c now p o get (some row) ++ more)
          ≡ accept c now p o get (some row)
            ++ limited o.limit (yielded + length (accept c now p o get (some row))) more
    accept_step row yielded more r =
        elim (Bool-cases (all_pass c now p.value_p row && refined o.refine row)) [
          | inl yes' ↦ rw yes' (
              limited-cons o.limit yielded (project_row row o.project) more r
              ∙ ap (λ y. project_row row o.project ∷ limited o.limit y more)
                  (suc_one c now p o stored reads yielded))
          | inr no' ↦
              rw no' (ap (λ y. limited o.limit y more) (plus_zero c now p o stored reads yielded))
        ]

    grown :
        (yielded : ℕ) (xs ys : List (ScanRow K V))
        → yielded + length xs + length ys ≡ yielded + length (xs ++ ys)
    grown yielded xs ys = omega (arith, length-append xs ys)

    abbrev accepted : ScanRow K V → ℕ → List (ScanRow K V)
    accepted row yielded = if reached o.limit yielded then [] else accept c now p o get (some row)

    brought_lem :
        (waiting : List (ScanRow K V)) (row : ScanRow K V) (yielded : ℕ)
        → nonempty p.value_p ≡ true
        → Distinct (keys_of waiting)
        → Waiting c now p o get waiting
        → reached o.limit yielded ≡ false
        → let y = yielded + length (limit_of c now p o stored reads waiting yielded) in
          brought c now p.value_p o row (holding yielded waiting) ≡ record {
            out = limit_of c now p o stored reads waiting yielded ++ accepted row y;
            state = holding (y + length (accepted row y)) [];
            raised = none;
          }
    unfolding brought
    brought_lem waiting row yielded v d w r = ground (
      arith,
      flush_lem c now p o stored reads waiting yielded v d w r,
      append-nil (limit_of c now p o stored reads waiting yielded),
    )

    accepted_step :
        (row : ScanRow K V) (yielded : ℕ) (more : List (ScanRow K V))
        → limited o.limit yielded (accept c now p o get (some row) ++ more)
          ≡ accepted row yielded ++ limited o.limit (yielded + length (accepted row yielded)) more
    accepted_step row yielded more = elim (Bool-cases (reached o.limit yielded)) [
      | inl full ↦ rw full (
          limited-reached o.limit yielded (accept c now p o get (some row) ++ more) full
          ∙ sym (limited-reached o.limit yielded more full)
          ∙ ap (λ y. limited o.limit y more) (plus_zero c now p o stored reads yielded))
      | inr room ↦ rw room (accept_step row yielded more room)
    ]

    brought-Follows :
        (waiting : List (ScanRow K V)) (row : ScanRow K V) (yielded : ℕ) (later : List K)
        → nonempty p.value_p ≡ true
        → Waiting c now p o get waiting
        → Distinct (keys_of waiting ++ later)
        → reached o.limit yielded ≡ false
        → answer c now p o get row ≡ accept c now p o get (some row)
        → Follows c now p o stored reads waiting row yielded later
            (brought c now p.value_p o row (holding yielded waiting))
    unfolding answers
    brought-Follows waiting row yielded later v w d r ans =
        subst (Follows c now p o stored reads waiting row yielded later)
          (sym (brought_lem waiting row yielded v (Distinct-left (keys_of waiting) later d) w r))
          (record {
            rest = [];
            waits = tt;
            distinct = Distinct-right (keys_of waiting) later d;
            kept =
                ap (λ y. holding y [])
                  (grown yielded (limit_of c now p o stored reads waiting yielded)
                    (accepted row y));
            quiet = refl;
            only_values = λ h. refl;
            total = λ more.
                ap (limited o.limit yielded)
                  (append_assoc (answers c now p o get waiting) (answer c now p o get row) more)
                ∙ limited-append o.limit yielded (answers c now p o get waiting)
                    (answer c now p o get row ++ more)
                ∙ ap
                    (λ xs.
                      limit_of c now p o stored reads waiting yielded
                      ++ limited o.limit y (xs ++ more))
                    ans
                ∙ ap (◌++◌ (limit_of c now p o stored reads waiting yielded))
                    (accepted_step row y more)
                ∙ sym (
                    append_assoc (limit_of c now p o stored reads waiting yielded) (accepted row y)
                      _)
                ∙ ap
                    (λ n.
                      (limit_of c now p o stored reads waiting yielded ++ accepted row y)
                      ++ limited o.limit n more)
                    (grown yielded (limit_of c now p o stored reads waiting yielded)
                      (accepted row y));
          })
      where
        y : ℕ
        y = yielded + length (limit_of c now p o stored reads waiting yielded)

    -- A row that fails a key or stat test leaves everything as it was.
    skip-Follows :
        (waiting : List (ScanRow K V)) (row : ScanRow K V) (yielded : ℕ) (later : List K)
        → Waiting c now p o get waiting
        → (nonempty p.value_p ≡ false → waiting ≡ [])
        → Distinct (keys_of waiting ++ later)
        → answer c now p o get row ≡ []
        → Follows c now p o stored reads waiting row yielded later
            (record { out = []; state = holding yielded waiting; raised = none })
    skip-Follows waiting row yielded later w only d ans = record {
      rest = waiting;
      waits = w;
      distinct = d;
      kept = ap (λ y. holding y waiting) (plus_zero c now p o stored reads yielded);
      quiet = refl;
      only_values = only;
      total = λ more.
          ap (λ xs. limited o.limit yielded ((answers c now p o get waiting ++ xs) ++ more)) ans
          ∙ ap (λ xs. limited o.limit yielded (xs ++ more))
              (append-nil (answers c now p o get waiting))
          ∙ ap (λ y. limited o.limit y (answers c now p o get waiting ++ more))
              (plus_zero c now p o stored reads yielded);
    }

    all_pass-nil :
        (row : ScanRow K V) → nonempty p.value_p ≡ false → all_pass c now p.value_p row ≡ true
    all_pass-nil row = go p.value_p
      where
        go : (ps : List (Predicate K V)) → nonempty ps ≡ false → all_pass c now ps row ≡ true
        go [] h = refl
        go (q ∷ ps) h = cc

    -- With no value tests a row is yielded at once.
    plain-Follows :
        (row : ScanRow K V) (yielded : ℕ) (later : List K)
        → reached o.limit yielded ≡ false
        → Distinct later
        → answer c now p o get row ≡ accept c now p o get (some row)
        → nonempty p.value_p ≡ false
        → Follows c now p o stored reads [] row yielded later (
            emit c now p.value_p o row
              (record { out = []; state = holding yielded []; raised = none }))
    unfolding answers
    plain-Follows row yielded later r d ans v =
        subst (Follows c now p o stored reads [] row yielded later) shape (record {
          rest = [];
          waits = tt;
          distinct = d;
          kept = refl;
          quiet = refl;
          only_values = λ h. refl;
          total = λ more.
              ap (λ xs. limited o.limit yielded (xs ++ more)) ans ∙ accept_step row yielded more r;
        })
      where
        out : List (ScanRow K V)
        out = accept c now p o get (some row)

        shape :
            record { out = out; state = holding (yielded + length out) []; raised = none }
            ≡ emit c now p.value_p o row
                (record { out = []; state = holding yielded []; raised = none })
        shape = ground (arith, all_pass-nil row v)

    pub round-Follows :
        (waiting : List (ScanRow K V)) (row : ScanRow K V) (yielded : ℕ) (later : List K)
        → Waiting c now p o get waiting
        → (nonempty p.value_p ≡ false → waiting ≡ [])
        → Distinct (keys_of waiting ++ row.key ∷ later)
        → reached o.limit yielded ≡ false
        → Follows c now p o stored reads waiting row yielded later
            (round c now p o row (holding yielded waiting))
    round-Follows waiting row yielded later w only d r =
        elim (Bool-cases (all_pass c now p.key_p row && all_pass c now p.stat_p row)) [
          | inr fails ↦
              subst (Follows c now p o stored reads waiting row yielded later) (sym (skipped fails))
                (skip-Follows waiting row yielded later w only left (ground arith))
          | inl pass ↦ elim (Bool-cases (nonempty p.value_p)) [
            | inr v ↦
                subst (Follows c now p o stored reads waiting row yielded later)
                  (sym (plain pass v))
                  (subst
                    (λ ws. Follows c now p o stored reads ws row yielded later (
                      emit c now p.value_p o row
                        (record { out = []; state = holding yielded ws; raised = none })))
                    (sym (only v))
                    (plain-Follows row yielded later r (Distinct-right (keys_of waiting) later left)
                      (ground arith) v))
            | inl v ↦ elim (Bool-cases (is_none row.value)) [
              | inl bare ↦
                  subst (Follows c now p o stored reads waiting row yielded later)
                    (sym (waits' pass v bare))
                    (wait-Follows c now p o stored reads waiting row yielded later v w d r pass
                      bare)
              | inr full ↦
                  subst (Follows c now p o stored reads waiting row yielded later)
                    (sym (brings pass v full))
                    (brought-Follows waiting row yielded later v w left r (ground arith))
            ]
          ]
        ]
      where
        left : Distinct (keys_of waiting ++ later)
        left = Distinct-remove (keys_of waiting) row.key later d

        s : State K V
        s = holding yielded waiting

        skipped :
            (all_pass c now p.key_p row && all_pass c now p.stat_p row) ≡ false
            → round c now p o row s ≡ record { out = []; state = s; raised = none }
        skipped h = unfold round in ground arith

        plain :
            (all_pass c now p.key_p row && all_pass c now p.stat_p row) ≡ true
            → nonempty p.value_p ≡ false
            → round c now p o row s
              ≡ emit c now p.value_p o row (record { out = []; state = s; raised = none })
        plain h v = unfold round in ground arith

        waits' :
            (all_pass c now p.key_p row && all_pass c now p.stat_p row) ≡ true
            → nonempty p.value_p ≡ true
            → is_none row.value ≡ true
            → round c now p o row s ≡ wait c now p.value_p o row s
        waits' h v b = unfold round in ground arith

        brings :
            (all_pass c now p.key_p row && all_pass c now p.stat_p row) ≡ true
            → nonempty p.value_p ≡ true
            → is_none row.value ≡ false
            → round c now p o row s ≡ brought c now p.value_p o row s
        brings h v b = unfold round in ground arith
