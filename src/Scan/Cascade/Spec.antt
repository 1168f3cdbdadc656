-- ===== src/Scan/Cascade/Spec.antt =====
-- What `apply_cascade` is to yield, row by row and without pages: the rows that pass, with their
-- values looked up where the tests need one, projected, and cut at the limit.
use kvtsjl.Prelude.{
  ℕ, zero, suc, ◌+◌, ◌-◌, ◌≡◌, refl, ap, ◌∙◌, true, false, ◌&&◌, Option, none, some, List, [], ◌∷◌,
  ◌++◌, Eq, contains, length, take, is_none, if◌then◌else◌, arith, append-nil, leb→le, leb→lt,
  append_assoc, sym, length-take, take_of_length-le,
}
use kvtsjl.Prelude.Dict.{Dict, lookup}
use kvtsjl.Scan.Row.{KeyClass, ScanRow}
use kvtsjl.Scan.Predicate.{all_pass}
use kvtsjl.Scan.Pushdown.{Partition}
use kvtsjl.Scan.Cascade.{Options, nonempty, refined, with_value, project_row, reached}

-- What a store's `batch_get` answers: the value of each key asked for that is there.
abbrev pub Answers : {K V : Type 0} ⦃e : Eq K⦄ → (List K → Dict K V) → (K → Option V) → Type 0
Answers {K} batch_get get =
    (ks : List K) (k : K) → lookup k (batch_get ks) ≡ (if contains ks k then get k else none)

-- The first rows up to a limit of which `yielded` are used.
unfoldable pub limited {ℓ} : {A : Type ℓ} → Option ℕ → ℕ → List A → List A
limited none yielded xs = xs
limited (some n) yielded xs = take (n - yielded) xs

module _ {K V : Type 0} ⦃e : Eq K⦄ (c : KeyClass K) (now : ℕ) (p : Partition K V) (o : Options K V)
    (get : K → Option V) where
  -- The row with the value that the tests see; none where the store has none.
  abbrev pub hydrate : ScanRow K V → Option (ScanRow K V)
  hydrate row =
      if nonempty p.value_p && is_none row.value
      then (elim (get row.key) [ none ↦ none | some v ↦ some (with_value row.key v row) ])
      else some row

  abbrev pub accept : Option (ScanRow K V) → List (ScanRow K V)
  accept none = []
  accept (some row) =
      if all_pass c now p.value_p row && refined o.refine row
      then project_row row o.project ∷ []
      else []

  -- The rows, none or one, that one row leads to.
  abbrev pub answer : ScanRow K V → List (ScanRow K V)
  answer row =
      if all_pass c now p.key_p row && all_pass c now p.stat_p row then accept (hydrate row) else []

  unfoldable pub answers : List (ScanRow K V) → List (ScanRow K V)
  answers [] = []
  answers (row ∷ rows) = answer row ++ answers rows

  pub answers_nil : answers [] ≡ []
  unfolding answers
  answers_nil = refl

  pub answers_one : (row : ScanRow K V) → answers (row ∷ []) ≡ answer row
  unfolding answers
  answers_one row = append-nil (answer row)

  pub answers-append : (xs ys : List (ScanRow K V)) → answers (xs ++ ys) ≡ answers xs ++ answers ys
  unfolding answers
  answers-append [] ys = refl
  answers-append (x ∷ xs) ys =
      ap (◌++◌ (answer x)) (answers-append xs ys)
      ∙ sym (append_assoc (answer x) (answers xs) (answers ys))

module _ {ℓ} {A : Type ℓ} where
  pub limited-nil : (limit : Option ℕ) (yielded : ℕ) → limited {A = A} limit yielded [] ≡ []
  unfolding limited
  limited-nil none yielded = refl
  limited-nil (some n) yielded = take_of_length-le (n - yielded) [] (omega arith)

  take-append : (m : ℕ) (xs ys : List A) → take m (xs ++ ys) ≡ take m xs ++ take (m - length xs) ys
  take-append zero [] ys = ap (λ k. take k ys) (let e : 0 ≡ 0 - 0 = omega arith in e)
  take-append (suc m) [] ys = ap (λ k. take k ys) (let e : suc m ≡ suc m - 0 = omega arith in e)
  take-append zero (x ∷ xs) ys =
      ap (λ k. take k ys) (let e : 0 ≡ 0 - length (x ∷ xs) = omega arith in e)
  take-append (suc m) (x ∷ xs) ys =
      ap (◌∷◌ x) (take-append m xs ys ∙ ap (λ k. take m xs ++ take k ys) (omega arith))

  pub limited-append :
      (limit : Option ℕ) (yielded : ℕ) (xs ys : List A)
      → limited limit yielded (xs ++ ys)
        ≡ limited limit yielded xs ++ limited limit (yielded + length (limited limit yielded xs)) ys
  unfolding limited
  limited-append none yielded xs ys = refl
  limited-append (some n) yielded xs ys =
      take-append (n - yielded) xs ys
      ∙ ap (λ k. take (n - yielded) xs ++ take k ys) (omega (arith, length-take (n - yielded) xs))

  pub limited-reached :
      (limit : Option ℕ) (yielded : ℕ) (xs : List A)
      → reached limit yielded ≡ true
      → limited limit yielded xs ≡ []
  unfolding limited
  limited-reached none yielded xs h = cc
  limited-reached (some n) yielded xs h =
      ap (λ k. take k xs) (let e : n - yielded ≡ 0 = omega (arith, leb→le n yielded h) in e)

  pub limited-cons :
      (limit : Option ℕ) (yielded : ℕ) (x : A) (xs : List A)
      → reached limit yielded ≡ false
      → limited limit yielded (x ∷ xs) ≡ x ∷ limited limit (suc yielded) xs
  unfolding limited
  limited-cons none yielded x xs h = refl
  limited-cons (some n) yielded x xs h =
      let e : n - yielded ≡ suc (n - suc yielded) = omega (arith, leb→lt n yielded h) in rw e refl
