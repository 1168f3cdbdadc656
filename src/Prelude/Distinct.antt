-- ===== src/Prelude/Distinct.antt =====
-- Lists in which no element stands twice, by Boolean membership.
use mathlib.Core.Path.{◌≡◌, refl}
use mathlib.Core.Bool.{false, ◌||◌}
use mathlib.Core.List.{List, [], ◌∷◌, ◌++◌}
use native.Mathlib.Omega.{arith}
use kvtsjl.Prelude.Equality.{Eq, contains}

module _ {ℓ} {A : Type ℓ} ⦃e : Eq A⦄ where
  abbrev pub Distinct : List A → Type 0
  Distinct [] = Unit
  Distinct (x ∷ xs) = (contains xs x ≡ false) × Distinct xs

  pub contains-append :
      (xs ys : List A) (a : A) → contains (xs ++ ys) a ≡ (contains xs a || contains ys a)
  contains-append [] ys a = refl
  contains-append (x ∷ xs) ys a = ground (arith, contains-append xs ys a)

  pub Distinct-left : (xs ys : List A) → Distinct (xs ++ ys) → Distinct xs
  Distinct-left [] ys d = tt
  Distinct-left (x ∷ xs) ys d = (ground (arith, contains-append xs ys x), Distinct-left xs ys d.1)

  pub Distinct-right : (xs ys : List A) → Distinct (xs ++ ys) → Distinct ys
  Distinct-right [] ys d = d
  Distinct-right (x ∷ xs) ys d = Distinct-right xs ys d.1

  pub Distinct-remove :
      (xs : List A) (y : A) (ys : List A) → Distinct (xs ++ y ∷ ys) → Distinct (xs ++ ys)
  Distinct-remove [] y ys d = d.1
  Distinct-remove (x ∷ xs) y ys d = (
    ground (arith, contains-append xs ys x, contains-append xs (y ∷ ys) x),
    Distinct-remove xs y ys d.1,
  )

  pub Distinct-fresh :
      (xs : List A) (y : A) (ys : List A) → Distinct (xs ++ y ∷ ys) → contains xs y ≡ false
  Distinct-fresh [] y ys d = refl
  Distinct-fresh (x ∷ xs) y ys d =
      ground (arith, contains-append xs (y ∷ ys) x, Distinct-fresh xs y ys d.1)
