-- ===== src/Algebra/Laws.antt =====
-- Python's dict comprehensions, as lookups see them.
use kvtsjl.Prelude.{
  ◌≡◌, refl, ap, ◌⊎◌, Bool, true, false, ◌||◌, Option, none, some, List, [], ◌∷◌, Eq, ◌==◌,
  contains, if◌then◌else◌, arith,
}
use kvtsjl.Prelude.Dict.{Dict, keys, lookup, insert, lookup-insert, dedup, dedup_from}
use kvtsjl.Prelude.Distinct.{Distinct}
use kvtsjl.Algebra.{comprehend, values, tabulate, then_get, get_each}

module _ {K : Type 0} ⦃e : Eq K⦄ where
  contains-dedup_from :
      (seen ks : List K) (k : K)
      → (contains seen k || contains (dedup_from seen ks) k) ≡ (contains seen k || contains ks k)
  unfolding dedup_from
  contains-dedup_from seen [] k = refl
  contains-dedup_from seen (x ∷ ks) k =
      ground (arith, contains-dedup_from seen ks k, contains-dedup_from (x ∷ seen) ks k)

  pub contains-dedup : (ks : List K) (k : K) → contains (dedup ks) k ≡ contains ks k
  unfolding dedup
  contains-dedup ks k = contains-dedup_from [] ks k

  dedup_from-fresh :
      (seen ks : List K) (k : K) → contains seen k ≡ true → contains (dedup_from seen ks) k ≡ false
  unfolding dedup_from
  dedup_from-fresh seen [] k old = refl
  dedup_from-fresh seen (x ∷ ks) k old =
      ground (arith, dedup_from-fresh seen ks k, dedup_from-fresh (x ∷ seen) ks k, old)

  Distinct-choice :
      (b : Bool) (xs ys : List K)
      → (b ≡ true → Distinct xs)
      → (b ≡ false → Distinct ys)
      → Distinct (elim b [ true ↦ xs | false ↦ ys ])
  Distinct-choice true xs ys first second = first refl
  Distinct-choice false xs ys first second = second refl

  Distinct-dedup_from : (seen ks : List K) → Distinct (dedup_from seen ks)
  unfolding dedup_from
  Distinct-dedup_from seen [] = tt
  Distinct-dedup_from seen (x ∷ ks) =
      Distinct-choice (contains seen x) (dedup_from seen ks) (x ∷ dedup_from (x ∷ seen) ks)
        (λ _. Distinct-dedup_from seen ks)
        (λ _. (dedup_from-fresh (x ∷ seen) ks x (ground arith), Distinct-dedup_from (x ∷ seen) ks))

  pub Distinct-dedup : (ks : List K) → Distinct (dedup ks)
  unfolding dedup
  Distinct-dedup ks = Distinct-dedup_from [] ks

module _ {K B : Type 0} ⦃e : Eq K⦄ where
  Distinct-kept :
      (o : Option B) (d : Dict K B) (k : K)
      → contains (keys d) k ≡ false
      → Distinct (keys d)
      → Distinct (keys (elim o [ none ↦ d | some a ↦ (k, a) ∷ d ]))
  Distinct-kept none d k fresh distinct = distinct
  Distinct-kept (some a) d k fresh distinct = (fresh, distinct)

module _ {K A : Type 0} ⦃e : Eq K⦄ where
  pub lookup-none : (d : Dict K A) (k : K) → contains (keys d) k ≡ false → lookup k d ≡ none
  lookup-none [] k absent = refl
  lookup-none ((j, a) ∷ d) k absent = ground (arith, lookup-none d k, absent)

  pub lookup-tabulate :
      (f : K → A) (ks : List K) (k : K)
      → lookup k (tabulate f ks) ≡ (if contains ks k then some (f k) else none)
  unfolding tabulate
  lookup-tabulate f [] k = refl
  lookup-tabulate f (j ∷ ks) k = ground (arith, lookup-tabulate f ks k)

  pub keys-tabulate : (f : K → A) (ks : List K) → keys (tabulate f ks) ≡ ks
  unfolding tabulate
  keys-tabulate f [] = refl
  keys-tabulate f (k ∷ ks) = ap (◌∷◌ k) (keys-tabulate f ks)

  keys-insert :
      (k j : K) (v : A) (d : Dict K A)
      → contains (keys (insert k v d)) j ≡ (j == k || contains (keys d) j)
  unfolding insert
  keys-insert k j v [] = refl
  keys-insert k j v ((i, a) ∷ d) = ground (arith, keys-insert k j v d)

  Distinct-replaced :
      (b : Bool) (j k : K) (v a : A) (d : Dict K A)
      → (j == k) ≡ b
      → contains (keys d) j ≡ false
      → Distinct (keys d)
      → Distinct (keys (insert k v d))
      → Distinct (keys (if b then (j, v) ∷ d else (j, a) ∷ insert k v d))
  Distinct-replaced true j k v a d same fresh distinct inserted = (fresh, distinct)
  Distinct-replaced false j k v a d same fresh distinct inserted =
      (ground (arith, keys-insert k j v d, fresh, same), inserted)

  pub Distinct-insert :
      (k : K) (v : A) (d : Dict K A) → Distinct (keys d) → Distinct (keys (insert k v d))
  unfolding insert
  Distinct-insert k v [] distinct = (refl, tt)
  Distinct-insert k v ((j, a) ∷ d) distinct =
      Distinct-replaced (k == j) j k v a d (ground arith) distinct.0 distinct.1
        (Distinct-insert k v d distinct.1)

  -- The dict after one step of the loop, which read `o` for the key.
  abbrev step : Dict K A → K → Option A → Dict K A
  step out key o = elim o [ none ↦ out | some value ↦ insert key value out ]

  lookup-step :
      (out : Dict K A) (j k : K) (o : Option A)
      → lookup k (step out j o)
        ≡ (if k == j then elim o [ none ↦ lookup k out | some v ↦ some v ] else lookup k out)
  lookup-step out j k none = ground arith
  lookup-step out j k (some v) = lookup-insert k j v out

  known-step :
      (get : K → Option A) (out : Dict K A) (j k : K)
      → (lookup k out ≡ none) ⊎ (lookup k out ≡ get k)
      → (lookup k (step out j (get j)) ≡ none) ⊎ (lookup k (step out j (get j)) ≡ get k)
  known-step get out j k known = ground (arith, lookup-step out j k (get j), known)

  Distinct-step :
      (out : Dict K A) (k : K) (o : Option A) → Distinct (keys out) → Distinct (keys (step out k o))
  Distinct-step out k none distinct = distinct
  Distinct-step out k (some v) distinct = Distinct-insert k v out distinct

  pub lookup-get_each :
      (get : K → Option A) (out : Dict K A) (ks : List K) (k : K)
      → (lookup k out ≡ none) ⊎ (lookup k out ≡ get k)
      → lookup k (get_each get out ks) ≡ (if contains ks k then get k else lookup k out)
  unfolding get_each
  lookup-get_each get out [] k known = refl
  lookup-get_each get out (j ∷ ks) k known = ground (
    arith,
    lookup-get_each get (step out j (get j)) ks k (known-step get out j k known),
    lookup-step out j k (get j),
    known,
  )

  pub Distinct-get_each :
      (get : K → Option A) (out : Dict K A) (ks : List K)
      → Distinct (keys out)
      → Distinct (keys (get_each get out ks))
  unfolding get_each
  Distinct-get_each get out [] distinct = distinct
  Distinct-get_each get out (k ∷ ks) distinct =
      Distinct-get_each get (step out k (get k)) ks (Distinct-step out k (get k) distinct)

  -- The values of a dict.
  pub contains-values :
      ⦃f : Eq A⦄ (d : Dict K A) (k : K) (a : A) → lookup k d ≡ some a → contains (values d) a ≡ true
  unfolding values
  contains-values [] k a holds = absurd cc
  contains-values ((j, b) ∷ d) k a holds = ground (arith, contains-values d k a, holds)

  module _ {B : Type 0} (f : K → A → Option B) where
    keys-comprehend :
        (d : Dict K A) (k : K)
        → contains (keys d) k ≡ false
        → contains (keys (comprehend f d)) k ≡ false
    unfolding comprehend
    keys-comprehend [] k absent = refl
    keys-comprehend ((j, a) ∷ d) k absent = ground (arith, keys-comprehend d k, absent)

    pub Distinct-comprehend : (d : Dict K A) → Distinct (keys d) → Distinct (keys (comprehend f d))
    unfolding comprehend
    Distinct-comprehend [] distinct = tt
    Distinct-comprehend ((j, a) ∷ d) distinct =
        Distinct-kept (f j a) (comprehend f d) j (keys-comprehend d j distinct.0)
          (Distinct-comprehend d distinct.1)

    -- A comprehension holds for a key what its body makes of what the dict holds.
    pub lookup-comprehend :
        (d : Dict K A) (k : K)
        → Distinct (keys d)
        → lookup k (comprehend f d) ≡ then_get (lookup k d) (f k)
    unfolding comprehend
    lookup-comprehend [] k distinct = refl
    lookup-comprehend ((j, a) ∷ d) k distinct =
        ground (arith, lookup-comprehend d k distinct.1, lookup-none d j distinct.0, distinct.0)
