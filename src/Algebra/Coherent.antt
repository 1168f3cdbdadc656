-- ===== src/Algebra/Coherent.antt =====
-- Readable keymaps whose two ways of reading agree, and the combinators that keep it so.
use kvtsjl.Prelude.{
  ◌≡◌, refl, inl, sym, subst, ap, ◌∙◌, Option, none, some, List, [], ◌∷◌, Eq, contains,
  if◌then◌else◌, arith,
}
use kvtsjl.Prelude.Dict.{Dict, keys, lookup, dedup}
use kvtsjl.Prelude.Distinct.{Distinct}
use kvtsjl.Algebra.{
  Readable, comprehend, values, tabulate, then_get, unless_empty, by_get, mapped, then_with,
  then_map, with_keys, Expansion, as_keymap, expand, expand_map,
}
use kvtsjl.Algebra.Laws.{
  lookup-get_each, Distinct-get_each, contains-values, Distinct-dedup, keys-tabulate,
  contains-dedup, lookup-comprehend, Distinct-comprehend, lookup-tabulate,
}

-- A batch read answers a dict, which holds for each key that was asked for what a single read
-- answers, and nothing for any other.
pub record Coherent {K T : Type 0} ⦃e : Eq K⦄ (m : Readable K T) : Type 0 where
  pub answers :
      (ks : List K) (k : K) → lookup k (m.batch_get ks) ≡ (if contains ks k then m.get k else none)
  pub distinct : (ks : List K) → Distinct (keys (m.batch_get ks))

module _ {K T : Type 0} ⦃e : Eq K⦄ where
  pub by_get-Coherent : (get : K → Option T) → Coherent (by_get get)
  unfolding by_get
  by_get-Coherent get = record {
    answers = λ ks k. lookup-get_each get [] ks k (inl refl);
    distinct = λ ks. Distinct-get_each get [] ks tt;
  }

  -- What a batch read of the distinct keys holds.
  answers-dedup :
      (m : Readable K T) (ks : List K) (k : K)
      → Coherent m
      → lookup k (m.batch_get (dedup ks)) ≡ (if contains ks k then m.get k else none)
  answers-dedup m ks k coherent = ground (arith, coherent.answers (dedup ks) k, contains-dedup ks k)

  -- One dict comprehension over a batch read.
  module _ {U : Type 0} (m : Readable K T) (coherent : Coherent m) (body : K → T → Option U) where
    lookup-unless_empty :
        (ks : List K) (k : K)
        → lookup k (unless_empty ks (comprehend body (m.batch_get (dedup ks))))
          ≡ (if contains ks k then then_get (m.get k) (body k) else none)
    lookup-unless_empty [] k = refl
    lookup-unless_empty (j ∷ ks) k =
        lookup-comprehend body (m.batch_get (dedup (j ∷ ks))) k (coherent.distinct (dedup (j ∷ ks)))
        ∙ ground (arith, answers-dedup m (j ∷ ks) k coherent)

    Distinct-unless_empty :
        (ks : List K) → Distinct (keys (unless_empty ks (comprehend body (m.batch_get (dedup ks)))))
    Distinct-unless_empty [] = tt
    Distinct-unless_empty (j ∷ ks) =
        Distinct-comprehend body (m.batch_get (dedup (j ∷ ks))) (coherent.distinct (dedup (j ∷ ks)))

  mapped-Coherent :
      {U : Type 0} (m : Readable K T) (forward : T → Option U)
      → Coherent m
      → Coherent (mapped m forward)
  unfolding mapped
  mapped-Coherent m forward coherent = record {
    answers = lookup-unless_empty m coherent (λ k v. forward v);
    distinct = Distinct-unless_empty m coherent (λ k v. forward v);
  }

-- The second hop of a composition: the batch read of the distinct middle keys, taken apart again.
module _ {K J V : Type 0} ⦃e : Eq K⦄ ⦃f : Eq J⦄ (right : Readable J V)
    (coherent : Coherent right) where
  abbrev hop : Dict K J → Dict K V
  hop mid_of =
      let found = right.batch_get (dedup (values mid_of)) in
      comprehend (λ k j. lookup j found) mid_of

  hop-found :
      (mid_of : Dict K J) (k : K) (o : Option J)
      → lookup k mid_of ≡ o
      → then_get o (λ j. lookup j (right.batch_get (dedup (values mid_of)))) ≡ then_get o right.get
  hop-found mid_of k none holds = refl
  hop-found mid_of k (some j) holds =
      ground
        (arith, answers-dedup right (values mid_of) j coherent, contains-values mid_of k j holds)

  lookup-hop :
      (mid_of : Dict K J) (k : K)
      → Distinct (keys mid_of)
      → lookup k (hop mid_of) ≡ then_get (lookup k mid_of) right.get
  lookup-hop mid_of k distinct =
      lookup-comprehend (λ k j. lookup j (right.batch_get (dedup (values mid_of)))) mid_of k
        distinct
      ∙ hop-found mid_of k (lookup k mid_of) refl

  Distinct-hop : (mid_of : Dict K J) → Distinct (keys mid_of) → Distinct (keys (hop mid_of))
  Distinct-hop mid_of distinct =
      Distinct-comprehend (λ k j. lookup j (right.batch_get (dedup (values mid_of)))) mid_of
        distinct

  then_with-Coherent :
      {T : Type 0} (left : Readable K T) (key_of : K → T → J)
      → Coherent left
      → Coherent (then_with left key_of right)
  unfolding then_with
  then_with-Coherent left key_of given = record { answers = answers; distinct = distinct }
    where
      mid_of : List K → Dict K J
      mid_of ks = comprehend (λ k v. some (key_of k v)) (left.batch_get (dedup ks))

      distinct_mids : (ks : List K) → Distinct (keys (mid_of ks))
      distinct_mids ks =
          Distinct-comprehend (λ k v. some (key_of k v)) (left.batch_get (dedup ks))
            (given.distinct (dedup ks))

      answers :
          (ks : List K) (k : K)
          → lookup k (unless_empty ks (hop (mid_of ks))) ≡ (
              if contains ks k
              then then_get (left.get k) (λ value. right.get (key_of k value))
              else none)
      answers [] k = refl
      answers (j ∷ ks) k =
          lookup-hop (mid_of (j ∷ ks)) k (distinct_mids (j ∷ ks))
          ∙ ap (λ o. then_get o right.get)
              (lookup-comprehend (λ k v. some (key_of k v)) (left.batch_get (dedup (j ∷ ks))) k
                (given.distinct (dedup (j ∷ ks))))
          ∙ ground (arith, answers-dedup left (j ∷ ks) k given)

      distinct : (ks : List K) → Distinct (keys (unless_empty ks (hop (mid_of ks))))
      distinct [] = tt
      distinct (j ∷ ks) = Distinct-hop (mid_of (j ∷ ks)) (distinct_mids (j ∷ ks))

  then_map-Coherent : (left : Readable K J) → Coherent left → Coherent (then_map left right)
  unfolding then_map
  then_map-Coherent left given = record { answers = answers; distinct = distinct }
    where
      answers :
          (ks : List K) (k : K)
          → lookup k (unless_empty ks (hop (left.batch_get (dedup ks))))
            ≡ (if contains ks k then then_get (left.get k) right.get else none)
      answers [] k = refl
      answers (j ∷ ks) k =
          lookup-hop (left.batch_get (dedup (j ∷ ks))) k (given.distinct (dedup (j ∷ ks)))
          ∙ ground (arith, answers-dedup left (j ∷ ks) k given)

      distinct : (ks : List K) → Distinct (keys (unless_empty ks (hop (left.batch_get (dedup ks)))))
      distinct [] = tt
      distinct (j ∷ ks) =
          Distinct-hop (left.batch_get (dedup (j ∷ ks))) (given.distinct (dedup (j ∷ ks)))

  with_keys-Coherent : (to_store : K → J) → Coherent (with_keys right to_store)
  unfolding with_keys
  with_keys-Coherent to_store = record { answers = answers; distinct = distinct }
    where
      distinct_keys : (ks : List K) → Distinct (keys (tabulate to_store (dedup ks)))
      distinct_keys ks =
          subst (λ ks. Distinct ks) (sym (keys-tabulate to_store (dedup ks))) (Distinct-dedup ks)

      answers :
          (ks : List K) (k : K)
          → lookup k (unless_empty ks (hop (tabulate to_store (dedup ks))))
            ≡ (if contains ks k then right.get (to_store k) else none)
      answers [] k = refl
      answers (j ∷ ks) k =
          lookup-hop (tabulate to_store (dedup (j ∷ ks))) k (distinct_keys (j ∷ ks))
          ∙ ap (λ o. then_get o right.get) (lookup-tabulate to_store (dedup (j ∷ ks)) k)
          ∙ ground (arith, contains-dedup (j ∷ ks) k)

      distinct :
          (ks : List K) → Distinct (keys (unless_empty ks (hop (tabulate to_store (dedup ks)))))
      distinct [] = tt
      distinct (j ∷ ks) = Distinct-hop (tabulate to_store (dedup (j ∷ ks))) (distinct_keys (j ∷ ks))

module _ {K T S W : Type 0} ⦃e : Eq K⦄ ⦃f : Eq S⦄ (m : Readable K T) (coherent : Coherent m)
    (expander : K → T → Expansion S W) where
  expand-Coherent : Coherent (expand m expander)
  unfolding expand
  expand-Coherent = record {
    answers = lookup-unless_empty m coherent (λ k v. some (as_keymap (expander k v)));
    distinct = Distinct-unless_empty m coherent (λ k v. some (as_keymap (expander k v)));
  }

  expand_map-Coherent :
      {U : Type 0} (aggregate : K → T → Readable S W → Option U)
      → Coherent (expand_map m expander aggregate)
  unfolding expand_map
  expand_map-Coherent aggregate = record {
    answers = lookup-unless_empty m coherent (λ k v. aggregate k v (as_keymap (expander k v)));
    distinct = Distinct-unless_empty m coherent (λ k v. aggregate k v (as_keymap (expander k v)));
  }

module _ {K J V U S W : Type 0} ⦃e : Eq K⦄ ⦃f : Eq J⦄ ⦃g : Eq S⦄ (left : Readable K J)
    (right : Readable J V) (read : K → Option J) (forward : J → Option U) (key_of : K → J → J)
    (to_store : K → J) (expander : K → J → Expansion S W)
    (aggregate : K → J → Readable S W → Option U) where
  -- A map that defines single reads only answers batch reads with what they answer, each key once;
  -- and so do the views that map values, follow one map by another, by way of a computed key or
  -- not, translate keys, or expand values, where the maps that they are made of do.
  pub views-Coherent :
      Coherent left
      → Coherent right
      → Coherent (by_get read)
        × Coherent (mapped left forward)
        × Coherent (then_map left right)
        × Coherent (then_with left key_of right)
        × Coherent (with_keys right to_store)
        × Coherent (expand left expander)
        × Coherent (expand_map left expander aggregate)
  views-Coherent one two = (
    by_get-Coherent read,
    mapped-Coherent left forward one,
    then_map-Coherent right two left one,
    then_with-Coherent right two left key_of one,
    with_keys-Coherent right two to_store,
    expand-Coherent left one expander,
    expand_map-Coherent left one expander aggregate,
  )
