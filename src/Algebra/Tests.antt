-- ===== src/Algebra/Tests.antt =====
-- Tests of the readable keymaps, and the instance of what is proved of them.
use kvtsjl.Prelude.{ℕ, ℕ_discrete, ◌+◌, ◌≡◌, refl, Option, none, some, List, [], ◌∷◌, nat_eq}
use kvtsjl.Prelude.Dict.{Dict, lookup}
use kvtsjl.Algebra.{
  Readable, by_get, mapped, then_map, then_with, with_keys, Expansion, items, expand, expand_map,
  batch_exists,
}
use kvtsjl.Algebra.Coherent.{Coherent, by_get-Coherent, views-Coherent}

-- 1 to 2, 2 to 3, 3 to 5
abbrev numbers : ℕ → Option ℕ
numbers n = lookup n ((1, 2) ∷ (2, 3) ∷ (3, 5) ∷ [])

abbrev plain : Readable ℕ ℕ
plain = by_get numbers

repeated : plain.batch_get (2 ∷ 7 ∷ 1 ∷ 2 ∷ []) ≡ (2, 3) ∷ (1, 2) ∷ []
unfolding by_get kvtsjl.Prelude.ℕ_discrete kvtsjl.Prelude.Dict.insert
repeated = refl

followed : (then_map plain plain).batch_get (3 ∷ 1 ∷ 2 ∷ []) ≡ (1, 3) ∷ (2, 5) ∷ []
unfolding then_map by_get kvtsjl.Prelude.ℕ_discrete kvtsjl.Prelude.Dict.insert
followed = refl

by_way : (then_with plain (λ k v. k) plain).get 3 ≡ some 5
unfolding then_with by_get kvtsjl.Prelude.ℕ_discrete
by_way = refl

translated : (with_keys plain (λ n. n + 1)).batch_get (0 ∷ 9 ∷ []) ≡ (0, 2) ∷ []
unfolding with_keys by_get kvtsjl.Prelude.ℕ_discrete kvtsjl.Prelude.Dict.insert
translated = refl

dropped : (mapped {U = ℕ} plain (λ n. lookup n ((3, 0) ∷ []))).batch_get (1 ∷ 2 ∷ []) ≡ (2, 0) ∷ []
unfolding mapped by_get ℕ_discrete kvtsjl.Prelude.Dict.insert
dropped = refl

present : batch_exists plain (4 ∷ 3 ∷ []) ≡ 3 ∷ []
unfolding batch_exists by_get kvtsjl.Prelude.ℕ_discrete kvtsjl.Prelude.Dict.insert
present = refl

abbrev doubled : ℕ → ℕ → Expansion ℕ ℕ
doubled k v = items ((k, v) ∷ (k + 1, v) ∷ [])

folded : (expand_map plain doubled (λ k v col. col.get (k + 1))).get 2 ≡ some 3
unfolding expand_map kvtsjl.Prelude.ℕ_discrete kvtsjl.DictMap.collect kvtsjl.Prelude.Dict.insert
folded = refl

views-Coherent_example :
    Coherent (by_get numbers)
    × Coherent (mapped plain some)
    × Coherent (then_map plain plain)
    × Coherent (then_with plain (λ k v. k) plain)
    × Coherent (with_keys plain (λ n. n + 1))
    × Coherent (expand plain doubled)
    × Coherent (expand_map plain doubled (λ k v col. col.get k))
views-Coherent_example =
    views-Coherent plain plain numbers some (λ k v. k) (λ n. n + 1) doubled (λ k v col. col.get k)
      (by_get-Coherent numbers) (by_get-Coherent numbers)
