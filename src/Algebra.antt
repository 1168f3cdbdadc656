-- ===== src/Algebra.antt =====
-- The readable keymaps of src/kvtsjl/keymap_algebra: map.py, then.py, expand.py, util.py, and what
-- ReadableKeyMap of src/kvtsjl/keymap.py does by itself. A map is what it reads at one state of its
-- medium; a read that raises is not modelled. A function's `None` is `none`.
pub mod Laws
pub mod Coherent
mod Tests
use kvtsjl.Prelude.{
  Bool, true, false, not, Option, none, some, is_some, List, [], ◌∷◌, Eq, if◌then◌else◌,
}
use kvtsjl.Prelude.Dict.{Dict, keys, lookup, insert, dedup}
use kvtsjl.DictMap.{collect}

-- `ReadableKeyMap`
pub record Readable (K T : Type 0) : Type 0 where
  pub get : K → Option T
  pub batch_get : List K → Dict K T

-- `{k: u for k, v in d.items() if (u := f(k, v)) is not None}`
unfoldable pub comprehend : {K A B : Type 0} → (K → A → Option B) → Dict K A → Dict K B
comprehend f [] = []
comprehend f ((k, v) ∷ d) =
    let rest = comprehend f d in elim (f k v) [ none ↦ rest | some u ↦ (k, u) ∷ rest ]

-- `d.values()`
unfoldable pub values : {K A : Type 0} → Dict K A → List A
values [] = []
values ((k, v) ∷ d) = v ∷ values d

-- `{key: f(key) for key in unique}`
unfoldable pub tabulate : {K A : Type 0} → (K → A) → List K → Dict K A
tabulate f [] = []
tabulate f (k ∷ ks) = (k, f k) ∷ tabulate f ks

abbrev pub then_get : {A B : Type 0} → Option A → (A → Option B) → Option B
then_get none f = none
then_get (some a) f = f a

-- `if not keys: return {}`
abbrev pub unless_empty : {K A : Type 0} → List K → Dict K A → Dict K A
unless_empty [] d = []
unless_empty (k ∷ ks) d = d

module _ {K T : Type 0} ⦃e : Eq K⦄ where
  -- The loop of `ReadableKeyMap.batch_get`.
  unfoldable pub get_each : (K → Option T) → Dict K T → List K → Dict K T
  get_each get out [] = out
  get_each get out (key ∷ keys) =
      get_each get (elim (get key) [ none ↦ out | some value ↦ insert key value out ]) keys

  -- A map that defines `get` only.
  unfoldable pub by_get : (K → Option T) → Readable K T
  unfolding get_each
  by_get get = record { get = get; batch_get = get_each get [] }

  unfoldable pub exists : Readable K T → K → Bool
  exists m key = is_some (m.get key)

  unfoldable pub batch_exists : Readable K T → List K → List K
  batch_exists m ks = keys (m.batch_get ks)

  module _ {U : Type 0} where
    -- `MappedKeyMap`
    unfoldable pub mapped : Readable K T → (T → Option U) → Readable K U
    unfolding comprehend dedup
    mapped m forward = record {
      get = λ key. then_get (m.get key) forward;
      batch_get = λ ks. unless_empty ks (comprehend (λ k v. forward v) (m.batch_get (dedup ks)));
    }

  module _ {J V : Type 0} ⦃f : Eq J⦄ where
    -- `ThenWithKeyMap`
    unfoldable pub then_with : Readable K T → (K → T → J) → Readable J V → Readable K V
    unfolding comprehend values dedup
    then_with left key_of right = record {
      get = λ key. then_get (left.get key) (λ value. right.get (key_of key value));
      batch_get = λ ks. unless_empty ks (
          let mid_of = comprehend (λ k v. some (key_of k v)) (left.batch_get (dedup ks)) in
          let found = right.batch_get (dedup (values mid_of)) in
          comprehend (λ k j. lookup j found) mid_of);
    }

  module _ {V : Type 0} ⦃f : Eq T⦄ where
    -- `ThenKeyMap`
    unfoldable pub then_map : Readable K T → Readable T V → Readable K V
    unfolding comprehend values dedup
    then_map left right = record {
      get = λ key. then_get (left.get key) right.get;
      batch_get = λ ks. unless_empty ks (
          let left_found = left.batch_get (dedup ks) in
          let found = right.batch_get (dedup (values left_found)) in
          comprehend (λ k j. lookup j found) left_found);
    }

module _ {K S T : Type 0} ⦃e : Eq K⦄ ⦃f : Eq S⦄ where
  -- `IMappedKeysKeyMap`, its reads.
  unfoldable pub with_keys : Readable S T → (K → S) → Readable K T
  unfolding comprehend values tabulate dedup
  with_keys m to_store = record {
    get = λ key. m.get (to_store key);
    batch_get = λ ks. unless_empty ks (
        let stored = tabulate to_store (dedup ks) in
        let found = m.batch_get (dedup (values stored)) in
        comprehend (λ k s. lookup s found) stored);
  }

-- What an expander answers: a map, or the items of one.
pub data Expansion (K V : Type 0) : Type 0 where
  keymap : Readable K V → Expansion K V
  items : List (K × V) → Expansion K V

-- `as_keymap`
unfoldable pub as_keymap : {K V : Type 0} ⦃e : Eq K⦄ → Expansion K V → Readable K V
unfolding by_get
as_keymap (keymap m) = m
as_keymap (items pairs) = by_get (λ k. lookup k (collect pairs []))

module _ {K T S V : Type 0} ⦃e : Eq K⦄ ⦃f : Eq S⦄ (m : Readable K T)
    (expander : K → T → Expansion S V) where
  -- `ExpandKeyMap`
  unfoldable pub expand : Readable K (Readable S V)
  unfolding comprehend as_keymap dedup
  expand = record {
    get = λ key. then_get (m.get key) (λ value. some (as_keymap (expander key value)));
    batch_get = λ ks.
        unless_empty ks
          (comprehend (λ k v. some (as_keymap (expander k v))) (m.batch_get (dedup ks)));
  }

  -- `ExpandMapKeyMap`
  unfoldable pub expand_map : {U : Type 0} → (K → T → Readable S V → Option U) → Readable K U
  unfolding comprehend as_keymap dedup
  expand_map aggregate = record {
    get =
        λ key. then_get (m.get key) (λ value. aggregate key value (as_keymap (expander key value)));
    batch_get = λ ks.
        unless_empty ks
          (comprehend (λ k v. aggregate k v (as_keymap (expander k v))) (m.batch_get (dedup ks)));
  }
