-- ===== src/Memory/Fresh.antt =====
-- The numbers of the entries of src/kvtsjl/backends/memory.py, which stand for their identity, and
-- the numbers that are still to be given.
use kvtsjl.Prelude.{
  ℕ, suc, ◌<◌, ◌≡◌, ◌≢◌, refl, sym, ap, ◌∙◌, true, false, Option, none, some, arith, nat_eq,
  Option-cases, inl, inr,
}
use kvtsjl.Prelude.Dict.{lookup}
use kvtsjl.Keys.Text.{Text, text_eq}
use kvtsjl.Memory.{Entry, Root, bucket_at, store_at}
use kvtsjl.Memory.View.{entry-store_at}
use kvtsjl.Memory.Versions.{is_version}

-- No entry has the number of one that is still to be made.
abbrev pub IsFresh : {B : Type 0} → Root B → Type 0
IsFresh {B} root =
    (collection pk : Text) (entry : Entry B)
    → lookup pk (bucket_at root collection) ≡ some entry
    → entry.number < root.made

abbrev pub number_of : {B : Type 0} → Option (Entry B) → Option ℕ
number_of none = none
number_of (some entry) = some entry.number

-- A version is that of the entry that has its number.
pub is_version-same :
    {B : Type 0} (found : Option (Entry B)) (version : Option ℕ)
    → is_version found version ≡ true
    → number_of found ≡ version
is_version-same none none same = refl
is_version-same none (some n) same = absurd cc
is_version-same (some entry) none same = absurd cc
is_version-same (some entry) (some n) same = ground (arith, same)

pub is_version-other :
    {B : Type 0} (found : Option (Entry B)) (version : Option ℕ)
    → is_version found version ≡ false
    → number_of found ≢ version
is_version-other none none other same = cc
is_version-other none (some n) other same = cc
is_version-other (some entry) none other same = cc
is_version-other (some entry) (some n) other same = ground (arith, other, same)

pub some-injective : {A : Type 0} {a b : A} → some a ≡ some b → a ≡ b
some-injective same = cc

module _ {B : Type 0} (root later : Root B) (kept : later.collections ≡ root.collections) where
  pub entry-kept :
      (collection pk : Text)
      → lookup pk (bucket_at later collection) ≡ lookup pk (bucket_at root collection)
  entry-kept collection pk =
      ap (λ c. lookup pk (bucket_at (record root { collections = c }) collection)) kept

  pub IsFresh-kept : later.made ≡ root.made → IsFresh root → IsFresh later
  IsFresh-kept made fresh collection other found holds =
      omega (arith, made, fresh collection other found (sym (entry-kept collection other) ∙ holds))

  pub store_at-IsFresh :
      (n pk : Text) (entry : Entry B)
      → IsFresh root
      → entry.number ≡ root.made
      → later.made ≡ suc root.made
      → IsFresh (store_at n pk entry later).1
  unfolding store_at
  store_at-IsFresh n pk entry fresh number made collection other found holds =
      elim (Option-cases (lookup other (bucket_at root collection))) [
        | inl nothing ↦ ground (
          arith,
          entry-store_at later n pk entry collection other,
          entry-kept collection other,
          number,
          made,
          nothing,
          holds,
        )
        | inr (old, had) ↦ ground (
          arith,
          entry-store_at later n pk entry collection other,
          entry-kept collection other,
          number,
          made,
          had,
          holds,
          fresh collection other old had,
        )
      ]
