-- ===== src/Memory/Steps.antt =====
-- The entries of src/kvtsjl/backends/memory.py while others use the backend: an entry that is as old
-- as a state is, where it is still there, the entry of that state.
use kvtsjl.Prelude.{suc, ◌≤◌, ◌<◌, ◌≡◌, sym, ap, ◌∙◌, some, arith, nat_eq}
use kvtsjl.Prelude.Dict.{lookup}
use kvtsjl.Errors.{Result, ok, raise}
use kvtsjl.Exec.{Exec, continue}
use kvtsjl.Keys.Text.{Text, text_eq}
use kvtsjl.Memory.{Entry, Root, bucket_at, pop_at, store_at, open_at}
use kvtsjl.Memory.View.{entry-open_at, entry-pop_at, entry-store_at}
use kvtsjl.Memory.Fresh.{IsFresh, entry-kept, IsFresh-kept, store_at-IsFresh}

-- What is as old as `root` in `later` is as it was in `root`.
pub record Since {B : Type 0} (root later : Root B) : Type 0 where
  pub onward : root.made ≤ later.made
  pub kept :
      (collection pk : Text) (entry : Entry B)
      → lookup pk (bucket_at later collection) ≡ some entry
      → entry.number < root.made
      → lookup pk (bucket_at root collection) ≡ some entry
  pub fresh : IsFresh later

module _ {B : Type 0} {root now : Root B} (since : Since root now) where
  pub Since-kept :
      (later : Root B)
      → later.collections ≡ now.collections
      → later.made ≡ now.made
      → Since root later
  Since-kept later same made = record {
    onward = omega (arith, since.onward, made);
    kept = λ c pk entry holds. since.kept c pk entry (sym (entry-kept now later same c pk) ∙ holds);
    fresh = IsFresh-kept now later same made since.fresh;
  }

  pub Since-open_at : (n : Text) → Since root (open_at n now).1
  unfolding open_at
  Since-open_at n = record {
    onward = since.onward;
    kept = λ c pk entry holds.
        since.kept c pk entry (ap (lookup pk) (sym (entry-open_at now n c)) ∙ holds);
    fresh = λ c pk entry holds.
        since.fresh c pk entry (ap (lookup pk) (sym (entry-open_at now n c)) ∙ holds);
  }

  pub Since-pop_at : (n pk : Text) → Since root (pop_at n pk now).1
  unfolding pop_at
  Since-pop_at n pk = record {
    onward = since.onward;
    kept = λ c other entry holds. since.kept c other entry (left c other entry holds);
    fresh = λ c other entry holds. since.fresh c other entry (left c other entry holds);
  }
    where
      left :
          (c other : Text) (entry : Entry B)
          → lookup other (bucket_at (pop_at n pk now).1 c) ≡ some entry
          → lookup other (bucket_at now c) ≡ some entry
      left c other entry holds = ground (arith, entry-pop_at now n pk c other, holds)

  pub Since-store_at :
      (n pk : Text) (entry : Entry B) (later : Root B)
      → later.collections ≡ now.collections
      → entry.number ≡ now.made
      → later.made ≡ suc now.made
      → Since root (store_at n pk entry later).1
  unfolding store_at
  Since-store_at n pk entry later same number made = record {
    onward = omega (arith, since.onward, made);
    kept = λ c other found holds young. ground (
      arith,
      entry-store_at later n pk entry c other,
      entry-kept now later same c other,
      number,
      since.onward,
      holds,
      young,
      since.kept c other found,
    );
    fresh = store_at-IsFresh now later same n pk entry since.fresh number made;
  }

  pub Since-continue :
      {A C : Type 0} (r : Result A) (f : A → Exec (Root B) C)
      → ((a : A) → Since root (f a now).1)
      → Since root (continue r f now).1
  Since-continue (ok a) f step = step a
  Since-continue (raise exn) f step = since
