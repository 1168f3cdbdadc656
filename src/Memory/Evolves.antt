-- ===== src/Memory/Evolves.antt =====
-- What others may do through backends of src/kvtsjl/backends/memory.py over the same collections
-- between a read and a conditional write: any sequence of reads, writes, deletions and conditional
-- writes.
use kvtsjl.Prelude.{
  ℕ, suc, refl, sym, subst, Bool, true, false, Option, none, some, is_some, Eq, nat_eq, arith,
  if◌then◌else◌,
}
use kvtsjl.Prelude.Dict.{lookup}
use kvtsjl.Errors.{ok}
use kvtsjl.Exec.{Exec, pure, lift, ◌>>=◌, ◌>>◌}
use kvtsjl.Ttl.{TtlPolicy, ExpiryGc, lazy_delete, hide, require_write_clock_supported}
use kvtsjl.KeyMap.{ConditionalWrite, Change, put, remove}
use kvtsjl.Serde.{serialize}
use kvtsjl.Keys.Text.{Text, text_eq}
use kvtsjl.Memory.{
  Entry, Root, Backend, bucket_at, pop_at, open_at, expired, expired_at, name, collect, live,
  live_entry, get, set, delete, store_entry, physical_key, read_blob,
}
use kvtsjl.Memory.Writes.{Stores, store_entry-Stores}
use kvtsjl.Memory.Versions.{write_one, make, is_version}
use kvtsjl.Memory.Fresh.{IsFresh}
use kvtsjl.Memory.Steps.{
  Since, Since-kept, Since-open_at, Since-pop_at, Since-store_at, Since-continue,
}

module _ (clock : ℕ → ℕ) {K V B : Type 0} ⦃e : Eq K⦄ (backend : Backend K V B) where
  module _ {root : Root B} where
    Since-collect :
        (now : Root B) (pk : Text) → Since root now → Since root (collect clock backend pk now).1
    unfolding collect
    Since-collect now pk since = go backend.expiry_gc
      where
        go :
            (gc : ExpiryGc)
            → Since root
                ((elim gc as (λ _. Exec (Root B) (Unit {0})) [
                  | lazy_delete ↦ pop_at (name clock backend) pk >>= λ _. pure tt
                  | hide ↦ pure tt
                ])
                  now).1
        go lazy_delete = Since-pop_at since (name clock backend) pk
        go hide = since

    Since-live :
        (now : Root B) (pk : Text) (found : Option (Entry B))
        → Since root now
        → Since root (live clock backend pk found now).1
    unfolding expired
    Since-live now pk none since = since
    Since-live now pk (some entry) since = go (expired_at entry (clock now.ticks))
      where
        ticked : Root B
        ticked = record now { ticks = suc now.ticks }

        read : Since root ticked
        read = Since-kept since ticked refl refl

        go :
            (dead : Bool)
            → Since root
                ((if dead then collect clock backend pk >> pure none else pure (some entry))
                  ticked).1
        go true =
            let swept = Since-collect ticked pk read in
            Since-continue swept (collect clock backend pk ticked).0 (λ _. pure none) (λ _. swept)
        go false = read

    Since-live_entry :
        (now : Root B) (key : K) → Since root now → Since root (live_entry clock backend key now).1
    unfolding live_entry open_at
    Since-live_entry now key since =
        Since-continue since (physical_key clock backend key)
          (λ pk.
            open_at (name clock backend) >>= λ bucket. live clock backend pk (lookup pk bucket))
          (λ pk.
            Since-live (open_at (name clock backend) now).1 pk
              (lookup pk (bucket_at now (name clock backend)))
              (Since-open_at since (name clock backend)))

    Since-get : (now : Root B) (key : K) → Since root now → Since root (get clock backend key now).1
    unfolding get
    Since-get now key since =
        let asked = Since-live_entry now key since in
        Since-continue asked (live_entry clock backend key now).0
          (λ entry. lift (read_blob clock backend entry)) (λ _. asked)

    Since-store_entry :
        (now : Root B) (pk : Text) (blob : B) (ttl : Option TtlPolicy) (created_at : Option ℕ)
        → Since root now
        → Since root (store_entry clock backend pk blob ttl created_at now).1
    unfolding Stores
    Since-store_entry now pk blob ttl created_at since =
        let (done, (entry, later, same, ends, number, kept, made, left)) =
          store_entry-Stores clock backend pk blob ttl created_at now in
        subst (Since root) (sym left)
          (Since-store_at since (name clock backend) pk entry later kept number made)

    Since-set :
        (now : Root B) (key : K) (value : V) (ttl : Option TtlPolicy) (created_at : Option ℕ)
        → Since root now
        → Since root (set clock backend key value ttl created_at now).1
    unfolding set
    Since-set now key value ttl created_at since =
        let store : Text → B → Exec (Root B) (Unit {0}) =
          λ pk blob. store_entry clock backend pk blob ttl created_at in
        let encode : Text → Exec (Root B) (Unit {0}) =
          λ pk. lift (serialize backend.value_serde value) >>= store pk in
        Since-continue since (require_write_clock_supported created_at true)
          (λ _. lift (physical_key clock backend key) >>= encode)
          (λ _. Since-continue since (physical_key clock backend key) encode (λ pk.
            Since-continue since (serialize backend.value_serde value) (store pk)
              (λ blob. Since-store_entry now pk blob ttl created_at since)))

    Since-delete :
        (now : Root B) (key : K) → Since root now → Since root (delete clock backend key now).1
    unfolding delete pop_at
    Since-delete now key since =
        Since-continue since (physical_key clock backend key)
          (λ pk. pop_at (name clock backend) pk >>= λ entry. pure (is_some entry))
          (λ pk. Since-pop_at since (name clock backend) pk)

    Since-make :
        (now : Root B) (key : K) (pk : Text) (w : ConditionalWrite V ℕ) (c : Change V)
        (ttl : Option TtlPolicy)
        → Since root now
        → Since root (make clock backend key pk w c ttl now).1
    unfolding pop_at
    Since-make now key pk w remove ttl since = Since-pop_at since (name clock backend) pk
    Since-make now key pk w (put value) ttl since =
        let stored = Since-set now key value ttl w.created_at since in
        Since-continue stored (set clock backend key value ttl w.created_at now).0 (λ _. pure true)
          (λ _. stored)

    Since-write_one :
        (now : Root B) (key : K) (w : ConditionalWrite V ℕ) (ttl : Option TtlPolicy)
        → Since root now
        → Since root (write_one clock backend key w ttl now).1
    unfolding write_one
    Since-write_one now key w ttl since =
        Since-continue since (physical_key clock backend key)
          (λ pk root.
            if is_version (lookup pk (bucket_at root (name clock backend))) w.seen.version
            then make clock backend key pk w w.change ttl root
            else (ok false, root))
          (λ pk. go pk (is_version (lookup pk (bucket_at now (name clock backend))) w.seen.version))
      where
        go :
            (pk : Text) (same : Bool)
            → Since root
                (if same then make clock backend key pk w w.change ttl now else (ok false, now)).1
        go pk true = Since-make now key pk w w.change ttl since
        go pk false = since

module _ (clock : ℕ → ℕ) {B : Type 0} where
  -- An operation of some backend over the same collections.
  pub data Step : Root B → Root B → Type 1 where
    reads :
        {K V : Type 0} ⦃e : Eq K⦄ (other : Backend K V B) (key : K) (root : Root B)
        → Step root (get clock other key root).1
    sets :
        {K V : Type 0} ⦃e : Eq K⦄ (other : Backend K V B) (key : K) (value : V)
        (ttl : Option TtlPolicy) (created_at : Option ℕ) (root : Root B)
        → Step root (set clock other key value ttl created_at root).1
    deletes :
        {K V : Type 0} ⦃e : Eq K⦄ (other : Backend K V B) (key : K) (root : Root B)
        → Step root (delete clock other key root).1
    writes :
        {K V : Type 0} ⦃e : Eq K⦄ (other : Backend K V B) (key : K) (w : ConditionalWrite V ℕ)
        (ttl : Option TtlPolicy) (root : Root B)
        → Step root (write_one clock other key w ttl root).1

  pub data Evolves (root : Root B) : Root B → Type 1 where
    here : Evolves root root
    next : {now later : Root B} → Evolves root now → Step now later → Evolves root later

  Step-Since : {root now later : Root B} → Step now later → Since root now → Since root later
  Step-Since (reads other key now) since = Since-get clock other now key since
  Step-Since (sets other key value ttl created_at now) since =
      Since-set clock other now key value ttl created_at since
  Step-Since (deletes other key now) since = Since-delete clock other now key since
  Step-Since (writes other key w ttl now) since = Since-write_one clock other now key w ttl since

  pub Evolves-Since : {root later : Root B} → IsFresh root → Evolves root later → Since root later
  Evolves-Since fresh here = record {
    onward = omega arith;
    kept = λ c pk entry holds young. holds;
    fresh = fresh;
  }
  Evolves-Since fresh (next r s) = Step-Since s (Evolves-Since fresh r)
