-- ===== src/Memory/View.antt =====
-- The memory backend of src/kvtsjl/backends/memory.py as a map that forgets: what it holds for a
-- key at an instant, and what its operations do to that. An entry that has expired is held no
-- longer, whether or not it is deleted.
use kvtsjl.Prelude.{
  ℕ, suc, ◌≤◌, ◌≡◌, refl, sym, ap, ◌∙◌, true, ◌==◌, Option, none, some, is_some, if◌then◌else◌,
  arith, nat_eq,
}
use kvtsjl.Prelude.Dict.{lookup, insert, erase, lookup-insert, lookup-erase}
use kvtsjl.Errors.{Result, ok, raise, ◌>>=◌ as chain}
use kvtsjl.Exec.{continue-lift}
use kvtsjl.Serde.{deserialize}
use kvtsjl.Keys.Text.{Text, text_eq}
use kvtsjl.Memory.{
  Entry, Root, Backend, Bucket, bucket_at, expired_at, pop_at, store_at, open_at, expired, name,
  physical_key, collect, read_blob, live, live_entry, get, exists,
}

module _ {B : Type 0} where
  -- What a collection holds for a key at an instant.
  abbrev pub held : Option (Entry B) → ℕ → Option B
  held none at = none
  held (some entry) at = if expired_at entry at then none else some entry.value_blob

  abbrev pub view : Root B → Text → Text → ℕ → Option B
  view root name pk at = held (lookup pk (bucket_at root name)) at

  bucket_at-insert :
      (root : Root B) (name other : Text) (bucket : Bucket B)
      → bucket_at (record root { collections = insert name bucket root.collections }) other
        ≡ (if other == name then bucket else bucket_at root other)
  bucket_at-insert root name other bucket =
      ground (arith, lookup-insert other name bucket root.collections)

  pub entry-open_at :
      (root : Root B) (name other : Text)
      → bucket_at (open_at name root).1 other ≡ bucket_at root other
  unfolding open_at
  entry-open_at root name other =
      ground (arith, bucket_at-insert root name other (bucket_at root name))

  pub entry-pop_at :
      (root : Root B) (name pk other_name other : Text)
      → lookup other (bucket_at (pop_at name pk root).1 other_name) ≡ (
          if other_name == name
          then (if other == pk then none else lookup other (bucket_at root other_name))
          else lookup other (bucket_at root other_name))
  unfolding pop_at
  entry-pop_at root name pk other_name other = ground (
    arith,
    bucket_at-insert root name other_name (erase pk (bucket_at root name)),
    lookup-erase other pk (bucket_at root name),
  )

  pub view-pop_at :
      (root : Root B) (name pk other_name other : Text) (at : ℕ)
      → view (pop_at name pk root).1 other_name other at ≡ (
          if other_name == name
          then (if other == pk then none else view root other_name other at)
          else view root other_name other at)
  unfolding pop_at
  view-pop_at root name pk other_name other at = ground (
    arith,
    bucket_at-insert root name other_name (erase pk (bucket_at root name)),
    lookup-erase other pk (bucket_at root name),
  )

  pub entry-store_at :
      (root : Root B) (name pk : Text) (entry : Entry B) (other_name other : Text)
      → lookup other (bucket_at (store_at name pk entry root).1 other_name) ≡ (
          if other_name == name
          then (if other == pk then some entry else lookup other (bucket_at root other_name))
          else lookup other (bucket_at root other_name))
  unfolding store_at
  entry-store_at root name pk entry other_name other = ground (
    arith,
    bucket_at-insert root name other_name (insert pk entry (bucket_at root name)),
    lookup-insert other pk entry (bucket_at root name),
  )

  expired_at-later :
      (entry : Entry B) (now at : ℕ)
      → expired_at entry now ≡ true
      → now ≤ at
      → expired_at entry at ≡ true
  expired_at-later entry now at dead later = ground (arith, dead, later)

  -- What is left of an entry that a read finds at an instant.
  abbrev pub live_at : Option (Entry B) → ℕ → Option (Entry B)
  live_at none at = none
  live_at (some entry) at = if expired_at entry at then none else some entry

module _ (clock : ℕ → ℕ) {K V B : Type 0} (backend : Backend K V B) where
  live-result :
      (pk : Text) (found : Option (Entry B)) (root : Root B)
      → (live clock backend pk found root).0 ≡ ok (live_at found (clock root.ticks))
  unfolding expired collect
  live-result pk none root = refl
  live-result pk (some entry) root = ground arith

  live-view :
      (pk : Text) (found : Option (Entry B)) (root : Root B) (other_name other : Text) (at : ℕ)
      → found ≡ lookup pk (bucket_at root (name clock backend))
      → clock root.ticks ≤ at
      → view (live clock backend pk found root).1 other_name other at
        ≡ view root other_name other at
  unfolding expired collect
  live-view pk none root other_name other at held later = refl
  live-view pk (some entry) root other_name other at held later = ground (
    arith,
    expired_at-later entry (clock root.ticks) at,
    held,
    view-pop_at (record root { ticks = suc root.ticks }) (name clock backend) pk other_name other
        at,
  )

  abbrev pub read_view : Option B → Result (Option V)
  read_view none = ok none
  read_view (some blob) = elim (deserialize backend.value_serde blob) [
    | ok value ↦ ok (some value)
    | raise exn ↦ raise exn
  ]

  read_blob-live_at :
      (found : Option (Entry B)) (at : ℕ)
      → read_blob clock backend (live_at found at) ≡ read_view (held found at)
  read_blob-live_at none at = refl
  read_blob-live_at (some entry) at = ground arith

  is_some-live_at :
      (found : Option (Entry B)) (at : ℕ) → is_some (live_at found at) ≡ is_some (held found at)
  is_some-live_at none at = refl
  is_some-live_at (some entry) at = ground arith

  module _ (key : K) (pk : Text) (composed : physical_key clock backend key ≡ ok pk) where
    live_entry-live :
        (root : Root B)
        → live_entry clock backend key root
          ≡ live clock backend pk
              (lookup pk (bucket_at root (name clock backend)))
              (open_at (name clock backend) root).1
    unfolding live_entry
    live_entry-live root = rw composed

    live_entry-result :
        (root : Root B)
        → (live_entry clock backend key root).0
          ≡ ok (live_at (lookup pk (bucket_at root (name clock backend))) (clock root.ticks))
    unfolding open_at
    live_entry-result root =
        ap (λ r. r.0) (live_entry-live root)
        ∙ live-result pk (lookup pk (bucket_at root (name clock backend)))
            (open_at (name clock backend) root).1

    live_entry-view :
        (root : Root B) (other_name other : Text) (at : ℕ)
        → clock root.ticks ≤ at
        → view (live_entry clock backend key root).1 other_name other at
          ≡ view root other_name other at
    unfolding open_at
    live_entry-view root other_name other at later =
        ap (λ r. view r.1 other_name other at) (live_entry-live root)
        ∙ live-view pk (lookup pk (bucket_at root (name clock backend)))
            (open_at (name clock backend) root).1 other_name other at
            (ap (lookup pk) (sym (entry-open_at root (name clock backend) (name clock backend))))
            later
        ∙ ap (λ bucket. held (lookup other bucket) at)
            (entry-open_at root (name clock backend) other_name)

    -- What a read answers, and what it leaves of what the collections hold.
    pub get-view :
        (root : Root B)
        → ((get clock backend key root).0
            ≡ read_view (view root (name clock backend) pk (clock root.ticks)))
          × ((exists clock backend key root).0
              ≡ ok (is_some (view root (name clock backend) pk (clock root.ticks))))
          × ((other_name other : Text) (at : ℕ)
              → clock root.ticks ≤ at
              → view (get clock backend key root).1 other_name other at
                ≡ view root other_name other at)
          × ((other_name other : Text) (at : ℕ)
              → clock root.ticks ≤ at
              → view (exists clock backend key root).1 other_name other at
                ≡ view root other_name other at)
    unfolding get exists
    get-view root =
        let reads =
          continue-lift (live_entry clock backend key root).0 (read_blob clock backend)
            (live_entry clock backend key root).1 in
        let asks =
          continue-lift (live_entry clock backend key root).0 (λ entry. ok (is_some entry))
            (live_entry clock backend key root).1 in
        let found = lookup pk (bucket_at root (name clock backend)) in
        (
          ap (λ r. r.0) reads
              ∙ ap (λ r. chain r (read_blob clock backend)) (live_entry-result root)
              ∙ read_blob-live_at found (clock root.ticks),
          ap (λ r. r.0) asks
              ∙ ap (λ r. chain r (λ entry. ok (is_some entry))) (live_entry-result root)
              ∙ ap ok (is_some-live_at found (clock root.ticks)),
          (λ other_name other at later.
              ap (λ r. view r.1 other_name other at) reads
              ∙ live_entry-view root other_name other at later),
          (λ other_name other at later.
              ap (λ r. view r.1 other_name other at) asks
              ∙ live_entry-view root other_name other at later),
        )
