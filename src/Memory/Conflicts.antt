-- ===== src/Memory/Conflicts.antt =====
-- Conditional writes of src/kvtsjl/backends/memory.py: one is made exactly where the entry is still
-- the one that it was decided from.
use kvtsjl.Prelude.{
  ℕ, suc, Eq, ◌<◌, ◌≢◌, ◌⊎◌, inl, inr, Bool-cases, arith, ◌≡◌, refl, sym, ap, ◌∙◌, true, false,
  Option, none, some, if◌then◌else◌, nat_eq,
}
use kvtsjl.Prelude.Dict.{lookup}
use kvtsjl.Errors.{Result, ok, bind-ok, ok-injective}
use kvtsjl.Exec.{continue-lift}
use kvtsjl.Ttl.{TtlPolicy}
use kvtsjl.KeyMap.{Versioned, ConditionalWrite}
use kvtsjl.Keys.Text.{Text, text_eq}
use kvtsjl.Memory.{
  Entry, Root, Backend, bucket_at, expired, expired_at, read_blob, name, physical_key,
}
use kvtsjl.Memory.Versions.{is_version, version_of, read_version, write_one, make}
use kvtsjl.Memory.Fresh.{
  IsFresh, number_of, is_version-same, is_version-other, some-injective, entry-kept, IsFresh-kept,
}
use kvtsjl.Memory.Steps.{Since}
use kvtsjl.Memory.Evolves.{Evolves, Evolves-Since}

none-number : {B : Type 0} (found : Option (Entry B)) → none ≡ number_of found → none ≡ found
none-number none same = refl
none-number (some entry) same = absurd cc

young_number :
    {B : Type 0} (root : Root B) (collection pk : Text) (number : ℕ) (found : Option (Entry B))
    → IsFresh root
    → lookup pk (bucket_at root collection) ≡ found
    → some number ≡ number_of found
    → number < root.made
young_number root collection pk number none fresh held same = absurd cc
young_number root collection pk number (some entry) fresh held same =
    omega (arith, fresh collection pk entry held, some-injective same)

module _ (clock : ℕ → ℕ) {K V B : Type 0} ⦃e : Eq K⦄ (backend : Backend K V B) where
  version_of-lem :
      (found : Option (Entry B)) (root later : Root B) (seen : Versioned V ℕ)
      → version_of clock backend found root ≡ (ok seen, later)
      → (seen.version ≡ number_of found)
        × (later.collections ≡ root.collections)
        × (later.made ≡ root.made)
  unfolding expired
  version_of-lem none root later seen p = (
    ap (λ v. v.version) (sym (ok-injective (ap (λ r. r.0) p))),
    ap (λ r. r.1.collections) (sym p),
    ap (λ r. r.1.made) (sym p),
  )
  version_of-lem (some entry) root later seen p =
      let r =
        read_blob clock backend
          (if expired_at entry (clock root.ticks) then none else some entry) in
      let g : Option V → Result (Versioned V ℕ) =
        λ value. ok (record { value = value; version = some entry.number }) in
      let q = sym (continue-lift r g (record root { ticks = suc root.ticks })) ∙ p in
      let b = bind-ok r g seen (ap (λ r. r.0) q) in
      (
        ap (λ v. v.version) (sym (ok-injective b.2)),
        ap (λ r. r.1.collections) (sym q),
        ap (λ r. r.1.made) (sym q),
      )

  module _ (key : K) (pk : Text) (composed : physical_key clock backend key ≡ ok pk) where
    read_version-lem :
        (root later : Root B) (seen : Versioned V ℕ)
        → read_version clock backend key root ≡ (ok seen, later)
        → (seen.version ≡ number_of (lookup pk (bucket_at root (name clock backend))))
          × (later.collections ≡ root.collections)
          × (later.made ≡ root.made)
    unfolding read_version
    read_version-lem root later seen p =
        version_of-lem (lookup pk (bucket_at root (name clock backend))) root later seen
          (sym (rw composed) ∙ p)

    -- A number that is not the entry's is turned down.
    write_one-other :
        (w : ConditionalWrite V ℕ) (ttl : Option TtlPolicy) (root : Root B)
        → is_version (lookup pk (bucket_at root (name clock backend))) w.seen.version ≡ false
        → write_one clock backend key w ttl root ≡ (ok false, root)
    unfolding write_one
    write_one-other w ttl root other = rw (composed, other)

    write_one-same :
        (w : ConditionalWrite V ℕ) (ttl : Option TtlPolicy) (root : Root B)
        → is_version (lookup pk (bucket_at root (name clock backend))) w.seen.version ≡ true
        → write_one clock backend key w ttl root ≡ make clock backend key pk w w.change ttl root
    unfolding write_one
    write_one-same w ttl root same = rw (composed, same)

    -- An entry with the number that was read is the entry that was read.
    same_entry :
        (root later : Root B) (found : Option (Entry B))
        → IsFresh root
        → Since root later
        → lookup pk (bucket_at later (name clock backend)) ≡ found
        → number_of found ≡ number_of (lookup pk (bucket_at root (name clock backend)))
        → found ≡ lookup pk (bucket_at root (name clock backend))
    same_entry root later none fresh since held number =
        none-number (lookup pk (bucket_at root (name clock backend))) number
    same_entry root later (some entry) fresh since held number = sym (
        since.kept (name clock backend) pk entry held
          (young_number root (name clock backend) pk entry.number _ fresh refl number))

    -- Where no entry has a number that is still to be given, and others have read, written, deleted
    -- and conditionally written through any backends over the same collections, in whatever order,
    -- since an entry was read:
    -- a conditional write against what was read is made exactly where the key still has the entry
    -- (or the absence) that was read; elsewhere it is turned down and changes nothing; and still no
    -- entry has a number that is to be given.
    pub write_one-read_version :
        (root before later : Root B) (w : ConditionalWrite V ℕ) (ttl : Option TtlPolicy)
        → IsFresh root
        → read_version clock backend key root ≡ (ok w.seen, before)
        → Evolves clock before later
        → (((number_of (lookup pk (bucket_at later (name clock backend))) ≡ w.seen.version)
              × (lookup pk (bucket_at later (name clock backend))
                  ≡ lookup pk (bucket_at root (name clock backend)))
              × (write_one clock backend key w ttl later
                  ≡ make clock backend key pk w w.change ttl later))
            ⊎ ((number_of (lookup pk (bucket_at later (name clock backend))) ≢ w.seen.version)
                × (write_one clock backend key w ttl later ≡ (ok false, later))))
          × IsFresh later
    write_one-read_version root before later w ttl fresh p evolved =
        let n = name clock backend in
        let (version, kept, made) = read_version-lem root before w.seen p in
        let since = Evolves-Since clock (IsFresh-kept root before kept made fresh) evolved in
        let unchanged = entry-kept root before kept n pk in
        (
          elim (Bool-cases (is_version (lookup pk (bucket_at later n)) w.seen.version)) [
            | inl same ↦
                let number = is_version-same (lookup pk (bucket_at later n)) w.seen.version same in
                inl (
                  number,
                  same_entry before later (lookup pk (bucket_at later n))
                        (IsFresh-kept root before kept made fresh) since refl
                        (number ∙ version ∙ ap number_of (sym unchanged))
                      ∙ unchanged,
                  write_one-same w ttl later same,
                )
            | inr other ↦ inr (
              is_version-other (lookup pk (bucket_at later n)) w.seen.version other,
              write_one-other w ttl later other,
            )
          ],
          since.fresh,
        )
