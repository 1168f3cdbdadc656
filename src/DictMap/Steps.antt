-- ===== src/DictMap/Steps.antt =====
-- Versions of src/kvtsjl/keymap_algebra/dict_map.py name writes: however others have changed the
-- map, an entry with the version that was read holds the value that was read.
use kvtsjl.Prelude.{
  ℕ, ◌≤◌, ◌<◌, ◌≡◌, ◌≢◌, refl, sym, ap, ◌∙◌, ◌⊎◌, inl, inr, Bool, Bool-cases, Option, none, true,
  false, some, is_some, Eq, arith, Option-cases, if◌then◌else◌,
}
use kvtsjl.Prelude.Dict.{lookup, lookup-insert, lookup-erase}
use kvtsjl.Errors.{ok, ok-injective}
use kvtsjl.KeyMap.{Change, ConditionalWrite, put, remove}
use kvtsjl.DictMap.{DictMap, set, delete, make, read_version, write_one, same_version}

pub same_version_lem : (a b : Option ℕ) → same_version a b ≡ true → a ≡ b
same_version_lem none none h = refl
same_version_lem (some a) (some b) h = ground (arith, h)
same_version_lem none (some b) h = absurd (ground arith)
same_version_lem (some a) none h = absurd (ground arith)

same_version_differs : (a b : Option ℕ) → same_version a b ≡ false → a ≢ b
same_version_differs none none h same = cc
same_version_differs (some a) (some b) h same = ground (arith, h, same)
same_version_differs none (some b) h same = cc
same_version_differs (some a) none h same = cc

module _ {K V : Type 0} ⦃e : Eq K⦄ where
  -- An entry has a version exactly where it has a value, and no version is in the future.
  pub record IsValid (m : DictMap K V) : Type 0 where
    pub paired : (k : K) → is_some (lookup k m.version) ≡ is_some (lookup k m.entries)
    pub past : (k : K) (n : ℕ) → lookup k m.version ≡ some n → n < m.next_version

  -- Any operation that changes the map.
  pub data Step : DictMap K V → DictMap K V → Type 0 where
    sets : (k : K) (v : V) (m : DictMap K V) → Step m (set k v m)
    deletes : (k : K) (m : DictMap K V) → Step m (delete k m).1
    writes : (k : K) (w : ConditionalWrite V ℕ) (m : DictMap K V) → Step m (write_one k w m).1

  pub data Evolves (m : DictMap K V) : DictMap K V → Type 0 where
    here : Evolves m m
    next : {n o : DictMap K V} → Evolves m n → Step n o → Evolves m o

  set-IsValid : (k : K) (v : V) {m : DictMap K V} → IsValid m → IsValid (set k v m)
  unfolding set
  set-IsValid k v {m} h = record {
    paired = λ j. ground (
      arith,
      h.paired j,
      lookup-insert j k v m.entries,
      lookup-insert j k m.next_version m.version,
    );
    past = λ j n p. ground (arith, h.past j n, lookup-insert j k m.next_version m.version);
  }

  delete-IsValid : (k : K) {m : DictMap K V} → IsValid m → IsValid (delete k m).1
  unfolding delete
  delete-IsValid k {m} h = record {
    paired =
        λ j. ground (arith, h.paired j, lookup-erase j k m.entries, lookup-erase j k m.version);
    past = λ j n p. ground (arith, h.past j n, lookup-erase j k m.version);
  }

  -- What holds of the map, of a write and of a deletion holds of a conditional write.
  write_one_cases :
      (P : DictMap K V → Type 0) (k : K) (w : ConditionalWrite V ℕ) (m : DictMap K V)
      → P m
      → ((v : V) → P (set k v m))
      → P (delete k m).1
      → P (write_one k w m).1
  unfolding write_one
  write_one_cases P k w m same on_set on_delete =
      go (same_version (lookup k m.version) w.seen.version) w.change
    where
      go : (b : Bool) (c : Change V) → P (if b then make k c m else (false, m)).1
      go true (put v) = on_set v
      go true remove = on_delete
      go false c = same

  Step-IsValid : {m n : DictMap K V} → Step m n → IsValid m → IsValid n
  Step-IsValid (sets k v m) h = set-IsValid k v h
  Step-IsValid (deletes k m) h = delete-IsValid k h
  Step-IsValid (writes k w m) h =
      write_one_cases IsValid k w m h (λ v. set-IsValid k v h) (delete-IsValid k h)

  pub Evolves-IsValid : {m n : DictMap K V} → Evolves m n → IsValid m → IsValid n
  Evolves-IsValid here h = h
  Evolves-IsValid (next r s) h = Step-IsValid s (Evolves-IsValid r h)

  -- What is as old as `m` in `n` is as it was in `m`.
  record Since (m n : DictMap K V) : Type 0 where
    later : m.next_version ≤ n.next_version
    kept :
        (k : K) (i : ℕ)
        → lookup k n.version ≡ some i
        → i < m.next_version
        → (lookup k m.version ≡ some i) × (lookup k n.entries ≡ lookup k m.entries)

  set-Since : (k : K) (v : V) {m n : DictMap K V} → Since m n → Since m (set k v n)
  unfolding set
  set-Since k v {m} {n} h = record {
    later = omega (arith, h.later);
    kept = λ j i p q. ground (
      arith,
      h.later,
      h.kept j i,
      lookup-insert j k v n.entries,
      lookup-insert j k n.next_version n.version,
    );
  }

  delete-Since : (k : K) {m n : DictMap K V} → Since m n → Since m (delete k n).1
  unfolding delete
  delete-Since k {m} {n} h = record {
    later = ground (arith, h.later);
    kept = λ j i p q.
        ground (arith, h.kept j i, lookup-erase j k n.entries, lookup-erase j k n.version);
  }

  Evolves-Since : {m n : DictMap K V} → Evolves m n → Since m n
  Evolves-Since here = record { later = omega arith; kept = λ k i p q. (p, refl) }
  Evolves-Since (next r (sets k v n)) = set-Since k v (Evolves-Since r)
  Evolves-Since (next r (deletes k n)) = delete-Since k (Evolves-Since r)
  Evolves-Since {m} (next r (writes k w n)) =
      let h = Evolves-Since r in
      write_one_cases (Since m) k w n h (λ v. set-Since k v h) (delete-Since k h)

  -- Whatever sequence of writes, deletions and conditional writes has changed a valid map, an
  -- entry whose version (or absence) is what it was holds the value (or the absence) that it held.
  pub version-names_value :
      {m n : DictMap K V} (k : K)
      → IsValid m
      → Evolves m n
      → lookup k n.version ≡ lookup k m.version
      → lookup k n.entries ≡ lookup k m.entries
  version-names_value {m} {n} k h r same =
      let h' = Evolves-IsValid r h in
      let s = Evolves-Since r in
      elim (Option-cases (lookup k n.version)) [
        | inl gone ↦ ground (arith, h.paired k, h'.paired k)
        | inr (i, held) ↦ (s.kept k i held (h.past k i (ground arith))).1
      ]

  -- What a valid map answers for a key.
  pub read_version_lem :
      (m : DictMap K V) (k : K)
      → IsValid m
      → read_version m k ≡ ok (record { value = lookup k m.entries; version = lookup k m.version })
  unfolding read_version
  read_version_lem m k h = ground (arith, h.paired k)

  -- However a valid map has been changed since an entry was read: a conditional write against what
  -- was read is made exactly where the entry still has the version (or the absence) that was read,
  -- and then it holds the value (or the absence) that was read, so no value is overwritten that
  -- was not seen; elsewhere the write is turned down and changes nothing.
  pub write_one-Evolves :
      {m n : DictMap K V} (k : K) (w : ConditionalWrite V ℕ)
      → IsValid m
      → Evolves m n
      → read_version m k ≡ ok w.seen
      → ((lookup k n.version ≡ w.seen.version)
          × (lookup k n.entries ≡ w.seen.value)
          × (write_one k w n ≡ make k w.change n))
        ⊎ ((lookup k n.version ≢ w.seen.version) × (write_one k w n ≡ (false, n)))
  unfolding write_one
  write_one-Evolves {m} {n} k w h r p =
      let seen = ok-injective (sym (read_version_lem m k h) ∙ p) in
      elim (Bool-cases (same_version (lookup k n.version) w.seen.version)) [
        | inl same ↦
            let version = same_version_lem (lookup k n.version) w.seen.version same in
            inl (
              version,
              version-names_value k h r (version ∙ ap (λ s. s.version) (sym seen))
                  ∙ ap (λ s. s.value) seen,
              rw same,
            )
        | inr other ↦ inr (same_version_differs (lookup k n.version) w.seen.version other, rw other)
      ]
