-- ===== src/DictMap.antt =====
-- src/kvtsjl/keymap_algebra/dict_map.py: the in-memory map, whose versions number its writes.
pub mod Steps
pub mod Contended
pub mod Linear
pub mod Live
mod Tests
use kvtsjl.Prelude.{
  ℕ, zero, suc, ◌+◌, Bool, true, false, not, Option, none, some, is_none, is_some, List, [], ◌∷◌,
  ◌++◌, Eq, ◌==◌, nat_eq, if◌then◌else◌,
}
use kvtsjl.Prelude.Dict.{Dict, keys, lookup, insert, erase, dedup}
use kvtsjl.Errors.{key_error, Result, ok, raise}
use kvtsjl.Exec.{Exec, pure}
use kvtsjl.Ttl.{TtlPolicy}
use kvtsjl.KeyMap.{Versioned, absent, Change, put, remove, ConditionalWrite, Conditional, item}

-- `next_version` is the state of `itertools.count(1)`.
pub record DictMap (K V : Type 0) : Type 0 where
  pub entries : Dict K V
  pub version : Dict K ℕ
  pub next_version : ℕ

-- `!=` of two optional version numbers, negated.
abbrev pub same_version : Option ℕ → Option ℕ → Bool
same_version none none = true
same_version (some a) (some b) = a == b
same_version _ _ = false

module _ {K : Type 0} ⦃e : Eq K⦄ where
  -- The next number for each of the keys in turn.
  unfoldable pub number : List K → Dict K ℕ → ℕ → Dict K ℕ × ℕ
  number [] version next = (version, next)
  number (k ∷ ks) version next = number ks (insert k next version) (suc next)

module _ {K V : Type 0} ⦃e : Eq K⦄ where
  -- `__init__` without items
  abbrev pub empty : DictMap K V
  empty = record { entries = []; version = []; next_version = 1 }

  abbrev pub get : DictMap K V → K → Option V
  get m key = lookup key m.entries

  unfoldable pub set : K → V → DictMap K V → DictMap K V
  set key value m = record {
    entries = insert key value m.entries;
    version = insert key m.next_version m.version;
    next_version = suc m.next_version;
  }

  unfoldable pub delete : K → DictMap K V → Bool × DictMap K V
  delete key m =
      if is_none (lookup key m.entries)
      then (false, m)
      else (true, record m { entries = erase key m.entries; version = erase key m.version })

  -- `dict(items)`
  unfoldable pub collect : List (K × V) → Dict K V → Dict K V
  collect [] d = d
  collect ((k, v) ∷ pairs) d = collect pairs (insert k v d)

  unfoldable pub from_pairs : List (K × V) → DictMap K V
  unfolding number collect
  from_pairs pairs =
      let entries = collect pairs [] in
      let (version, next) = number (keys entries) [] 1 in
      record { entries = entries; version = version; next_version = next }

  -- One entry of `batch_read_versioned`.
  unfoldable pub read_version : DictMap K V → K → Result (Versioned V ℕ)
  read_version m k = elim (lookup k m.version) [
    | none ↦ ok absent
    | some n ↦ elim (lookup k m.entries) [
      | none ↦ raise key_error
      | some v ↦ ok (record { value = some v; version = some n })
    ]
  ]

  unfoldable pub read_versions : DictMap K V → List K → Result (Dict K (Versioned V ℕ))
  unfolding read_version
  read_versions m [] = ok []
  read_versions m (k ∷ ks) = elim (read_version m k) [
    | raise exn ↦ raise exn
    | ok v ↦ elim (read_versions m ks) [ raise exn ↦ raise exn | ok rest ↦ ok ((k, v) ∷ rest) ]
  ]

  abbrev pub batch_read_versioned : List K → Exec (DictMap K V) (Dict K (Versioned V ℕ))
  batch_read_versioned ks m = (read_versions m (dedup ks), m)

  -- A change, made: whether the key counts as written, and the map after it.
  abbrev pub make : K → Change V → DictMap K V → Bool × DictMap K V
  make key remove m = delete key m
  make key (put v) m = (true, set key v m)

  -- One write of `batch_write_if_unchanged`.
  unfoldable pub write_one : K → ConditionalWrite V ℕ → DictMap K V → Bool × DictMap K V
  write_one key w m =
      if same_version (lookup key m.version) w.seen.version then make key w.change m else (false, m)

  unfoldable pub write_each : Dict K (ConditionalWrite V ℕ) → DictMap K V → List K × DictMap K V
  write_each [] m = ([], m)
  write_each ((key, w) ∷ writes) m =
      let (done, m') = write_one key w m in
      let (written, m'') = write_each writes m' in ((if done then key ∷ written else written), m'')

  abbrev pub batch_write_if_unchanged :
      Dict K (ConditionalWrite V ℕ) → Option TtlPolicy → Exec (DictMap K V) (List K)
  batch_write_if_unchanged writes ttl m =
      let (written, m') = write_each writes m in (ok written, m')

  -- The map as a medium that can be updated.
  abbrev pub conditional : Conditional (DictMap K V) K V ℕ
  conditional = record {
    batch_read_versioned = batch_read_versioned;
    batch_write_if_unchanged = batch_write_if_unchanged;
  }
