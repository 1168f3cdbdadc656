-- ===== src/Topology/Example.antt =====
-- An example for the tests of src/kvtsjl/keymap_algebra/topology.py: a record kept in a store, the authority,
-- with a copy in a second store, its dependent.
use kvtsjl.Prelude.{
  ℕ, zero, suc, String, Bool, true, false, Option, none, some, is_some, List, [], ◌∷◌, nat_eq,
}
use kvtsjl.Prelude.Dict.{Dict, keys, lookup}
use kvtsjl.Errors.{failed, ok, raise}
use kvtsjl.Exec.{pure}
use kvtsjl.DictMap.{DictMap, empty, set, delete as delete_entry, read_versions, write_each}
use kvtsjl.Topology.Target.{
  Role, authority, dependent, Lookup, before_authority, required, WriteOptions, Target,
}
use kvtsjl.Topology.Sync.{Node}
use kvtsjl.Topology.Shape.{Topology}

-- The two stores.
abbrev pub Stores : Type 0
Stores = DictMap ℕ ℕ × DictMap ℕ ℕ

abbrev pub store : ℕ → Stores → DictMap ℕ ℕ
store zero w = w.0
store (suc i) w = w.1

abbrev pub change : ℕ → DictMap ℕ ℕ → Stores → Stores
change zero m w = (m, w.1)
change (suc i) m w = (w.0, m)

abbrev pub set_each : Dict ℕ ℕ → DictMap ℕ ℕ → DictMap ℕ ℕ
set_each [] m = m
set_each ((k, v) ∷ items) m = set_each items (set k v m)

abbrev pub values : List ℕ → DictMap ℕ ℕ → Dict ℕ ℕ
values [] m = []
values (k ∷ ks) m =
    let rest = values ks m in elim (lookup k m.entries) [ none ↦ rest | some v ↦ (k, v) ∷ rest ]

-- A store as a target.
abbrev pub target : ℕ → String → Role → Option Lookup → Bool → Target Stores ℕ ℕ ℕ ℕ
target i name role lookup_at fill = record {
  ident = i;
  name = name;
  role = role;
  lookup = lookup_at;
  fill = fill;
  policy = required;
  write = λ k v o w. (ok tt, change i (set k v (store i w)) w);
  batch_write = λ items o w. (ok tt, change i (set_each items (store i w)) w);
  batch_read_versioned = λ ks w. (read_versions (store i w) ks, w);
  batch_write_if_unchanged =
      λ ws o w. let r = write_each ws (store i w) in (ok r.0, change i r.1 w);
  holds_same = λ a b. false;
  delete = λ k w. let r = delete_entry k (store i w) in (ok r.0, change i r.1 w);
  batch_delete = λ ks. pure 0;
  unset = λ k. pure false;
  batch_unset = λ ks. pure 0;
  read = λ k w. (ok (lookup k (store i w).entries), w);
  batch_read = λ ks w. (ok (values ks (store i w)), w);
  exists = λ k w. (ok (is_some (lookup k (store i w).entries)), w);
  batch_exists = λ ks w. (ok (keys (values ks (store i w))), w);
  stat = λ k. pure none;
  batch_stat = λ ks. pure [];
  gc = λ m. pure [];
  supports_write_clock = false;
  expires = false;
  writes_are_deferred = false;
  creates_entries = true;
}

abbrev pub db : Target Stores ℕ ℕ ℕ ℕ
db = target 0 "db" authority none false

abbrev pub cache : Target Stores ℕ ℕ ℕ ℕ
cache = target 1 "cache" dependent (some before_authority) true

abbrev pub of_targets : List (Target Stores ℕ ℕ ℕ ℕ) → Topology Stores ℕ ℕ ℕ ℕ
of_targets ts = record { targets = ts; parts = []; assemble = none; up = λ v. v }

abbrev pub cached : Topology Stores ℕ ℕ ℕ ℕ
cached = of_targets (db ∷ cache ∷ [])

abbrev pub no_options : WriteOptions
no_options = record { ttl = none; created_at = none }

abbrev pub start : Node Stores
start = record { media = (empty, empty); queue = [] }

-- A write that its medium refuses, after it has counted it.
abbrev pub broken : Target Stores ℕ ℕ ℕ ℕ → Target Stores ℕ ℕ ℕ ℕ
broken t = record t { write = λ k v o w. (raise (failed 1), w) }
