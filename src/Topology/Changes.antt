-- ===== src/Topology/Changes.antt =====
-- What the conditional writes of `Topology` in src/kvtsjl/keymap_algebra/topology.py compute from
-- their writes: which puts change a part, and the groups of one write clock.
use kvtsjl.Prelude.{
  ℕ, Bool, true, false, not, ◌||◌, Option, none, some, is_none, is_some, List, [], ◌∷◌, Eq, ◌==◌,
  if◌then◌else◌, nat_eq, contains,
}
use kvtsjl.Prelude.Dict.{Dict, keys, lookup, insert}
use kvtsjl.Errors.{key_error, Result, ok, raise}
use kvtsjl.Exec.{Exec, ◌>>=◌}
use kvtsjl.KeyMap.{Versioned, put, remove, ConditionalWrite}
use kvtsjl.Topology.Target.{Target}
use kvtsjl.Topology.Fill.{update_dict, missing_from}

module _ {V Ver : Type 0} where
  -- The condition of `_changed`.
  unfoldable pub is_changed : (V → V → Bool) → V → ConditionalWrite V Ver → Bool
  is_changed same v w = elim w.seen.value [
    | none ↦ true
    | some before ↦ is_none w.seen.version || not (same before v)
  ]

-- `==` of two clocks
abbrev pub same_clock : Option ℕ → Option ℕ → Bool
same_clock none none = true
same_clock (some a) (some b) = a == b
same_clock _ _ = false

module _ {K V Ver : Type 0} where
  -- `{k: v.value for k, v in seen.items() if v.value is not None}`
  unfoldable pub values_of : Dict K (Versioned V Ver) → Dict K V
  values_of [] = []
  values_of ((k, v) ∷ seen) =
      let rest = values_of seen in elim v.value [ none ↦ rest | some x ↦ (k, x) ∷ rest ]

  -- `{k: w.change.value for k, w in writes.items() if isinstance(w.change, Put)}`
  unfoldable pub puts_of : Dict K (ConditionalWrite V Ver) → Dict K V
  puts_of [] = []
  puts_of ((k, w) ∷ writes) =
      let rest = puts_of writes in elim w.change [ remove ↦ rest | put v ↦ (k, v) ∷ rest ]

module _ {K : Type 0} ⦃e : Eq K⦄ where
  -- `{k: Versioned(records.get(k), seen[k].version) for k in unique}`
  unfoldable pub versioned :
      {V P Ver : Type 0}
      → Dict K V
      → Dict K (Versioned P Ver)
      → List K
      → Result (Dict K (Versioned V Ver))
  versioned records seen [] = ok []
  versioned records seen (k ∷ ks) = elim (lookup k seen) [
    | none ↦ raise key_error
    | some s ↦ elim (versioned records seen ks) [
      | raise exn ↦ raise exn
      | ok rest ↦ ok ((k, record { value = lookup k records; version = s.version }) ∷ rest)
    ]
  ]

  -- The loop over the fallbacks of `batch_read_versioned`.
  unfoldable pub read_fallbacks :
      {W V Ver : Type 0} → List (Target W K V V Ver) → List K → Dict K V → Exec W (Dict K V)
  unfolding update_dict missing_from
  read_fallbacks [] unique values w = (ok values, w)
  read_fallbacks (t ∷ ts) unique values w = elim (missing_from unique (keys values)) [
    | [] ↦ (ok values, w)
    | k ∷ missing ↦
        (t.batch_read (k ∷ missing) >>= λ hits. read_fallbacks ts unique (update_dict values hits))
          w
  ]

  -- `{k: v for k, v in puts.items() if k in written}`
  unfoldable pub kept_in : {V : Type 0} → List K → Dict K V → Dict K V
  kept_in written [] = []
  kept_in written ((k, v) ∷ puts) =
      let rest = kept_in written puts in if contains written k then (k, v) ∷ rest else rest

  -- `groups.setdefault(clock, {})[k] = v`
  unfoldable pub group :
      {V : Type 0} → Option ℕ → K → V → List (Option ℕ × Dict K V) → List (Option ℕ × Dict K V)
  group clock k v [] = (clock, (k, v) ∷ []) ∷ []
  group clock k v ((c, items) ∷ groups) =
      if same_clock clock c
      then (c, insert k v items) ∷ groups
      else (c, items) ∷ group clock k v groups

  module _ {V Ver : Type 0} where
    -- `_changed`
    unfoldable pub changed :
        (V → V → Bool) → Dict K V → Dict K (ConditionalWrite V Ver) → Result (Dict K V)
    unfolding is_changed
    changed same [] writes = ok []
    changed same ((k, v) ∷ puts) writes = elim (lookup k writes) [
      | none ↦ raise key_error
      | some w ↦ elim (changed same puts writes) [
        | raise exn ↦ raise exn
        | ok rest ↦ ok (if is_changed same v w then (k, v) ∷ rest else rest)
      ]
    ]

    -- The loop of `_by_clock`.
    unfoldable pub group_all :
        Dict K V
        → Dict K (ConditionalWrite V Ver)
        → List (Option ℕ × Dict K V)
        → Result (List (Option ℕ × Dict K V))
    unfolding group
    group_all [] writes groups = ok groups
    group_all ((k, v) ∷ values) writes groups = elim (lookup k writes) [
      | none ↦ raise key_error
      | some w ↦ group_all values writes (group w.created_at k v groups)
    ]

    -- `_by_clock`
    unfoldable pub by_clock :
        Dict K V → Dict K (ConditionalWrite V Ver) → Result (List (Option ℕ × Dict K V))
    unfolding group_all
    by_clock values writes = group_all values writes []

    -- Whether one of these is written against a version.
    unfoldable pub against_version : Dict K V → Dict K (ConditionalWrite V Ver) → Result Bool
    against_version [] writes = ok false
    against_version ((k, v) ∷ puts) writes = elim (lookup k writes) [
      | none ↦ raise key_error
      | some w ↦ if is_some w.seen.version then ok true else against_version puts writes
    ]
