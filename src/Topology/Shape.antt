-- ===== src/Topology/Shape.antt =====
-- `Topology` of src/kvtsjl/keymap_algebra/topology.py: its targets by role, the checks of
-- `__post_init__`, and the orders that roles imply. `V` is the record; a part reads back an `O`,
-- Python's `object`, which every record is.
use kvtsjl.Prelude.{
  ℕ, ltb, Bool, true, false, not, ◌&&◌, Option, none, some, is_none, is_some, List, [], ◌∷◌, ◌++◌,
  map, any, all, filter, length, if◌then◌else◌, nat_eq,
}
use kvtsjl.Prelude.Dict.{Dict}
use kvtsjl.Errors.{value_error, unsupported, not_implemented, Result, ok, raise}
use kvtsjl.Exec.{pure, ◌>>=◌}
use kvtsjl.KeyMap.{Versioned}
use kvtsjl.Topology.Target.{
  Role, component, authority, dependent, fallback, is_role, Lookup, before_authority,
  after_authority, never, Target,
}

module _ {P Q : Type 0} (up : P → Q) where
  abbrev pub up_option : Option P → Option Q
  up_option none = none
  up_option (some p) = some (up p)

  abbrev pub up_dict : {K : Type 0} → Dict K P → Dict K Q
  up_dict [] = []
  up_dict ((k, p) ∷ d) = (k, up p) ∷ up_dict d

  abbrev pub up_versions : {K Ver : Type 0} → Dict K (Versioned P Ver) → Dict K (Versioned Q Ver)
  up_versions [] = []
  up_versions ((k, v) ∷ d) =
      (k, record { value = up_option v.value; version = v.version }) ∷ up_versions d

-- A target that is read back as what contains what it reads.
module _ {W K V P Q Ver : Type 0} (up : P → Q) where
  unfoldable pub widen : Target W K V P Ver → Target W K V Q Ver
  widen t = record {
    ident = t.ident;
    name = t.name;
    role = t.role;
    lookup = t.lookup;
    fill = t.fill;
    policy = t.policy;
    write = t.write;
    batch_write = t.batch_write;
    batch_read_versioned =
        λ keys. t.batch_read_versioned keys >>= λ seen. pure (up_versions up seen);
    batch_write_if_unchanged = t.batch_write_if_unchanged;
    holds_same = t.holds_same;
    delete = t.delete;
    batch_delete = t.batch_delete;
    unset = t.unset;
    batch_unset = t.batch_unset;
    read = λ key. t.read key >>= λ p. pure (up_option up p);
    batch_read = λ keys. t.batch_read keys >>= λ d. pure (up_dict up d);
    exists = t.exists;
    batch_exists = t.batch_exists;
    stat = t.stat;
    batch_stat = t.batch_stat;
    gc = t.gc;
    supports_write_clock = t.supports_write_clock;
    expires = t.expires;
    writes_are_deferred = t.writes_are_deferred;
    creates_entries = t.creates_entries;
  }

-- `assemble` takes what `Parts` looks up: the parts' readings by their `ident`.
pub record Topology (W K V O Ver : Type 0) : Type 0 where
  pub targets : List (Target W K V V Ver)
  pub parts : List (Target W K V O Ver)
  pub assemble : Option (Dict ℕ (Option O) → Option V)
  pub up : V → O

abbrev pub is_before : Option Lookup → Bool
is_before (some before_authority) = true
is_before _ = false

abbrev pub is_after : Option Lookup → Bool
is_after (some after_authority) = true
is_after _ = false

-- `t.lookup not in (None, Lookup.NEVER)`
abbrev pub is_looked_up : Option Lookup → Bool
is_looked_up none = false
is_looked_up (some never) = false
is_looked_up (some _) = true

module _ {W K V P Ver : Type 0} where
  abbrev pub with_role : Role → Target W K V P Ver → Bool
  with_role role t = is_role t.role role

  -- `next((t for t in targets if t.role is role), None)`
  unfoldable pub first_with_role : Role → List (Target W K V P Ver) → Option (Target W K V P Ver)
  first_with_role role [] = none
  first_with_role role (t ∷ ts) = if is_role t.role role then some t else first_with_role role ts

  abbrev pub at_most_list : Option (Target W K V P Ver) → List (Target W K V P Ver)
  at_most_list none = []
  at_most_list (some t) = t ∷ []

  abbrev pub is_empty : List (Target W K V P Ver) → Bool
  is_empty [] = true
  is_empty (t ∷ ts) = false

module _ {W K V O Ver : Type 0} (t : Topology W K V O Ver) where
  -- `_all`
  unfoldable pub all_targets : List (Target W K V O Ver)
  all_targets = map (widen t.up) t.targets ++ t.parts

  -- `authority`, `whole_authority`
  unfoldable pub the_authority : Option (Target W K V O Ver)
  the_authority = first_with_role authority (all_targets)

  unfoldable pub whole_authority : Option (Target W K V V Ver)
  whole_authority = first_with_role authority t.targets

  unfoldable pub components : List (Target W K V O Ver)
  components = filter (with_role component) t.parts

  -- `_unanchored_parts`
  unfoldable pub unanchored_parts : List (Target W K V O Ver)
  unanchored_parts = filter (λ p. not (is_role p.role authority)) t.parts

  unfoldable pub assembled : Bool
  assembled = not (is_empty t.parts)

  -- `_by_role`
  unfoldable pub by_role : List Role → List (Target W K V O Ver)
  by_role [] = []
  by_role (role ∷ roles) = filter (with_role role) all_targets ++ by_role roles

  unfoldable pub committing_targets : List (Target W K V O Ver)
  unfolding by_role
  committing_targets = by_role (component ∷ authority ∷ [])

  unfoldable pub dependents : List (Target W K V O Ver)
  unfolding by_role
  dependents = by_role (dependent ∷ [])

  unfoldable pub creates_entries : Bool
  creates_entries = all committing_targets (λ p. p.creates_entries)

  unfoldable pub supports_write_clock : Bool
  supports_write_clock = all committing_targets (λ p. p.supports_write_clock)

  unfoldable pub deferred : Bool
  deferred = any committing_targets (λ p. p.writes_are_deferred)

  unfoldable pub lookups : List (Target W K V V Ver)
  lookups =
      filter (λ p. is_before p.lookup) t.targets
      ++ at_most_list whole_authority
      ++ filter (λ p. is_after p.lookup) t.targets

  -- `_require_authority`, `_require_whole`
  unfoldable pub require_authority : Result (Target W K V O Ver)
  require_authority = elim the_authority [ none ↦ raise unsupported | some p ↦ ok p ]

  unfoldable pub require_whole : Result (Target W K V V Ver)
  require_whole = elim whole_authority [ none ↦ raise not_implemented | some p ↦ ok p ]

  -- `anchor`; `self.components[0]` of a topology without parts raises.
  unfoldable pub anchor : Option (Target W K V O Ver)
  anchor = elim the_authority [
    | some p ↦ some p
    | none ↦ elim components [ [] ↦ none | p ∷ ps ↦ some p ]
  ]

  -- `_removed_now`, `_removed_after_commit`
  unfoldable pub removed_now : List (Target W K V O Ver)
  removed_now = elim the_authority [ none ↦ components | some p ↦ p ∷ [] ]

  unfoldable pub removed_after_commit : List (Target W K V O Ver)
  removed_after_commit = if is_none the_authority then dependents else components ++ dependents

  -- `__post_init__`: the first of its checks that fails raises.
  unfoldable pub post_init : Result (Unit {0})
  post_init =
      let authorities = filter (with_role authority) all_targets in
      let uncreating = filter (λ p. not p.creates_entries) committing_targets in
      let no_authority = is_empty authorities in
      if ltb 1 (length authorities)
      then raise value_error
      else if any t.targets (with_role component)
      then raise value_error
      else if any t.parts (with_role fallback)
      then raise value_error
      else if no_authority && any t.parts (with_role dependent)
      then raise value_error
      else if no_authority && is_empty t.parts
      then raise value_error
      else if no_authority && any t.targets (with_role fallback)
      then raise value_error
      else if not (is_empty uncreating) && ltb (length uncreating) (length committing_targets)
      then raise value_error
      else if (if is_empty t.parts then is_some t.assemble else is_none t.assemble)
      then raise value_error
      else if not (is_empty t.parts) && any t.targets (λ p. is_looked_up p.lookup)
      then raise value_error
      else ok tt
