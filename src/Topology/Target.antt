-- ===== src/Topology/Target.antt =====
-- `Target` and `KeyMapTarget` of src/kvtsjl/keymap_algebra/topology.py: one place where a record
-- lives. `V` is the record, `P` what the place reads back, `Ver` a version, `W` the media's state.
-- Streams are not modelled.
use kvtsjl.Prelude.{
  ℕ, String, Bool, true, false, ◌||◌, ◌&&◌, is_none, is_some, Option, none, some, List, [], ◌∷◌, Eq,
  ◌==◌, if◌then◌else◌,
}
use kvtsjl.Prelude.Dict.{Dict}
use kvtsjl.Errors.{store_error, value_error, Result, ok, raise}
use kvtsjl.Exec.{Exec, pure, throw, ◌>>=◌, ◌>>◌}
use kvtsjl.Ttl.{TtlPolicy}
use kvtsjl.KeyMap.{Versioned, Change, put, remove, ConditionalWrite}

pub data Role : Type 0 where
  component authority dependent fallback : Role

pub data Lookup : Type 0 where
  before_authority after_authority never : Lookup

pub data SyncPolicy : Type 0 where
  required best_effort : SyncPolicy

abbrev pub is_role : Role → Role → Bool
is_role component component = true
is_role authority authority = true
is_role dependent dependent = true
is_role fallback fallback = true
is_role _ _ = false

pub record WriteOptions : Type 0 where
  pub ttl : Option TtlPolicy
  pub created_at : Option ℕ

-- `kvtsjl.store.schema.stat.RecordStat`
pub record RecordStat : Type 0 where
  pub created_at : Option ℕ
  pub modified_at : Option ℕ
  pub expires_at : Option ℕ
  pub size : Option ℕ
  pub etag : Option String
  pub persistent : Bool

unfoldable pub write_clock : RecordStat → Option ℕ
write_clock s = if is_some s.created_at then s.created_at else s.modified_at

-- `ident` is the target's `id()`.
pub record Target (W K V P Ver : Type 0) : Type 0 where
  pub ident : ℕ
  pub name : String
  pub role : Role
  pub lookup : Option Lookup
  pub fill : Bool
  pub policy : SyncPolicy
  pub write : K → V → WriteOptions → Exec W (Unit {0})
  pub batch_write : Dict K V → WriteOptions → Exec W (Unit {0})
  pub batch_read_versioned : List K → Exec W (Dict K (Versioned P Ver))
  pub batch_write_if_unchanged : Dict K (ConditionalWrite V Ver) → WriteOptions → Exec W (List K)
  pub holds_same : V → V → Bool
  pub delete : K → Exec W Bool
  pub batch_delete : List K → Exec W ℕ
  pub unset : K → Exec W Bool
  pub batch_unset : List K → Exec W ℕ
  pub read : K → Exec W (Option P)
  pub batch_read : List K → Exec W (Dict K P)
  pub exists : K → Exec W Bool
  pub batch_exists : List K → Exec W (List K)
  pub stat : K → Exec W (Option RecordStat)
  pub batch_stat : List K → Exec W (Dict K RecordStat)
  pub gc : ℕ → Exec W (List K)
  pub supports_write_clock : Bool
  pub expires : Bool
  pub writes_are_deferred : Bool
  pub creates_entries : Bool

-- `_DEFAULT_LOOKUP.get(role)`
unfoldable pub default_lookup : Role → Option Lookup
default_lookup dependent = some never
default_lookup fallback = some after_authority
default_lookup component = none
default_lookup authority = none

-- The checks of `Target.__init__`, and the lookup that it settles on.
unfoldable pub settle_lookup : Role → Option Lookup → Bool → Result (Option Lookup)
unfolding default_lookup
settle_lookup role lookup fill =
    if is_some lookup && (is_role role authority || is_role role component)
    then raise value_error
    else if fill && (is_role role component || is_role role fallback)
    then raise value_error
    else ok (if is_some lookup then lookup else default_lookup role)

-- `Target.receives`
unfoldable pub receives : Bool → WriteOptions → WriteOptions
receives supports_write_clock options =
    if is_none options.created_at || supports_write_clock
    then options
    else record options { created_at = none }

-- The operations of a keymap (src/kvtsjl/keymap.py) that a target calls.
pub record KeyMapOps (W K P Ver : Type 0) : Type 0 where
  pub set : K → P → Option TtlPolicy → Option ℕ → Exec W (Unit {0})
  pub batch_set : Dict K P → Option TtlPolicy → Option ℕ → Exec W (Unit {0})
  pub batch_read_versioned : List K → Exec W (Dict K (Versioned P Ver))
  pub batch_write_if_unchanged :
      Dict K (ConditionalWrite P Ver) → Option TtlPolicy → Exec W (List K)
  pub delete : K → Exec W Bool
  pub batch_delete : List K → Exec W ℕ
  pub unset : K → Exec W Bool
  pub batch_unset : List K → Exec W ℕ
  pub get : K → Exec W (Option P)
  pub batch_get : List K → Exec W (Dict K P)
  pub exists : K → Exec W Bool
  pub batch_exists : List K → Exec W (List K)
  pub stat : K → Exec W (Option RecordStat)
  pub batch_stat : List K → Exec W (Dict K RecordStat)
  pub creates_entries : Bool

-- What `KeyMapTarget.__init__` is given.
pub record Placement : Type 0 where
  pub ident : ℕ
  pub name : String
  pub role : Role
  pub lookup : Option Lookup
  pub fill : Bool
  pub policy : SyncPolicy

module _ {W K V P Ver : Type 0} (keymap : KeyMapOps W K P Ver) (slot : V → Option P) where
  -- `KeyMapTarget.write`
  unfoldable pub write_slot : K → V → WriteOptions → Exec W (Unit {0})
  write_slot key value options = elim (slot value) [
    | none ↦ (keymap.unset key >>= λ _. pure tt)
    | some p ↦ keymap.set key p options.ttl options.created_at
  ]

  -- The two loops' results of `KeyMapTarget.batch_write`: `to_set` and `to_clear`.
  unfoldable pub split_slots : Dict K V → Dict K P × List K
  split_slots [] = ([], [])
  split_slots ((k, v) ∷ items) =
      let (to_set, to_clear) = split_slots items in
      elim (slot v) [ none ↦ (to_set, k ∷ to_clear) | some p ↦ ((k, p) ∷ to_set, to_clear) ]

  -- `KeyMapTarget.batch_write`
  abbrev pub set_slots : Dict K P → WriteOptions → Exec W (Unit {0})
  set_slots [] options = pure tt
  set_slots (p ∷ ps) options = keymap.batch_set (p ∷ ps) options.ttl options.created_at

  abbrev pub clear_slots : List K → Exec W (Unit {0})
  clear_slots [] = pure tt
  clear_slots (k ∷ ks) = keymap.batch_unset (k ∷ ks) >>= λ _. pure tt

  unfoldable pub batch_write_slots : Dict K V → WriteOptions → Exec W (Unit {0})
  unfolding split_slots
  batch_write_slots items options =
      let (to_set, to_clear) = split_slots items in set_slots to_set options >> clear_slots to_clear

  -- `_put` and the loop of `KeyMapTarget.batch_write_if_unchanged`
  unfoldable pub slot_change : Change V → Result (Change P)
  slot_change remove = ok remove
  slot_change (put v) = elim (slot v) [ none ↦ raise store_error | some p ↦ ok (put p) ]

  unfoldable pub slot_writes :
      Dict K (ConditionalWrite V Ver) → Result (Dict K (ConditionalWrite P Ver))
  unfolding slot_change
  slot_writes [] = ok []
  slot_writes ((k, w) ∷ ws) = elim (slot_change w.change) [
    | raise exn ↦ raise exn
    | ok change ↦ elim (slot_writes ws) [
      | raise exn ↦ raise exn
      | ok rest ↦ ok (
          (
            k,
            record {
              seen = record { value = none; version = w.seen.version };
              change = change;
              created_at = w.created_at;
            },
          )
          ∷ rest)
    ]
  ]

  unfoldable pub write_slots_if_unchanged :
      Dict K (ConditionalWrite V Ver) → WriteOptions → Exec W (List K)
  unfolding slot_writes
  write_slots_if_unchanged writes options = elim (slot_writes writes) [
    | raise exn ↦ throw exn
    | ok slotted ↦ keymap.batch_write_if_unchanged slotted options.ttl
  ]

  -- `==` of two optional parts
  unfoldable pub same_slot : ⦃e : Eq P⦄ → V → V → Bool
  same_slot before after = elim (slot before) [
    | none ↦ is_none (slot after)
    | some p ↦ elim (slot after) [ none ↦ false | some q ↦ p == q ]
  ]

  -- `KeyMapTarget`; what it does not override is the default of `Target`.
  unfoldable pub keymap_target : ⦃e : Eq P⦄ → Placement → Target W K V P Ver
  unfolding write_slot batch_write_slots write_slots_if_unchanged same_slot
  keymap_target p = record {
    ident = p.ident;
    name = p.name;
    role = p.role;
    lookup = p.lookup;
    fill = p.fill;
    policy = p.policy;
    write = write_slot;
    batch_write = batch_write_slots;
    batch_read_versioned = keymap.batch_read_versioned;
    batch_write_if_unchanged = write_slots_if_unchanged;
    holds_same = same_slot;
    delete = keymap.delete;
    batch_delete = keymap.batch_delete;
    unset = keymap.unset;
    batch_unset = keymap.batch_unset;
    read = keymap.get;
    batch_read = keymap.batch_get;
    exists = keymap.exists;
    batch_exists = keymap.batch_exists;
    stat = keymap.stat;
    batch_stat = keymap.batch_stat;
    gc = λ max_entries. pure [];
    supports_write_clock = false;
    expires = false;
    writes_are_deferred = false;
    creates_entries = keymap.creates_entries;
  }
