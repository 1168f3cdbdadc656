-- ===== src/Topology/Assemble.antt =====
-- `_assemble_one` and `_assemble_many` of src/kvtsjl/keymap_algebra/topology.py: a record built from
-- its parts, the authority read first.
use kvtsjl.Prelude.{ℕ, Option, none, some, List, [], ◌∷◌, Eq, filter, nat_eq, contains}
use kvtsjl.Prelude.Dict.{Dict, keys, lookup, insert, dedup}
use kvtsjl.Errors.{assertion_error, ok}
use kvtsjl.Exec.{Exec, pure, throw, ◌>>=◌}
use kvtsjl.Topology.Target.{Target}
use kvtsjl.Topology.Shape.{Topology, the_authority, unanchored_parts}

module _ {W K V O Ver : Type 0} ⦃e : Eq K⦄ (t : Topology W K V O Ver) where
  -- What the parts hold for one key.
  unfoldable pub read_parts :
      List (Target W K V O Ver) → K → Dict ℕ (Option O) → Exec W (Dict ℕ (Option O))
  read_parts [] key held w = (ok held, w)
  read_parts (part ∷ parts) key held w =
      (part.read key >>= λ value. read_parts parts key (insert part.ident value held)) w

  -- `_assemble_one`; `assert assemble is not None` comes first.
  unfoldable pub assemble_one : K → Exec W (Option V)
  unfolding read_parts
  assemble_one key = elim t.assemble [
    | none ↦ throw assertion_error
    | some f ↦ elim (the_authority t) [
      | none ↦ read_parts (unanchored_parts t) key [] >>= λ held. pure (f held)
      | some anchor ↦ anchor.read key >>= λ value. elim value [
        | none ↦ pure none
        | some v ↦ read_parts (unanchored_parts t) key ((anchor.ident, some v) ∷ []) >>= λ held.
            pure (f held)
      ]
    ]
  ]

  -- What the parts hold for some keys.
  unfoldable pub batch_read_parts :
      List (Target W K V O Ver) → List K → Dict ℕ (Dict K O) → Exec W (Dict ℕ (Dict K O))
  batch_read_parts [] ks found w = (ok found, w)
  batch_read_parts (part ∷ parts) [] found w =
      batch_read_parts parts [] (insert part.ident [] found) w
  batch_read_parts (part ∷ parts) (k ∷ ks) found w =
      (part.batch_read (k ∷ ks) >>= λ hits.
      batch_read_parts parts (k ∷ ks) (insert part.ident hits found))
        w

  -- `{ident: hits.get(key) for ident, hits in found.items()}`
  unfoldable pub held_for : K → Dict ℕ (Dict K O) → Dict ℕ (Option O)
  held_for key [] = []
  held_for key ((ident, hits) ∷ found) = (ident, lookup key hits) ∷ held_for key found

  unfoldable pub assemble_each :
      (Dict ℕ (Option O) → Option V) → List K → Dict ℕ (Dict K O) → Dict K V → Dict K V
  unfolding held_for
  assemble_each f [] found out = out
  assemble_each f (key ∷ wanted) found out = elim (f (held_for key found)) [
    | none ↦ assemble_each f wanted found out
    | some v ↦ assemble_each f wanted found (insert key v out)
  ]

  abbrev pub anchored : Target W K V O Ver → List K → Option (Dict K O) → Exec W (Dict K O)
  anchored anchor wanted none = anchor.batch_read wanted
  anchored anchor wanted (some anchors) = pure anchors

  -- `_assemble_many`
  unfoldable pub assemble_many : List K → Option (Dict K O) → Exec W (Dict K V)
  unfolding batch_read_parts assemble_each
  assemble_many ks anchors = elim t.assemble [
    | none ↦ throw assertion_error
    | some f ↦ elim (dedup ks) [
      | [] ↦ pure []
      | k ∷ wanted ↦ elim (the_authority t) [
        | none ↦ batch_read_parts (unanchored_parts t) (k ∷ wanted) [] >>= λ found.
            pure (assemble_each f (k ∷ wanted) found [])
        | some anchor ↦ anchored anchor (k ∷ wanted) anchors >>= λ hits.
            let held = filter (λ j. contains (keys hits) j) (k ∷ wanted) in
            batch_read_parts (unanchored_parts t) held ((anchor.ident, hits) ∷ []) >>= λ found.
            pure (assemble_each f held found [])
      ]
    ]
  ]
