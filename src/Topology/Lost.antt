-- ===== src/Topology/Lost.antt =====
-- A conditional write of src/kvtsjl/keymap_algebra/topology.py that the authority turns down, or that
-- is refused.
use kvtsjl.Prelude.{
  ℕ, ◌≡◌, refl, sym, ap, subst, Bool, true, false, Option, none, some, List, [], ◌∷◌, arith,
  if◌then◌else◌, Eq,
}
use kvtsjl.Prelude.Dict.{Dict}
use kvtsjl.Errors.{unsupported, Result, ok, raise}
use kvtsjl.Exec.{Exec, continue, throw, lift, ◌>>=◌, ◌>>◌}
use kvtsjl.KeyMap.{ConditionalWrite}
use kvtsjl.Topology.Target.{Target, WriteOptions}
use kvtsjl.Topology.Sync.{Node, committing, on_media}
use kvtsjl.Topology.Shape.{Topology, components, require_authority, the_authority}
use kvtsjl.Topology.Write.{for_each}
use kvtsjl.Topology.Fill.{received}
use kvtsjl.Topology.Changes.{puts_of, changed, by_clock}
use kvtsjl.Topology.Conditional.{
  changed_parts, some_replaced, write_parts, write_group, after_commit, batch_write_if_unchanged,
}
use kvtsjl.Topology.Loops.{Each, Keeps, for_each-Keeps, continue-Keeps, Each-of, committing-Keeps}
use kvtsjl.Topology.Nothing.{after_commit-none, after_commit-answers}

module _ {W K V O Ver : Type 0} ⦃e : Eq K⦄ (t : Topology W K V O Ver) where
  module _ {X : Type 0} (view : W → X) (options : WriteOptions) where
    -- The target's part of a conditional write leaves what `view` shows.
    abbrev pub ApartFrom : Target W K V O Ver → Type 0
    ApartFrom p =
        ((g : Option ℕ × Dict K V) → Keeps view (write_group t options p g))
        × ((ws : Dict K (ConditionalWrite V Ver))
            → Keeps view (p.batch_write_if_unchanged ws options))

    groups-Keeps :
        (p : Target W K V O Ver)
        → ApartFrom p
        → (groups : List (Option ℕ × Dict K V))
        → Keeps view (for_each groups (λ g. committing p.name p.role (write_group t options p g)))
    groups-Keeps p h groups = for_each-Keeps view _ groups (
        Each-of _ (λ g. committing-Keeps view p.name p.role (write_group t options p g) (h.0 g))
          groups)

    abbrev ApartPart : Target W K V O Ver × Dict K V → Type 0
    ApartPart q = ApartFrom q.0

    write_parts-Keeps :
        (parts : List (Target W K V O Ver × Dict K V)) (writes : Dict K (ConditionalWrite V Ver))
        → Each ApartPart parts
        → Keeps view (write_parts t parts writes options)
    unfolding write_parts Each
    write_parts-Keeps [] writes h w = refl
    write_parts-Keeps ((p, c) ∷ parts) writes h w =
        continue-Keeps view (by_clock c writes) w _
          (λ groups v.
            continue-Keeps view _ _ _ (λ a. write_parts-Keeps parts writes h.1)
              (groups-Keeps p h.0 groups v))
          refl

    abbrev AllApart : Result (List (Target W K V O Ver × Dict K V)) → Type 0
    AllApart (ok parts) = Each ApartPart parts
    AllApart (raise exn) = Unit

    changed_parts-Apart :
        (ps : List (Target W K V O Ver)) (puts : Dict K V)
        (writes : Dict K (ConditionalWrite V Ver))
        → Each ApartFrom ps
        → AllApart (changed_parts t ps puts writes)
    unfolding changed_parts Each
    changed_parts-Apart [] puts writes h = tt
    changed_parts-Apart (p ∷ ps) puts writes h =
        go (changed p.holds_same puts writes) (changed_parts t ps puts writes)
          (changed_parts-Apart ps puts writes h.1)
      where
        go :
            (a : Result (Dict K V)) (b : Result (List (Target W K V O Ver × Dict K V)))
            → AllApart b
            → AllApart (elim a as (λ _. Result (List (Target W K V O Ver × Dict K V))) [
              | raise exn ↦ raise exn
              | ok c ↦ elim b as (λ _. Result (List (Target W K V O Ver × Dict K V))) [
                | raise exn ↦ raise exn
                | ok rest ↦ ok ((p, c) ∷ rest)
              ]
            ])
        go (raise exn) b k = tt
        go (ok c) (raise exn) k = tt
        go (ok c) (ok rest) k = (h.0, k)

    after_commit-lost :
        (writes : Dict K (ConditionalWrite V Ver)) (r : Result (List K)) (n : Node W)
        → (continue r (after_commit t writes options) n).0 ≡ ok []
        → (continue r (after_commit t writes options) n).1 ≡ n
    after_commit-lost writes (ok []) n e = ap (λ r. r.1) (after_commit-none t writes options n)
    after_commit-lost writes (ok (k ∷ ks)) n e =
        absurd (ground (arith, after_commit-answers t writes options (k ∷ ks) [] n e))
    after_commit-lost writes (raise exn) n e = absurd (ground arith)

    -- The writes of components and authority, once it is decided to make them.
    abbrev committed :
        Target W K V O Ver
        → List (Target W K V O Ver × Dict K V)
        → Dict K (ConditionalWrite V Ver)
        → Exec (Node W) (List K)
    committed anchor parts writes =
        on_media (write_parts t parts writes options)
        >> on_media (
            committing anchor.name anchor.role (
              anchor.batch_write_if_unchanged (received anchor.supports_write_clock writes)
                options))

    abbrev Unmoved : Node W → Node W → Type 0
    Unmoved n m = (view m.media ≡ view n.media) × (m.queue ≡ n.queue)

    committed-Unmoved :
        (anchor : Target W K V O Ver) (parts : List (Target W K V O Ver × Dict K V))
        (writes : Dict K (ConditionalWrite V Ver)) (n : Node W)
        → ApartFrom anchor
        → Each ApartPart parts
        → Unmoved n (committed anchor parts writes n).1
    unfolding on_media
    committed-Unmoved anchor parts writes n h g = ground (
      arith,
      write_parts-Keeps parts writes g n.media,
      committing-Keeps view anchor.name anchor.role
          (anchor.batch_write_if_unchanged (received anchor.supports_write_clock writes) options)
          (h.1 (received anchor.supports_write_clock writes))
          (write_parts t parts writes options n.media).1,
    )

    -- Once the authority is known and the changed parts are computed.
    decided-lost :
        (anchor : Target W K V O Ver) (parts : List (Target W K V O Ver × Dict K V))
        (writes : Dict K (ConditionalWrite V Ver)) (n : Node W)
        → ApartFrom anchor
        → Each ApartPart parts
        → ((committed anchor parts writes >>= after_commit t writes options) n).0 ≡ ok []
        → Unmoved n ((committed anchor parts writes >>= after_commit t writes options) n).1
    decided-lost anchor parts writes n h g r =
        let s = committed anchor parts writes n in
        subst (Unmoved n) (sym (after_commit-lost writes s.0 s.1 r))
          (committed-Unmoved anchor parts writes n h g)

    abbrev Silent : Node W → Result (List K) × Node W → Type 0
    Silent n r = r.0 ≡ ok [] → Unmoved n r.1

    abbrev unless_replaced :
        Target W K V O Ver
        → List (Target W K V O Ver × Dict K V)
        → Dict K (ConditionalWrite V Ver)
        → Bool
        → Exec (Node W) (List K)
    unless_replaced anchor parts writes replaced =
        if replaced
        then throw unsupported
        else (committed anchor parts writes >>= after_commit t writes options)

    unless_replaced-lost :
        (anchor : Target W K V O Ver) (parts : List (Target W K V O Ver × Dict K V))
        (writes : Dict K (ConditionalWrite V Ver)) (n : Node W)
        → ApartFrom anchor
        → Each ApartPart parts
        → (r : Result Bool) → Silent n (continue r (unless_replaced anchor parts writes) n)
    unless_replaced-lost anchor parts writes n h g (raise exn) e = absurd (ground arith)
    unless_replaced-lost anchor parts writes n h g (ok true) e = absurd (ground arith)
    unless_replaced-lost anchor parts writes n h g (ok false) e =
        decided-lost anchor parts writes n h g e

    abbrev with_parts :
        Dict K (ConditionalWrite V Ver)
        → Target W K V O Ver
        → List (Target W K V O Ver × Dict K V)
        → Exec (Node W) (List K)
    with_parts writes anchor parts =
        lift (some_replaced t parts writes) >>= unless_replaced anchor parts writes

    with_parts-lost :
        (anchor : Target W K V O Ver) (writes : Dict K (ConditionalWrite V Ver)) (n : Node W)
        → ApartFrom anchor
        → (r : Result (List (Target W K V O Ver × Dict K V))) → AllApart r
        → Silent n (continue r (with_parts writes anchor) n)
    with_parts-lost anchor writes n h (raise exn) g = λ e. absurd (ground arith)
    with_parts-lost anchor writes n h (ok parts) g =
        unless_replaced-lost anchor parts writes n h g (some_replaced t parts writes)

    -- If what the components and the authority write leaves the part of the media that `view`
    -- shows, then a conditional write that answers that nothing was written (because the
    -- authority's entries have all changed since they were seen) leaves it too, and queues
    -- nothing: a lost conditional write reaches no dependent.
    pub write_if_unchanged-lost :
        (writes : Dict K (ConditionalWrite V Ver)) (n : Node W) (anchor : Target W K V O Ver)
        → the_authority t ≡ some anchor
        → ApartFrom anchor
        → Each ApartFrom (components t)
        → (batch_write_if_unchanged t writes options n).0 ≡ ok []
        → (view (batch_write_if_unchanged t writes options n).1.media ≡ view n.media)
          × ((batch_write_if_unchanged t writes options n).1.queue ≡ n.queue)
    unfolding batch_write_if_unchanged require_authority
    write_if_unchanged-lost writes n anchor a h g =
        subst
          (λ x. Silent n (
            continue
              (elim x as (λ _. Result (Target W K V O Ver)) [
                | none ↦ raise unsupported
                | some p ↦ ok p
              ])
              (λ p.
                lift (changed_parts t (components t) (puts_of writes) writes)
                >>= with_parts writes p)
              n))
          (sym a)
          (with_parts-lost anchor writes n h
            (changed_parts t (components t) (puts_of writes) writes)
            (changed_parts-Apart (components t) (puts_of writes) writes g))
