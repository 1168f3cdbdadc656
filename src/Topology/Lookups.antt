-- ===== src/Topology/Lookups.antt =====
-- The reads of src/kvtsjl/keymap_algebra/topology.py through the lookup order: what they answer, for
-- targets whose reads answer from what they hold.
use kvtsjl.Prelude.{
  ◌≡◌, refl, Bool, true, false, Option, none, is_some, List, [], ◌∷◌, ◌++◌, arith, if◌then◌else◌,
  Eq, filter, Option-cases, inl, inr,
}
use kvtsjl.Prelude.Dict.{Dict, keys}
use kvtsjl.Errors.{is_unsupported, Result, ok, raise}
use kvtsjl.Exec.{Exec, continue, pure}
use kvtsjl.Topology.Target.{Target, RecordStat, WriteOptions}
use kvtsjl.Topology.Sync.{try_fill}
use kvtsjl.Topology.Shape.{Topology, assembled, lookups}
use kvtsjl.Topology.Fill.{
  received, fillable, batch_fill, fill_into, fill_stats, fill_writes, no_options,
}
use kvtsjl.Topology.Read.{read_from, exists_in, read, exists}
use kvtsjl.Topology.Flush.{is_raise}
use kvtsjl.Topology.Write.{for_each, forget}
use kvtsjl.KeyMap.{ConditionalWrite}
use kvtsjl.Topology.Loops.{Each}

-- Whether it raised `KvStoreUnsupported`.
abbrev pub is_refused : {A : Type 0} → Result A → Bool
is_refused (ok a) = false
is_refused (raise exn) = is_unsupported exn

module _ {W K V Ver : Type 0} ⦃e : Eq K⦄ (holds : Target W K V V Ver → K → W → Option V) where
  -- A target that answers reads and existence from what it holds, and leaves the media alone.
  pub record Answers (t : Target W K V V Ver) : Type 0 where
    pub answers_read : (k : K) (w : W) → t.read k w ≡ (ok (holds t k w), w)
    pub accepts_fills :
        (ws : Dict K (ConditionalWrite V Ver)) (o : WriteOptions) (w : W)
        → is_refused (t.batch_write_if_unchanged ws o w).0 ≡ false
    pub answers_stats : (ks : List K) (w : W) → is_raise (t.batch_stat ks w).0 ≡ false
    pub answers_exists : (k : K) (w : W) → t.exists k w ≡ (ok (is_some (holds t k w)), w)

  -- What the first of the targets that holds the key holds.
  unfoldable pub first_held : List (Target W K V V Ver) → K → W → Option V
  first_held [] k w = none
  first_held (t ∷ ts) k w =
      let rest = first_held ts k w in if is_some (holds t k w) then holds t k w else rest

  pub exists_in-first_held :
      (ts : List (Target W K V V Ver))
      → Each Answers ts
      → (k : K) (w : W) → exists_in ts k w ≡ (ok (is_some (first_held ts k w)), w)
  unfolding Each exists_in first_held
  exists_in-first_held [] h k w = refl
  exists_in-first_held (t ∷ ts) h k w =
      ground (arith, h.0.answers_exists k w, exists_in-first_held ts h.1 k w)

  filter-Each :
      (p : Target W K V V Ver → Bool) (ts : List (Target W K V V Ver))
      → Each Answers ts
      → Each Answers (filter p ts)
  unfolding Each
  filter-Each p [] h = tt
  filter-Each p (t ∷ ts) h =
      elim (p t) as (λ b. Each Answers (if b then t ∷ filter p ts else filter p ts)) [
        | true ↦ (h.0, filter-Each p ts h.1)
        | false ↦ filter-Each p ts h.1
      ]

  append-Each :
      (ts us : List (Target W K V V Ver))
      → Each Answers ts
      → Each Answers us
      → Each Answers (ts ++ us)
  unfolding Each
  append-Each [] us h g = g
  append-Each (t ∷ ts) us h g = (h.0, append-Each ts us h.1 g)

  fill-ok :
      (t : Target W K V V Ver)
      → Answers t
      → (writes : Dict K (ConditionalWrite V Ver)) (o : WriteOptions) (w : W)
      → (try_fill (forget (t.batch_write_if_unchanged writes o)) w).0 ≡ ok tt
  unfolding try_fill
  fill-ok t h writes o w = ground (arith, h.accepts_fills writes o w)

  fills-ok :
      (ts : List (Target W K V V Ver))
      → Each Answers ts
      → (ws : Dict K (ConditionalWrite V Ver)) (o : WriteOptions) (w : W)
      → (for_each ts
          (λ t.
            try_fill (forget (t.batch_write_if_unchanged (received t.supports_write_clock ws) o)))
          w).0
        ≡ ok tt
  unfolding for_each Each
  fills-ok [] h ws o w = refl
  fills-ok (t ∷ ts) h ws o w =
      let body = forget (t.batch_write_if_unchanged (received t.supports_write_clock ws) o) in
      ground (
        arith,
        fill-ok t h.0 (received t.supports_write_clock ws) o w,
        fills-ok ts h.1 ws o (try_fill body w).1,
      )

  fill_into-ok :
      (hits : Dict K V) (source : Target W K V V Ver) (into : List (Target W K V V Ver)) (w : W)
      → Answers source
      → Each Answers into
      → (fill_into source into hits w).0 ≡ ok tt
  unfolding fill_into
  fill_into-ok hits source into w h g =
      let stats = fill_stats source into hits w in
      go stats.0 stats.1 (ground (arith, h.answers_stats (keys hits) w))
    where
      go :
          (r : Result (Dict K RecordStat)) (v : W)
          → is_raise r ≡ false
          → (continue r
              (λ stats. for_each into (λ t. try_fill (
                forget (
                  t.batch_write_if_unchanged
                    (received t.supports_write_clock (fill_writes stats hits))
                    no_options))))
              v).0
            ≡ ok tt
      go (ok stats) v i = fills-ok into g (fill_writes stats hits) no_options v
      go (raise exn) v i = absurd (ground arith)

  -- A fill of targets that accept fills succeeds.
  batch_fill-ok :
      (hits : Dict K V) (source : Target W K V V Ver) (consulted : List (Target W K V V Ver))
      (w : W)
      → Answers source
      → Each Answers consulted
      → (batch_fill hits source consulted w).0 ≡ ok tt
  unfolding batch_fill
  batch_fill-ok hits source consulted w h g =
      go (fillable source consulted) (filter-Each _ consulted g)
    where
      go :
          (ts : List (Target W K V V Ver))
          → Each Answers ts
          → ((elim ts as (λ _. Exec W (Unit {0})) [
            | [] ↦ pure tt
            | t ∷ us ↦ fill_into source (t ∷ us) hits
          ])
              w).0
            ≡ ok tt
      go [] e = refl
      go (t ∷ ts) e = fill_into-ok hits source (t ∷ ts) w h e

  pub read_from-first_held :
      (ts consulted : List (Target W K V V Ver))
      → Each Answers ts
      → Each Answers consulted
      → (k : K) (w : W) → (read_from ts k consulted w).0 ≡ ok (first_held ts k w)
  unfolding Each read_from first_held
  read_from-first_held [] consulted h g k w = refl
  read_from-first_held (t ∷ ts) consulted h g k w = elim (Option-cases (holds t k w)) [
    | inl gone ↦ ground (
      arith,
      gone,
      h.0.answers_read k w,
      read_from-first_held ts (consulted ++ t ∷ []) h.1 (append-Each consulted (t ∷ []) g (h.0, tt))
          k w,
    )
    | inr (v, held) ↦
        ground (arith, held, h.0.answers_read k w, batch_fill-ok ((k, v) ∷ []) t consulted w h.0 g)
  ]

module _ {W K V O Ver : Type 0} ⦃e : Eq K⦄ (t : Topology W K V O Ver) where
  -- For a record that is read whole, from targets that answer what they hold, whose metadata can
  -- be read and that refuse no fill as unsupported (a fill may fail otherwise): `read` returns
  -- what the first target in lookup order that holds the key holds, and `exists` whether there
  -- is one, without changing the media.
  pub read-exists :
      (holds : Target W K V V Ver → K → W → Option V) (key : K) (w : W)
      → assembled t ≡ false
      → Each (Answers holds) (lookups t)
      → ((read t key w).0 ≡ ok (first_held holds (lookups t) key w))
        × (exists t key w ≡ (ok (is_some (first_held holds (lookups t) key w)), w))
  unfolding read exists Each
  read-exists holds key w whole h = (
    ground (arith, whole, read_from-first_held holds (lookups t) [] h tt key w),
    ground (arith, whole, exists_in-first_held holds (lookups t) h key w),
  )
