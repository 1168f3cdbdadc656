-- ===== src/Topology/Reached.antt =====
-- `Topology.write` and `Topology.delete` of src/kvtsjl/keymap_algebra/topology.py where they succeed
-- and the commit is their own: every target of the record is written, or has forgotten the key.
use kvtsjl.Prelude.{◌≡◌, refl, ap, subst, Bool, false, none, some, List, [], ◌∷◌, arith}
use kvtsjl.Errors.{Exn, Result, ok, raise}
use kvtsjl.Exec.{Exec, continue, pure}
use kvtsjl.Topology.Target.{required, Target, WriteOptions}
use kvtsjl.Topology.Sync.{Node, on_media}
use kvtsjl.Topology.Shape.{
  Topology, the_authority, committing_targets, dependents, deferred, removed_now,
  removed_after_commit,
}
use kvtsjl.Topology.Write.{
  done, for_each, collect, forget, sync_one, to_dependents, commit_all, write_to, write, remove_key,
  delete,
}
use kvtsjl.Topology.Loops.{Each}
use kvtsjl.Topology.Reach.{
  Establishes, Leaves, Reached, HoldsIn, continue-Leaves, for_each-Reached, commit_all-Reached,
  sync_all-Reached, sync_all-Leaves,
}

module _ {W K V O Ver : Type 0} where
  abbrev pub AllHold : (Target W K V O Ver → W → Type 0) → List (Target W K V O Ver) → W → Type 0
  AllHold P ps w = Each (λ p. P p w) ps

  -- Targets that are `Good` and required.
  abbrev pub AllRequired : (Target W K V O Ver → Type 0) → List (Target W K V O Ver) → Type 0
  AllRequired Good ps = Each (λ p. Good p × (p.policy ≡ required)) ps

  Each-leaves :
      (Good : Target W K V O Ver → Type 0) (P : Target W K V O Ver → W → Type 0) {v w : W}
      → ((p : Target W K V O Ver) → Good p → P p v → P p w)
      → (ps : List (Target W K V O Ver)) → Each Good ps
      → AllHold P ps v
      → AllHold P ps w
  unfolding Each
  Each-leaves Good P f [] g h = tt
  Each-leaves Good P f (p ∷ ps) g h = (f p g.0 h.0, Each-leaves Good P f ps g.1 h.1)

  continue-both :
      (Good : Target W K V O Ver → Type 0) (P : Target W K V O Ver → W → Type 0)
      (ps qs : List (Target W K V O Ver))
      → Each Good ps
      → {A B : Type 0} (r : Result A) (f : A → Exec (Node W) B) (n : Node W) (b : B)
      → ((a : A) → r ≡ ok a → AllHold P ps n.media)
      → ((p : Target W K V O Ver) → Good p → (a : A) → Leaves (HoldsIn P p) (f a))
      → ((a : A) → (f a n).0 ≡ ok b → AllHold P qs (f a n).1.media)
      → (continue r f n).0 ≡ ok b
      → AllHold P ps (continue r f n).1.media × AllHold P qs (continue r f n).1.media
  continue-both Good P ps qs g (ok a) f n b h leaves rest done =
      (Each-leaves Good P (λ p k. leaves p k a n) ps g (h a refl), rest a done)
  continue-both Good P ps qs g (raise exn) f n b h leaves rest done = absurd (ground arith)

module _ {W K V O Ver : Type 0} (t : Topology W K V O Ver) where
  -- If the commit is not the caller's, every dependent is required, and of the record's targets
  -- (those that are `Good`) one that accepts the write holds the record (`P`) and no other's write
  -- takes it away, then after a write that succeeds every committing target and every dependent
  -- holds it.
  pub write-reaches_all :
      (Good : Target W K V O Ver → Type 0) (P : Target W K V O Ver → W → Type 0) (key : K)
      (value : V) (options : WriteOptions) (n : Node W)
      → deferred t ≡ false
      → Each Good (committing_targets t)
      → AllRequired Good (dependents t)
      → ((p : Target W K V O Ver) → Good p → Establishes (P p) (write_to t key value options p))
      → ((p q : Target W K V O Ver)
          → Good p
          → Good q
          → Leaves (P p) (write_to t key value options q))
      → (write t key value options n).0 ≡ ok tt
      → AllHold P (committing_targets t) (write t key value options n).1.media
        × AllHold P (dependents t) (write t key value options n).1.media
  unfolding write on_media to_dependents
  write-reaches_all Good P key value options n now good policies establishes leaves =
      let op = write_to t key value options in
      continue-both Good P (committing_targets t) (dependents t) good (commit_all t op n.media).0 _
        _ tt (λ a done. commit_all-Reached t Good P op now establishes leaves good n.media done)
        (λ p g a.
          sync_all-Leaves t Good P op now establishes leaves "set" p g (dependents t) policies)
        (λ a done.
          sync_all-Reached t Good P op now establishes leaves "set" (dependents t) policies _ done)

pure-Reached :
    {W A : Type 0} (Q : W → Type 0) (r : Result (Unit {0})) (w : W) (a b : A)
    → (r ≡ ok tt → Q w)
    → (continue r (λ _. pure a) w).0 ≡ ok b
    → Q (continue r (λ _. pure a) w).1
pure-Reached Q (ok u) w a b h done = h refl
pure-Reached Q (raise exn) w a b h done = absurd (ground arith)

module _ {W A B : Type 0} (body : A → Exec W B) where
  forget_each : List A → Exec W (Unit {0})
  unfolding for_each
  forget_each xs = for_each xs (λ x. forget (body x))

  -- Collecting the answers does what running for the effect does.
  collect-forget :
      (xs : List A) (w : W) → forget_each xs w ≡ (done (collect xs body w).0, (collect xs body w).1)
  unfolding for_each collect forget_each
  collect-forget [] w = refl
  collect-forget (x ∷ xs) w = ground (arith, collect-forget xs (body x w).1)

  collect-Reached :
      (Good : A → Type 0) (P : A → W → Type 0) (xs : List A)
      → Each Good xs
      → ((x : A) → Good x → Establishes (P x) (forget (body x)))
      → ((x y : A) → Good x → Good y → Leaves (P x) (forget (body y)))
      → (w : W) (bs : List B) → (collect xs body w).0 ≡ ok bs
      → Each (λ x. P x (collect xs body w).1) xs
  unfolding forget_each
  collect-Reached Good P xs g h leaves w bs e =
      subst (λ r. Reached P xs r) (collect-forget xs w) (for_each-Reached Good P _ xs g h leaves w)
        (ap done e)

module _ {W K V O Ver : Type 0} (t : Topology W K V O Ver) where
  -- If the commit is not the caller's, every target that is removed after it is required, and of
  -- the record's targets (those that are `Good`) one that accepts the deletion is rid of the key
  -- (`P`) and no other's deletion brings it back, then after a deletion that succeeds, whatever
  -- it answers, the authority (or with none every component) and everything that is removed
  -- after it are rid of the key.
  pub delete-reaches_all :
      (Good : Target W K V O Ver → Type 0) (P : Target W K V O Ver → W → Type 0) (key : K)
      (n : Node W) (b : Bool)
      → deferred t ≡ false
      → Each Good (removed_now t)
      → AllRequired Good (removed_after_commit t)
      → ((p : Target W K V O Ver) → Good p → Establishes (P p) (forget (p.delete key)))
      → ((p q : Target W K V O Ver) → Good p → Good q → Leaves (P p) (forget (q.delete key)))
      → (delete t key n).0 ≡ ok b
      → AllHold P (removed_now t) (delete t key n).1.media
        × AllHold P (removed_after_commit t) (delete t key n).1.media
  unfolding delete remove_key on_media
  delete-reaches_all Good P key n b now good policies establishes leaves =
      let op : Target W K V O Ver → Exec W Bool = λ p. p.delete key in
      let gone : Target W K V O Ver → Exec W (Unit {0}) = λ p. forget (p.delete key) in
      let later : Exec (Node W) (Unit {0}) =
        for_each (removed_after_commit t)
          (λ p. sync_one t p "delete" (forget (p.delete key)) none) in
      continue-both Good P (removed_now t) (removed_after_commit t) good
        (collect (removed_now t) op n.media).0 _ _ b
        (λ bs e. collect-Reached op Good P (removed_now t) good establishes leaves n.media bs e)
        (λ p g bs m h.
          continue-Leaves (HoldsIn P p) (later m).0 _ (λ a w k. k) (later m).1
            (sync_all-Leaves t Good P gone now establishes leaves "delete" p g
              (removed_after_commit t) policies m h))
        (λ bs.
          pure-Reached (λ m. AllHold P (removed_after_commit t) m.media) (later _).0 (later _).1 _ b
            (sync_all-Reached t Good P gone now establishes leaves "delete" (removed_after_commit t)
              policies _))

  -- With an authority, a deletion that succeeds answers what the authority answered, and one that
  -- the authority refuses raises what it raised, with no other target asked.
  pub delete-answers :
      (key : K) (n : Node W) (a : Target W K V O Ver)
      → the_authority t ≡ some a
      → ((b : Bool) → (delete t key n).0 ≡ ok b → (a.delete key n.media).0 ≡ ok b)
        × ((exn : Exn)
            → (a.delete key n.media).0 ≡ raise exn
            → delete t key n ≡ (raise exn, record n { media = (a.delete key n.media).1 }))
  unfolding delete remove_key removed_now collect on_media
  delete-answers key n a h = (λ b e. ground (arith, h), λ exn e. ground (arith, h))
