-- ===== src/Topology/Outcome.antt =====
-- What the outcome of a write in src/kvtsjl/keymap_algebra/topology.py tells of its commit, and what
-- becomes of a write whose commit is the caller's to make.
use kvtsjl.Prelude.{
  ◌≡◌, refl, sym, ap, subst, ◌∙◌, ◌⊎◌, inl, inr, true, false, List, [], ◌∷◌, ◌++◌, map, Bool-cases,
  none, if◌then◌else◌,
}
use kvtsjl.Errors.{
  Exn, is_uncommitted, is_partial_sync, is_record_write_error, ok, raise, Result-cases,
}
use kvtsjl.Exec.{Exec}
use kvtsjl.Topology.Target.{Target, WriteOptions, authority, is_role}
use kvtsjl.Topology.Sync.{Node, on_media, committing, committing_error, flush, discard}
use kvtsjl.Topology.Shape.{Topology, committing_targets, dependents, deferred}
use kvtsjl.Topology.Write.{for_each, to_dependents, commit_all, write_to, write}
use kvtsjl.Topology.Loops.{Each}
use kvtsjl.Topology.Commit.{Op, queued, for_each-queues, to_dependents-Raises}
use kvtsjl.Topology.Flush.{run_all, flush-runs_all}

raise-ok : {A : Type 0} {a : A} {exn : Exn} → raise exn ≡ ok a → ⊥
raise-ok same = cc

module _ {W K V O Ver : Type 0} (t : Topology W K V O Ver) (op : Op t) where
  -- Each of the targets in turn accepts the operation.
  unfoldable pub Accepts : List (Target W K V O Ver) → W → W → Type 0
  Accepts [] w after = after ≡ w
  Accepts (p ∷ ps) w after = (between : W) × (op p w ≡ (ok tt, between)) × Accepts ps between after

  -- The first of the targets that does not accept it is an authority and raises this exception.
  unfoldable pub IsPassed : List (Target W K V O Ver) → W → Exn → Type 0
  IsPassed [] w exn = ⊥
  IsPassed (p ∷ ps) w exn =
      ((is_role p.role authority ≡ true) × ((op p w).0 ≡ raise exn))
      ⊎ ((between : W) × (op p w ≡ (ok tt, between)) × IsPassed ps between exn)

  -- What an exception before the commit is: it says that nothing is committed, or it is what an
  -- authority that is a topology itself says.
  abbrev pub IsRefusal : List (Target W K V O Ver) → W → Exn → Type 0
  IsRefusal ps w exn =
      (is_uncommitted exn ≡ true) ⊎ ((is_record_write_error exn ≡ true) × IsPassed ps w exn)

  abbrev pub commit : List (Target W K V O Ver) → Exec W (Unit {0})
  commit ps = for_each ps (λ p. committing p.name p.role (op p))

  -- The committing targets accept an operation, or it is refused.
  abbrev pub Committed : List (Target W K V O Ver) → W → Type 0
  Committed ps w =
      ((after : W) × Accepts ps w after × (commit ps w ≡ (ok tt, after)))
      ⊎ (((after : W) → ¬ Accepts ps w after)
          × ((exn : Exn) × ((commit ps w).0 ≡ raise exn) × IsRefusal ps w exn))

  IsRefusal-committing_error :
      (p : Target W K V O Ver) (ps : List (Target W K V O Ver)) (w : W) (exn : Exn)
      → (op p w).0 ≡ raise exn
      → IsRefusal (p ∷ ps) w (committing_error p.name p.role exn)
  unfolding committing_error IsPassed is_uncommitted
  IsRefusal-committing_error p ps w exn r = elim (Bool-cases (is_role p.role authority)) [
    | inl role ↦ elim (Bool-cases (is_record_write_error exn)) [
      | inl tells ↦ rw (role, tells) (inr (tells, inl (refl, r)))
      | inr silent ↦ inl (rw (role, silent))
    ]
    | inr other ↦ inl (rw other)
  ]

  refused :
      (p : Target W K V O Ver) (ps : List (Target W K V O Ver)) (w between : W) (exn : Exn)
      → op p w ≡ (raise exn, between)
      → Committed (p ∷ ps) w
  unfolding for_each committing Accepts
  refused p ps w between exn r = inr (
    λ after accepts. raise-ok (ap (λ x. x.0) (sym r ∙ accepts.1)),
    (
      committing_error p.name p.role exn,
      rw r,
      IsRefusal-committing_error p ps w exn (ap (λ x. x.0) r),
    ),
  )

  IsRefusal-later :
      (p : Target W K V O Ver) (ps : List (Target W K V O Ver)) (w between : W) (exn : Exn)
      → op p w ≡ (ok tt, between)
      → IsRefusal ps between exn
      → IsRefusal (p ∷ ps) w exn
  unfolding IsPassed
  IsRefusal-later p ps w between exn r (inl tells) = inl tells
  IsRefusal-later p ps w between exn r (inr (tells, passed)) = inr (tells, inr (between, r, passed))

  accepted :
      (p : Target W K V O Ver) (ps : List (Target W K V O Ver)) (w between : W)
      → op p w ≡ (ok tt, between)
      → Committed ps between
      → Committed (p ∷ ps) w
  unfolding for_each committing Accepts
  accepted p ps w between r (inl (after, rest, done)) = inl (after, (between, r, rest), rw r done)
  accepted p ps w between r (inr (never, (exn, raised, refusal))) = inr (
    λ after accepts.
        never after (subst (λ v. Accepts ps v after) (ap (λ x. x.1) (sym accepts.1 ∙ r)) accepts.2),
    (exn, rw r raised, IsRefusal-later p ps w between exn r refusal),
  )

  pub commit-Committed : (ps : List (Target W K V O Ver)) (w : W) → Committed ps w
  unfolding for_each Accepts
  commit-Committed [] w = inl (w, refl, refl)
  commit-Committed (p ∷ ps) w = elim (Result-cases (op p w).0) [
    | inl (u, done) ↦
        accepted p ps w (op p w).1 (ap (λ r. (r, (op p w).1)) done) (commit-Committed ps (op p w).1)
    | inr (exn, failed) ↦ refused p ps w (op p w).1 exn (ap (λ r. (r, (op p w).1)) failed)
  ]

  -- There is one way to accept.
  pub commit-Accepts :
      (ps : List (Target W K V O Ver)) (w after : W)
      → Accepts ps w after
      → commit ps w ≡ (ok tt, after)
  unfolding for_each committing Accepts
  commit-Accepts [] w after same = ap (λ v. (ok tt, v)) (sym same)
  commit-Accepts (p ∷ ps) w after (between, r, rest) = rw r (commit-Accepts ps between after rest)

module _ {W K V O Ver : Type 0} (t : Topology W K V O Ver) where
  write-accepted :
      (key : K) (value : V) (options : WriteOptions) (n : Node W) (after : W)
      → commit t (write_to t key value options) (committing_targets t) n.media ≡ (ok tt, after)
      → (write t key value options n).0
        ≡ (to_dependents t "set" (write_to t key value options) none (record n { media = after })).0
  unfolding write commit_all to_dependents on_media
  write-accepted key value options n after done = rw done

  synced :
      (key : K) (value : V) (options : WriteOptions) (n : Node W) (after : W)
      → deferred t ≡ false
      → (write t key value options n).0
        ≡ (to_dependents t "set" (write_to t key value options) none (record n { media = after })).0
      → ((write t key value options n).0 ≡ ok tt)
        ⊎ ((exn : Exn) × ((write t key value options n).0 ≡ raise exn)
            × (is_partial_sync exn ≡ true))
  synced key value options n after now same =
      let op = write_to t key value options in
      let m : Node W = record n { media = after } in
      elim (Result-cases (to_dependents t "set" op none m).0) [
        | inl (u, done) ↦ inl (same ∙ done)
        | inr (exn, failed) ↦ inr (
          exn,
          same ∙ failed,
          ap (λ b. if b then is_uncommitted exn else is_partial_sync exn) (sym now)
              ∙ to_dependents-Raises t "set" op none m exn failed,
        )
      ]

  -- A write whose commit is its own either is accepted by each of the committing targets in turn,
  -- and then it succeeds or raises `PartialSyncError`; or some committing target does not accept
  -- it, and then it raises, and what it raises is an `UncommittedWriteError`, or the
  -- `RecordWriteError` with which an authority that is a topology itself has turned it down.
  pub write-tells :
      (key : K) (value : V) (options : WriteOptions) (n : Node W)
      → deferred t ≡ false
      → ((after : W) × Accepts t (write_to t key value options) (committing_targets t) n.media after
          × (((write t key value options n).0 ≡ ok tt)
              ⊎ ((exn : Exn) × ((write t key value options n).0 ≡ raise exn)
                  × (is_partial_sync exn ≡ true))))
        ⊎ (((after : W)
              → ¬ Accepts t (write_to t key value options) (committing_targets t) n.media after)
            × ((exn : Exn) × ((write t key value options n).0 ≡ raise exn)
                × IsRefusal t (write_to t key value options) (committing_targets t) n.media exn))
  unfolding write commit_all on_media
  write-tells key value options n now =
      elim (commit-Committed t (write_to t key value options) (committing_targets t) n.media) [
        | inl (after, accepts, done) ↦ inl (
          after,
          accepts,
          synced key value options n after now (write-accepted key value options n after done),
        )
        | inr (never, (exn, raised, refusal)) ↦ inr (never, (exn, rw raised, refusal))
      ]

  write-queues :
      (key : K) (value : V) (options : WriteOptions) (n : Node W) (after : W)
      → deferred t ≡ true
      → Each (λ p. p.writes_are_deferred ≡ false) (dependents t)
      → Accepts t (write_to t key value options) (committing_targets t) n.media after
      → write t key value options n ≡ (
        ok tt,
        record {
          media = after;
          queue = n.queue ++ map (queued t "set" (write_to t key value options)) (dependents t);
        },
      )
  unfolding write commit_all to_dependents on_media
  write-queues key value options n after d h accepts =
      let op = write_to t key value options in
      rw (commit-Accepts t op (committing_targets t) n.media after accepts)
        (for_each-queues t "set" op d (dependents t) h (record n { media = after }))

  discarded : (m : Node W) → discard m ≡ record { media = m.media; queue = [] }
  unfolding discard
  discarded m = refl

  -- Where the commit is the caller's to make, no dependent's writes are deferred themselves, and
  -- each of the committing targets in turn accepts the write: the write succeeds, the media are as
  -- the committing targets leave them, and no dependent is written yet. A flush then runs what was
  -- queued before and the write of each dependent, in order; to discard leaves the media as the
  -- committing targets did, and drops all of it.
  pub write-defers :
      (key : K) (value : V) (options : WriteOptions) (n : Node W) (after : W)
      → deferred t ≡ true
      → Each (λ p. p.writes_are_deferred ≡ false) (dependents t)
      → Accepts t (write_to t key value options) (committing_targets t) n.media after
      → ((write t key value options n).0 ≡ ok tt)
        × ((write t key value options n).1.media ≡ after)
        × ((flush (write t key value options n).1).1 ≡ record {
          media =
              run_all
                (n.queue ++ map (queued t "set" (write_to t key value options)) (dependents t))
                after;
          queue = [];
        })
        × (discard (write t key value options n).1 ≡ record { media = after; queue = [] })
  write-defers key value options n after d h accepts =
      let op = write_to t key value options in
      let m : Node W = record {
        media = after;
        queue = n.queue ++ map (queued t "set" op) (dependents t);
      } in
      let made = write-queues key value options n after d h accepts in
      (
        ap (λ r. r.0) made,
        ap (λ r. r.1.media) made,
        ap (λ r. (flush r.1).1) made ∙ (flush-runs_all m).0,
        ap (λ r. discard r.1) made ∙ discarded m,
      )
