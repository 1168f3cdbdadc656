-- ===== src/Topology/Flush.antt =====
-- `DependentSyncs.flush` of src/kvtsjl/keymap_algebra/topology.py: it runs every queued operation,
-- past failures, and reports them together.
use kvtsjl.Prelude.{String, ◌≡◌, refl, Bool, true, false, not, ◌&&◌, ◌||◌, List, [], ◌∷◌, arith}
use kvtsjl.Errors.{
  Exn, Failures, failure, none_failed, partial_sync, is_unsupported, is_partial_sync, Result, ok,
  raise,
}
use kvtsjl.Topology.Target.{SyncPolicy}
use kvtsjl.Topology.Sync.{
  Queued, Node, is_best_effort, on_media, settle, settle_error, add_failures, failures_of,
  flush_each, report, flush,
}

abbrev pub is_raise : {A : Type 0} → Result A → Bool
is_raise (ok a) = false
is_raise (raise exn) = true

-- A `PartialSyncError` that names no failure.
abbrev pub names_none : Exn → Bool
names_none (partial_sync none_failed) = true
names_none _ = false

abbrev pub is_none_failed : Failures → Bool
is_none_failed none_failed = true
is_none_failed (failure label exn rest) = false

-- Whether an operation that ended so is to be reported: it failed, and the policy does not
-- tolerate it.
abbrev pub is_reported : SyncPolicy → Result (Unit {0}) → Bool
is_reported policy (ok u) = false
is_reported policy (raise exn) =
    (not (is_best_effort policy) || is_unsupported exn) && not (names_none exn)

add_failures-none :
    (fs gs : Failures)
    → is_none_failed (add_failures fs gs) ≡ (is_none_failed fs && is_none_failed gs)
unfolding add_failures
add_failures-none none_failed gs = refl
add_failures-none (failure label exn rest) gs = refl

-- The failures after an operation that ended so.
unfoldable gather : String → SyncPolicy → Result (Unit {0}) → Failures → Failures
unfolding settle_error
gather name policy (ok u) failures = failures
gather name policy (raise exn) failures = elim (settle_error name policy false exn) [
  | ok u ↦ failures
  | raise e ↦ add_failures failures (failures_of e)
]

gather-none :
    (name : String) (policy : SyncPolicy) (r : Result (Unit {0})) (failures : Failures)
    → is_none_failed (gather name policy r failures)
      ≡ (is_none_failed failures && not (is_reported policy r))
unfolding gather settle_error failures_of is_partial_sync add_failures is_unsupported
gather-none name policy (ok u) failures = ground arith
gather-none name policy (raise exn) failures = ground (
  arith,
  add_failures-none failures (failure name exn none_failed),
  add_failures-none failures (failures_of exn),
)

module _ {W : Type 0} where
  -- The media after all operations, whatever they raise.
  unfoldable pub run_all : List (Queued W) → W → W
  run_all [] w = w
  run_all (q ∷ queue) w = run_all queue (q.run w).1

  -- Whether one of them is to be reported.
  unfoldable pub some_reported : List (Queued W) → W → Bool
  some_reported [] w = false
  some_reported (q ∷ queue) w = is_reported q.policy (q.run w).0 || some_reported queue (q.run w).1

  -- How `flush_each` ends.
  record Flushed (queue : List (Queued W)) (failures : Failures) (w : W) (r : Result Failures × W)
      : Type 0 where
    media : r.1 ≡ run_all queue w
    gathered : Failures
    outcome : r.0 ≡ ok gathered
    reported : is_none_failed gathered ≡ (is_none_failed failures && not (some_reported queue w))

  step-flush :
      (q : Queued W) (queue : List (Queued W)) (failures : Failures) (w : W)
      → flush_each (q ∷ queue) failures w
        ≡ flush_each queue (gather q.name q.policy (q.run w).0 failures) (q.run w).1
  unfolding flush_each settle settle_error gather is_partial_sync failures_of
  step-flush q queue failures w = ground arith

  flush_each-Flushed :
      (queue : List (Queued W)) (failures : Failures) (w : W)
      → Flushed queue failures w (flush_each queue failures w)
  unfolding flush_each run_all some_reported
  flush_each-Flushed [] failures w = record {
    media = refl;
    gathered = failures;
    outcome = refl;
    reported = ground arith;
  }
  flush_each-Flushed (q ∷ queue) failures w =
      let r = q.run w in
      let fs = gather q.name q.policy r.0 failures in
      let f = flush_each-Flushed queue fs r.1 in
      record {
        media = ground (arith, step-flush q queue failures w, f.media);
        gathered = f.gathered;
        outcome = ground (arith, step-flush q queue failures w, f.outcome);
        reported = ground (arith, f.reported, gather-none q.name q.policy r.0 failures);
      }

  -- A flush runs every queued operation once, in order, whatever the earlier ones raise, and
  -- leaves the queue empty; it raises exactly where one of them failed in a way that its policy
  -- does not tolerate (but for a `PartialSyncError` that names no failure), and then
  -- `PartialSyncError`.
  pub flush-runs_all :
      (n : Node W)
      → ((flush n).1 ≡ record { media = run_all n.queue n.media; queue = [] })
        × (is_raise (flush n).0 ≡ some_reported n.queue n.media)
        × ((exn : Exn) → (flush n).0 ≡ raise exn → is_partial_sync exn ≡ true)
  unfolding flush on_media report is_partial_sync
  flush-runs_all n =
      let f = flush_each-Flushed n.queue none_failed n.media in
      (
        ground (arith, f.media, f.outcome),
        ground (arith, f.reported, f.outcome),
        λ exn r. ground (arith, f.outcome),
      )
