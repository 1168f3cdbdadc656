-- ===== src/Topology/Tests.antt =====
-- Runs of the model of src/kvtsjl/keymap_algebra/topology.py, and its theorems at them.
use kvtsjl.Prelude.{
  length, filter, ◌≤◌, ℕ, zero, suc, String, ◌≡◌, refl, sym, ap, subst, ◌⊎◌, inl, inr, Bool, true,
  false, Option, none, some, is_none, is_some, List, [], ◌∷◌, arith, nat_eq, ==_refl, if◌then◌else◌,
  ◌<◌, map, ◌++◌,
}
use kvtsjl.Prelude.Dict.{Dict, keys, lookup, insert, lookup-insert, lookup-erase}
use kvtsjl.Errors.{
  unsupported, Exn, failed, none_failed, failure, uncommitted, partial_sync, is_uncommitted,
  is_partial_sync, is_record_write_error, ok, raise,
}
use kvtsjl.Exec.{Exec, throw}
use kvtsjl.KeyMap.{put, ConditionalWrite}
use kvtsjl.DictMap.{DictMap, empty, set, delete as delete_entry, read_versions, write_each}
use kvtsjl.Topology.Target.{authority, Role, Lookup, required, best_effort, Target}
use kvtsjl.Topology.Sync.{Queued, Node, flush}
use kvtsjl.Topology.Shape.{
  Topology, widen, dependents, committing_targets, removed_now, removed_after_commit,
}
use kvtsjl.Topology.Write.{write, delete, write_to, commit_all, forget}
use kvtsjl.Topology.Example.{
  Stores, store, target, db, cache, of_targets, cached, no_options, start, broken,
}
use kvtsjl.Topology.Loops.{Each}
use kvtsjl.Topology.Commit.{write-uncommitted, queued}
use kvtsjl.Topology.Outcome.{Accepts, IsRefusal, write-tells, write-defers}
use kvtsjl.Topology.Flush.{flush-runs_all, run_all, some_reported, is_raise}
use kvtsjl.Topology.Reach.{Establishes, Leaves}
use kvtsjl.Topology.Reached.{AllHold, write-reaches_all, delete-reaches_all, delete-answers}
use kvtsjl.Topology.Read.{read, exists}
use kvtsjl.Topology.Lookups.{Answers, first_held, is_refused, read-exists}
use kvtsjl.Topology.Fill.{stream_order, batch_fill}
use kvtsjl.Topology.Downstream.{batch_fill-Keeps}
use kvtsjl.Topology.Conditional.{batch_write_if_unchanged}
use kvtsjl.Topology.Anchor.{post_init-anchor}
use kvtsjl.Topology.Shape.{all_targets, with_role, anchor, post_init}
use kvtsjl.Topology.Refused.{settle-refused, batch_delete-answers}
use kvtsjl.Topology.Sync.{discard, settle, try_fill, is_best_effort}
use kvtsjl.Topology.Write.{batch_delete}
use kvtsjl.Topology.Lost.{write_if_unchanged-lost}

write_cached : (write cached 3 7 no_options start).0 ≡ ok tt
unfolding write committing_targets kvtsjl.Topology.Shape.all_targets widen
    kvtsjl.Topology.Sync.committing dependents kvtsjl.Topology.Sync.run_sync
    kvtsjl.Topology.Shape.deferred kvtsjl.Topology.Sync.settle
write_cached = refl

read_missing : (read cached 3 start.media).0 ≡ ok none
unfolding read kvtsjl.Topology.Shape.assembled kvtsjl.Topology.Shape.lookups
    kvtsjl.Topology.Shape.whole_authority kvtsjl.Topology.Shape.first_with_role
read_missing = refl

-- The dependent fails after the authority: the record is committed.
partly_synced :
    (write (of_targets (db ∷ broken cache ∷ [])) 3 7 no_options start).0
    ≡ raise (partial_sync (failure "cache" (failed 1) none_failed))
unfolding write committing_targets kvtsjl.Topology.Shape.all_targets widen
    kvtsjl.Topology.Sync.committing dependents kvtsjl.Topology.Sync.run_sync
    kvtsjl.Topology.Shape.deferred kvtsjl.Topology.Sync.settle is_partial_sync
partly_synced = refl

abbrev half_broken : Topology Stores ℕ ℕ ℕ ℕ
half_broken = of_targets (db ∷ broken cache ∷ [])

write-tells_example :
    ((after : Stores) × Accepts half_broken
        (write_to half_broken 3 7 no_options)
        (committing_targets half_broken)
        start.media
        after
      × (((write half_broken 3 7 no_options start).0 ≡ ok tt)
          ⊎ ((exn : Exn) × ((write half_broken 3 7 no_options start).0 ≡ raise exn)
              × (is_partial_sync exn ≡ true))))
    ⊎ (((after : Stores)
          → ¬ Accepts half_broken
              (write_to half_broken 3 7 no_options)
              (committing_targets half_broken)
              start.media
              after)
        × ((exn : Exn) × ((write half_broken 3 7 no_options start).0 ≡ raise exn)
            × IsRefusal half_broken
                (write_to half_broken 3 7 no_options)
                (committing_targets half_broken)
                start.media
                exn))
unfolding kvtsjl.Topology.Shape.deferred kvtsjl.Topology.Shape.all_targets widen committing_targets
write-tells_example = write-tells half_broken 3 7 no_options start refl

-- The authority fails: the cache is as it was.
write-uncommitted_example :
    ((write (of_targets (broken db ∷ cache ∷ [])) 3 7 no_options start).1.media.1 ≡ start.media.1)
    × ((write (of_targets (broken db ∷ cache ∷ [])) 3 7 no_options start).1.queue ≡ [])
unfolding write is_uncommitted Each kvtsjl.Topology.Shape.deferred committing_targets
    kvtsjl.Topology.Shape.all_targets widen kvtsjl.Topology.Sync.committing is_record_write_error
write-uncommitted_example =
    write-uncommitted (of_targets (broken db ∷ cache ∷ [])) (λ w. w.1) 3 7 no_options start
      (uncommitted (failure "db" (failed 1) none_failed)) refl ((λ w. refl), tt) refl refl

abbrev joined : Topology Stores ℕ ℕ ℕ ℕ
joined = of_targets (record db { writes_are_deferred = true } ∷ cache ∷ [])

-- What the authority leaves.
abbrev joined_after : Stores
joined_after = (commit_all joined (write_to joined 3 7 no_options) start.media).1

write-defers_example :
    ((write joined 3 7 no_options start).0 ≡ ok tt)
    × ((write joined 3 7 no_options start).1.media ≡ joined_after)
    × ((flush (write joined 3 7 no_options start).1).1 ≡ record {
      media =
          run_all
            ([] ++ map (queued joined "set" (write_to joined 3 7 no_options)) (dependents joined))
            joined_after;
      queue = [];
    })
    × (discard (write joined 3 7 no_options start).1 ≡ record { media = joined_after; queue = [] })
unfolding write Each Accepts kvtsjl.Topology.Shape.deferred committing_targets
    kvtsjl.Topology.Shape.all_targets widen dependents kvtsjl.Topology.Sync.committing
write-defers_example =
    write-defers joined 3 7 no_options start joined_after refl (refl, tt) (joined_after, refl, refl)

-- Two deferred writes, the first of which its medium refuses.
abbrev waiting : Node Stores
waiting = record start {
  queue =
      record { name = "cache"; what = "set"; policy = best_effort; run = throw (failed 1) }
      ∷ record { name = "cache"; what = "set"; policy = required; run = cache.write 3 7 no_options }
      ∷ [];
}

flush-runs_all_example :
    ((flush waiting).1 ≡ record { media = run_all waiting.queue waiting.media; queue = [] })
    × (is_raise (flush waiting).0 ≡ some_reported waiting.queue waiting.media)
    × ((exn : Exn) → (flush waiting).0 ≡ raise exn → is_partial_sync exn ≡ true)
flush-runs_all_example = flush-runs_all waiting

abbrev held_at : Target Stores ℕ ℕ ℕ ℕ → ℕ → Stores → Option ℕ
held_at t k w = lookup k (store t.ident w).entries

store-Answers :
    (i : ℕ) (name : String) (role : Role) (l : Option Lookup) (f : Bool)
    → Answers held_at (target i name role l f)
store-Answers i name role l f = record {
  answers_read = λ k w. refl;
  answers_exists = λ k w. refl;
  accepts_fills = λ ws o w. refl;
  answers_stats = λ ks w. refl;
}

abbrev stored : Stores
stored = (set 3 7 empty, empty)

read-exists_example :
    ((read cached 3 stored).0 ≡ ok (first_held held_at (cache ∷ db ∷ []) 3 stored))
    × (exists cached 3 stored
        ≡ (ok (is_some (first_held held_at (cache ∷ db ∷ []) 3 stored)), stored))
unfolding read exists Each kvtsjl.Topology.Shape.assembled kvtsjl.Topology.Shape.lookups
    kvtsjl.Topology.Shape.whole_authority kvtsjl.Topology.Shape.first_with_role
read-exists_example =
    read-exists cached held_at 3 stored refl
      (store-Answers 1 _ _ _ _, (store-Answers 0 _ _ _ _, tt))

-- A copy's value does not go to the authority, even if it asked to be filled.
batch_fill-Keeps_example :
    (batch_fill ((3, 7) ∷ []) cache (record db { fill = true } ∷ []) start.media).1.0
    ≡ start.media.0
unfolding stream_order Each
batch_fill-Keeps_example =
    batch_fill-Keeps (λ w. w.0) ((3, 7) ∷ []) cache (record db { fill = true } ∷ []) (λ ks w. refl)
      ((λ p q. absurd (omega (arith, q))), tt) start.media

-- Another has written entry 3 since it was seen absent.
abbrev stale : Dict ℕ (ConditionalWrite ℕ ℕ)
stale =
    (
      3,
      record { seen = record { value = none; version = none }; change = put 8; created_at = none },
    )
    ∷ []

write_if_unchanged-lost_example :
    ((batch_write_if_unchanged cached stale no_options (record start { media = stored })).1.media.1
      ≡ empty)
    × ((batch_write_if_unchanged cached stale no_options (record start { media = stored })).1.queue
        ≡ [])
unfolding batch_write_if_unchanged Each set kvtsjl.Topology.Shape.the_authority
    kvtsjl.Topology.Shape.first_with_role kvtsjl.Topology.Shape.all_targets widen
    kvtsjl.Topology.Shape.components kvtsjl.Topology.Shape.require_authority
    kvtsjl.Topology.Sync.committing write_each kvtsjl.DictMap.write_one insert
    kvtsjl.Prelude.ℕ_discrete dependents
write_if_unchanged-lost_example =
    write_if_unchanged-lost cached (λ w. w.1) no_options stale (record start { media = stored })
      (widen (λ v. v) db) refl ((λ g w. refl), (λ ws w. refl)) tt refl

abbrev whole_db : Target Stores ℕ ℕ ℕ ℕ
whole_db = widen (λ v. v) db

abbrev whole_cache : Target Stores ℕ ℕ ℕ ℕ
whole_cache = widen (λ v. v) cache

abbrev IsOurs : Target Stores ℕ ℕ ℕ ℕ → Type 0
IsOurs p = (p ≡ whole_db) ⊎ (p ≡ whole_cache)

abbrev HoldsSeven : Target Stores ℕ ℕ ℕ ℕ → Stores → Type 0
HoldsSeven p w = lookup 3 (store p.ident w).entries ≡ some 7

abbrev LacksThree : Target Stores ℕ ℕ ℕ ℕ → Stores → Type 0
LacksThree p w = lookup 3 (store p.ident w).entries ≡ none

-- What holds of both targets holds of ours.
of_ours :
    (F : Target Stores ℕ ℕ ℕ ℕ → Type 0)
    → F whole_db
    → F whole_cache
    → (p : Target Stores ℕ ℕ ℕ ℕ) → IsOurs p
    → F p
of_ours F a b p (inl q) = subst F (sym q) a
of_ours F a b p (inr q) = subst F (sym q) b

write-Establishes :
    (p : Target Stores ℕ ℕ ℕ ℕ)
    → IsOurs p
    → Establishes (HoldsSeven p) (write_to cached 3 7 no_options p)
unfolding widen set kvtsjl.Prelude.ℕ_discrete
write-Establishes =
    of_ours (λ p. Establishes (HoldsSeven p) (write_to cached 3 7 no_options p))
      (λ w b done. lookup-insert 3 3 7 w.0.entries) (λ w b done. lookup-insert 3 3 7 w.1.entries)

write-Leaves :
    (p q : Target Stores ℕ ℕ ℕ ℕ)
    → IsOurs p
    → IsOurs q
    → Leaves (HoldsSeven p) (write_to cached 3 7 no_options q)
unfolding widen set kvtsjl.Prelude.ℕ_discrete
write-Leaves p q f g =
    of_ours (λ p. Leaves (HoldsSeven p) (write_to cached 3 7 no_options q))
      (of_ours (λ q. Leaves (HoldsSeven whole_db) (write_to cached 3 7 no_options q))
        (λ w h. lookup-insert 3 3 7 w.0.entries) (λ w h. h) q g)
      (of_ours (λ q. Leaves (HoldsSeven whole_cache) (write_to cached 3 7 no_options q)) (λ w h. h)
        (λ w h. lookup-insert 3 3 7 w.1.entries) q g)
      p f

write-reaches_all_example :
    AllHold HoldsSeven (committing_targets cached) (write cached 3 7 no_options start).1.media
    × AllHold HoldsSeven (dependents cached) (write cached 3 7 no_options start).1.media
unfolding kvtsjl.Topology.Shape.deferred committing_targets kvtsjl.Topology.Shape.all_targets widen
    Each dependents write kvtsjl.Topology.Sync.committing kvtsjl.Topology.Sync.run_sync
    kvtsjl.Topology.Sync.settle
write-reaches_all_example =
    write-reaches_all cached IsOurs HoldsSeven 3 7 no_options start refl (inl refl, tt)
      ((inr refl, refl), tt) write-Establishes write-Leaves refl

delete-Establishes :
    (p : Target Stores ℕ ℕ ℕ ℕ) → IsOurs p → Establishes (LacksThree p) (forget (p.delete 3))
unfolding widen delete_entry
delete-Establishes =
    of_ours (λ p. Establishes (LacksThree p) (forget (p.delete 3)))
      (λ w b done. ground (arith, lookup-erase 3 3 w.0.entries))
      (λ w b done. ground (arith, lookup-erase 3 3 w.1.entries))

delete-Leaves :
    (p q : Target Stores ℕ ℕ ℕ ℕ)
    → IsOurs p
    → IsOurs q
    → Leaves (LacksThree p) (forget (q.delete 3))
unfolding widen delete_entry
delete-Leaves p q f g =
    of_ours (λ p. Leaves (LacksThree p) (forget (q.delete 3)))
      (of_ours (λ q. Leaves (LacksThree whole_db) (forget (q.delete 3)))
        (λ w h. ground (arith, lookup-erase 3 3 w.0.entries)) (λ w h. h) q g)
      (of_ours (λ q. Leaves (LacksThree whole_cache) (forget (q.delete 3))) (λ w h. h)
        (λ w h. ground (arith, lookup-erase 3 3 w.1.entries)) q g)
      p f

delete-reaches_all_example :
    AllHold LacksThree
      (removed_now cached)
      (delete cached 3 (record start { media = stored })).1.media
    × AllHold LacksThree
        (removed_after_commit cached)
        (delete cached 3 (record start { media = stored })).1.media
unfolding kvtsjl.Topology.Shape.deferred committing_targets kvtsjl.Topology.Shape.all_targets widen
    Each removed_now kvtsjl.Topology.Shape.the_authority kvtsjl.Topology.Shape.first_with_role
    removed_after_commit kvtsjl.Topology.Shape.components dependents delete
    kvtsjl.Topology.Sync.run_sync kvtsjl.Topology.Sync.settle delete_entry set insert
    kvtsjl.Prelude.ℕ_discrete kvtsjl.Prelude.Dict.erase
delete-reaches_all_example =
    delete-reaches_all cached IsOurs LacksThree 3 (record start { media = stored }) true refl
      (inl refl, tt) ((inr refl, refl), tt) delete-Establishes delete-Leaves refl

delete-answers_example :
    ((b : Bool) → (delete cached 3 start).0 ≡ ok b → (whole_db.delete 3 start.media).0 ≡ ok b)
    × ((exn : Exn)
        → (whole_db.delete 3 start.media).0 ≡ raise exn
        → delete cached 3 start
          ≡ (raise exn, record start { media = (whole_db.delete 3 start.media).1 }))
unfolding kvtsjl.Topology.Shape.the_authority kvtsjl.Topology.Shape.first_with_role
    kvtsjl.Topology.Shape.all_targets widen
delete-answers_example = delete-answers cached 3 start whole_db refl

-- A refusal under a best-effort policy.
abbrev refuse : Exec Stores (Unit {0})
refuse = throw unsupported

settle-refused_example :
    ((settle "cache" best_effort false refuse start.media).1 ≡ start.media)
    × (is_raise (settle "cache" best_effort false refuse start.media).0
        ≡ is_refused (refuse start.media).0)
    × ((try_fill refuse start.media).1 ≡ start.media)
    × (is_raise (try_fill refuse start.media).0 ≡ is_refused (refuse start.media).0)
settle-refused_example = settle-refused "cache" best_effort false refuse start.media

batch_delete-answers_example : (whole_db.batch_delete (3 ∷ []) start.media).0 ≡ ok 0
unfolding batch_delete kvtsjl.Topology.Shape.the_authority kvtsjl.Topology.Shape.first_with_role
    kvtsjl.Topology.Shape.all_targets widen removed_now removed_after_commit
    kvtsjl.Topology.Shape.components dependents kvtsjl.Topology.Sync.run_sync
    kvtsjl.Topology.Shape.deferred committing_targets settle
batch_delete-answers_example =
    batch_delete-answers cached 3 (3 ∷ []) none start whole_db 0 refl refl

post_init-anchor_example :
    (length (filter (with_role authority) (all_targets cached)) ≤ 1)
    × (is_some (anchor cached) ≡ true)
unfolding post_init all_targets widen committing_targets
post_init-anchor_example = post_init-anchor cached refl
