-- ===== src/DictMap/Contended.antt =====
-- `update` of src/kvtsjl/keymap.py on the map of src/kvtsjl/keymap_algebra/dict_map.py while
-- others write: before each conditional write of the update they make any number of changes.
use kvtsjl.Prelude.{
  ℕ, zero, suc, ◌≡◌, Option, some, is_none, List, [], ◌∷◌, Eq, arith, if◌then◌else◌, nat_eq,
  ==_refl,
}
use kvtsjl.Prelude.Dict.{Dict, lookup, insert, dedup, dedup_from}
use kvtsjl.Errors.{ok}
use kvtsjl.Exec.{pure, Exec, ◌>>=◌}
use kvtsjl.Ttl.{TtlPolicy}
use kvtsjl.KeyMap.{
  Change, put, remove, Decision, keep, change, Conditional, decide_one, updated, attempt, rounds,
  shown, plan, hold_written, hold, plan_one,
}
use kvtsjl.DictMap.{DictMap, set, delete, make, write_one, write_each, same_version, read_versions}
use kvtsjl.DictMap.Steps.{IsValid, read_version_lem, sets, deletes, Evolves, next}

-- The changes that others make, a burst before each conditional write.
pub record Contended (K V : Type 0) : Type 0 where
  pub shared : DictMap K V
  pub bursts : List (List (K × Change V))

module _ {K V : Type 0} ⦃e : Eq K⦄ where
  unfoldable pub others_make : List (K × Change V) → DictMap K V → DictMap K V
  others_make [] m = m
  others_make ((k, c) ∷ cs) m = others_make cs (make k c m).1

  -- The others' next burst.
  unfoldable pub interrupt : Contended K V → Contended K V
  unfolding others_make
  interrupt w = elim w.bursts [
    | [] ↦ w
    | b ∷ bs ↦ record { shared = others_make b w.shared; bursts = bs }
  ]

  unfoldable pub interrupts : ℕ → Contended K V → Contended K V
  interrupts zero w = w
  interrupts (suc n) w = interrupts n (interrupt w)

  abbrev pub contended : Conditional (Contended K V) K V ℕ
  contended = record {
    batch_read_versioned = λ ks w. (read_versions w.shared (dedup ks), w);
    batch_write_if_unchanged = λ writes ttl w.
        let w' = interrupt w in
        let (written, m) = write_each writes w'.shared in (ok written, record w' { shared = m });
  }

  -- The sequential meaning of a decision.
  abbrev pub effect : K → Decision V → DictMap K V → DictMap K V
  effect k keep m = m
  effect k (change c) m = (make k c m).1

  others_make-Evolves :
      (cs : List (K × Change V)) {m n : DictMap K V} → Evolves m n → Evolves m (others_make cs n)
  unfolding others_make
  others_make-Evolves [] r = r
  others_make-Evolves ((k, put v) ∷ cs) r = others_make-Evolves cs (next r (sets k v _))
  others_make-Evolves ((k, remove) ∷ cs) r = others_make-Evolves cs (next r (deletes k _))

  pub interrupt-Evolves :
      (w : Contended K V) {m : DictMap K V} → Evolves m w.shared → Evolves m (interrupt w).shared
  unfolding interrupt
  interrupt-Evolves w {m} r = go w.bursts
    where
      go :
          (bs : List (List (K × Change V)))
          → Evolves m
              (elim bs as (λ _. Contended K V) [
                | [] ↦ w
                | b ∷ rest ↦ record { shared = others_make b w.shared; bursts = rest }
              ]).shared
      go [] = r
      go (b ∷ bs) = others_make-Evolves b r

  module _ (key : K) (decide : Option V → Decision V) (ttl : Option TtlPolicy)
      (created_at : Option ℕ) where
    abbrev pub decision_at : DictMap K V → Decision V
    decision_at m = decide (lookup key m.entries)

    unfoldable pub tries : Exec (Contended K V) (Dict K V × List K)
    tries = attempt contended (decide_one key decide) ttl created_at (key ∷ []) []

    pub tries_keep :
        (w : Contended K V)
        → IsValid w.shared
        → decision_at w.shared ≡ keep
        → tries w ≡ (ok (hold key (lookup key w.shared.entries) [], []), w)
    unfolding tries attempt decide_one read_versions dedup dedup_from insert shown plan plan_one
        hold_written
    tries_keep w h d = ground (arith, d, read_version_lem w.shared key h, ==_refl key)

    pub tries_put :
        (w : Contended K V) (v : V)
        → IsValid w.shared
        → decision_at w.shared ≡ change (put v)
        → tries w ≡ (
            if same_version (lookup key (interrupt w).shared.version) (lookup key w.shared.version)
            then (
              ok ((key, v) ∷ [], []),
              record (interrupt w) { shared = set key v (interrupt w).shared },
            )
            else (ok ([], key ∷ []), interrupt w))
    unfolding tries attempt decide_one read_versions dedup dedup_from insert shown plan plan_one
        hold_written write_each write_one
    tries_put w v h d = ground (arith, d, read_version_lem w.shared key h, ==_refl key)

    -- Where the entry is there, a removal that finds it unchanged removes it.
    pub tries_remove :
        (w : Contended K V)
        → IsValid w.shared
        → IsValid (interrupt w).shared
        → decision_at w.shared ≡ change remove
        → tries w ≡ (
            if is_none (lookup key w.shared.version)
            then (ok ([], []), w)
            else if same_version
                (lookup key (interrupt w).shared.version)
                (lookup key w.shared.version)
            then (
              ok ([], []),
              record (interrupt w) { shared = (delete key (interrupt w).shared).1 },
            )
            else (ok ([], key ∷ []), interrupt w))
    unfolding tries attempt decide_one read_versions dedup dedup_from insert shown plan plan_one
        hold_written write_each write_one delete
    tries_remove w h i d =
        ground (arith, d, read_version_lem w.shared key h, i.paired key, ==_refl key)

    -- What `update` does from its first attempt on, with `n` attempts left.
    unfoldable pub from_attempt : ℕ → Exec (Contended K V) (Option (Option V))
    from_attempt n =
        rounds contended (decide_one key decide) ttl created_at n (key ∷ []) [] >>= λ outcome.
        pure (updated key outcome)

    pub attempt-done :
        (n : ℕ) (w u : Contended K V) (held : Dict K V)
        → tries w ≡ (ok (held, []), u)
        → from_attempt (suc n) w ≡ (ok (some (lookup key held)), u)
    unfolding from_attempt rounds updated tries
    attempt-done n w u held p = ground (arith, p)

    pub attempt-lost :
        (n : ℕ) (w u : Contended K V)
        → tries w ≡ (ok ([], key ∷ []), u)
        → from_attempt (suc n) w ≡ from_attempt n u
    unfolding from_attempt rounds updated tries
    attempt-lost n w u p = ground (arith, p)
