-- ===== src/DictMap/Linear.antt =====
-- `update` of src/kvtsjl/keymap.py on the map of src/kvtsjl/keymap_algebra/dict_map.py takes effect
-- at one point in time, whatever others write between its attempts.
use kvtsjl.Prelude.{
  ℕ, zero, suc, ◌<◌, ◌≤◌, ◌≡◌, refl, sym, ap, subst, ◌∙◌, ◌⊎◌, inl, inr, true, false, Option, none,
  some, is_none, [], ◌∷◌, Eq, arith, ==_refl, Bool-cases,
}
use kvtsjl.Prelude.Dict.{Dict, lookup, insert, lookup-insert, lookup-erase, dedup, dedup_from}
use kvtsjl.Errors.{Result, ok}
use kvtsjl.Ttl.{TtlPolicy}
use kvtsjl.KeyMap.{put, remove, Change, Decision, keep, change, hold, update, batch_update, updated}
use kvtsjl.DictMap.{set, delete, same_version}
use kvtsjl.DictMap.Steps.{IsValid, same_version_lem, here, Evolves-IsValid, version-names_value}
use kvtsjl.DictMap.Contended.{
  Contended, contended, interrupt, interrupts, interrupt-Evolves, effect, decision_at, tries,
  tries_keep, tries_put, tries_remove, from_attempt, attempt-done, attempt-lost,
}

module _ {K V : Type 0} ⦃e : Eq K⦄ (key : K) (decide : Option V → Decision V)
    (ttl : Option TtlPolicy) (created_at : Option ℕ) where
  -- The update has taken effect at once after the first `i` of the others' bursts, of which there
  -- is one to an attempt at most: the map that these bursts alone leave is changed as the decision
  -- on it says, nothing else has happened since, and the answer is what the entry holds then.
  abbrev pub TakesEffect : ℕ → Contended K V → Result (Option (Option V)) × Contended K V → Type 0
  TakesEffect n w r =
      (i : ℕ) × (i ≤ n)
      × (r.1 ≡ record (interrupts i w) {
        shared =
            effect key (decision_at key decide ttl created_at (interrupts i w).shared)
              (interrupts i w).shared;
      })
      × (r.0 ≡ ok (some (lookup key r.1.shared.entries)))

  -- Either that, or every attempt was lost and nothing was written.
  abbrev pub Linear : ℕ → Contended K V → Result (Option (Option V)) × Contended K V → Type 0
  Linear n w r = TakesEffect n w r ⊎ (r ≡ (ok none, interrupts n w))

  lookup-hold : (o : Option V) → lookup key (hold key o []) ≡ o
  unfolding insert
  lookup-hold none = refl
  lookup-hold (some v) = ground (arith, ==_refl key)

  finish :
      (n : ℕ) (w u : Contended K V) (held : Dict K V) (i : ℕ)
      → tries key decide ttl created_at w ≡ (ok (held, []), u)
      → i ≤ suc n
      → u ≡ record (interrupts i w) {
        shared =
            effect key
              (decision_at key decide ttl created_at (interrupts i w).shared)
              (interrupts i w).shared;
      }
      → lookup key held ≡ lookup key u.shared.entries
      → Linear (suc n) w (from_attempt key decide ttl created_at (suc n) w)
  finish n w u held i t few f l =
      subst (Linear (suc n) w) (sym (attempt-done key decide ttl created_at n w u held t))
        (inl (i, few, f, ap (λ o. ok (some o)) l))

  -- What happens after a burst happens.
  Linear-interrupt :
      (n : ℕ) (w : Contended K V) (r : Result (Option (Option V)) × Contended K V)
      → Linear n (interrupt w) r
      → Linear (suc n) w r
  unfolding interrupts
  Linear-interrupt n w r (inl (i, few, f, l)) = inl (suc i, omega (arith, few), f, l)
  Linear-interrupt n w r (inr lost) = inr lost

  lose :
      (n : ℕ) (w : Contended K V)
      → tries key decide ttl created_at w ≡ (ok ([], key ∷ []), interrupt w)
      → Linear n (interrupt w) (from_attempt key decide ttl created_at n (interrupt w))
      → Linear (suc n) w (from_attempt key decide ttl created_at (suc n) w)
  lose n w t l =
      subst (Linear (suc n) w) (sym (attempt-lost key decide ttl created_at n w (interrupt w) t))
        (Linear-interrupt n w _ l)

  -- An entry whose version the others left is decided the same.
  decided_same :
      (w : Contended K V)
      → IsValid w.shared
      → same_version (lookup key (interrupt w).shared.version) (lookup key w.shared.version) ≡ true
      → decision_at key decide ttl created_at (interrupt w).shared
        ≡ decision_at key decide ttl created_at w.shared
  decided_same w h s =
      ap decide (version-names_value key h (interrupt-Evolves w here) (same_version_lem _ _ s))

  from_attempt-Linear :
      (n : ℕ) (w : Contended K V)
      → IsValid w.shared
      → Linear n w (from_attempt key decide ttl created_at n w)
  unfolding from_attempt interrupts set delete kvtsjl.KeyMap.rounds updated
  from_attempt-Linear zero w valid = inr refl
  from_attempt-Linear (suc n) w valid =
      go (decision_at key decide ttl created_at w.shared) refl
        (Bool-cases
          (same_version (lookup key (interrupt w).shared.version) (lookup key w.shared.version)))
        (Bool-cases (is_none (lookup key w.shared.version)))
        (from_attempt-Linear n (interrupt w) valid')
    where
      valid' : IsValid (interrupt w).shared
      valid' = Evolves-IsValid (interrupt-Evolves w here) valid

      go :
          (d : Decision V)
          → decision_at key decide ttl created_at w.shared ≡ d
          → (same_version (lookup key (interrupt w).shared.version) (lookup key w.shared.version)
              ≡ true)
            ⊎ (same_version (lookup key (interrupt w).shared.version) (lookup key w.shared.version)
                ≡ false)
          → (is_none (lookup key w.shared.version) ≡ true)
            ⊎ (is_none (lookup key w.shared.version) ≡ false)
          → Linear n (interrupt w) (from_attempt key decide ttl created_at n (interrupt w))
          → Linear (suc n) w (from_attempt key decide ttl created_at (suc n) w)
      go keep d s a l =
          finish n w w (hold key (lookup key w.shared.entries) []) 0
            (tries_keep key decide ttl created_at w valid d) (omega arith)
            (ap (λ x. record w { shared = effect key x w.shared }) (sym d))
            (lookup-hold (lookup key w.shared.entries))
      go (change (put v)) d (inl s) a l =
          finish n w (record (interrupt w) { shared = set key v (interrupt w).shared })
            ((key, v) ∷ []) 1 (tries_put key decide ttl created_at w v valid d ∙ ground (arith, s))
            (omega arith)
            (ap (λ x. record (interrupt w) { shared = effect key x (interrupt w).shared })
              (sym (decided_same w valid s ∙ d)))
            (ground (arith, lookup-insert key key v (interrupt w).shared.entries, ==_refl key))
      go (change (put v)) d (inr s) a l =
          lose n w (tries_put key decide ttl created_at w v valid d ∙ ground (arith, s)) l
      go (change remove) d s (inl a) l =
          finish n w w [] 0
            (tries_remove key decide ttl created_at w valid valid' d ∙ ground (arith, a))
            (omega arith)
            (ap (λ m. record w { shared = m }) (ground (arith, d, a, valid.paired key)))
            (ground (arith, a, valid.paired key))
      go (change remove) d (inl s) (inr a) l =
          finish n w (record (interrupt w) { shared = (delete key (interrupt w).shared).1 }) [] 1
            (tries_remove key decide ttl created_at w valid valid' d ∙ ground (arith, s, a))
            (omega arith)
            (ap (λ x. record (interrupt w) { shared = effect key x (interrupt w).shared })
              (sym (decided_same w valid s ∙ d)))
            (ground (arith, lookup-erase key key (interrupt w).shared.entries, ==_refl key))
      go (change remove) d (inr s) (inr a) l =
          lose n w (tries_remove key decide ttl created_at w valid valid' d ∙ ground (arith, s, a))
            l

  -- On a valid map, with at least one attempt and whatever others write to the map before each of
  -- its conditional writes: either `update` takes effect at once after some of the others' bursts
  -- (the decision is made from what the entry holds on the map that these bursts alone leave, that
  -- map is changed as the decision says, and nothing else happens), answering what the entry holds
  -- afterwards; or every attempt was lost, it raises `KvStoreConflict`, and the map is as the
  -- others have left it.
  pub update-Linear :
      (attempts : ℕ) (w : Contended K V)
      → 0 < attempts
      → IsValid w.shared
      → Linear attempts w (update contended key decide ttl created_at attempts w)
  unfolding update batch_update dedup dedup_from from_attempt
  update-Linear attempts w some_given h =
      subst (Linear attempts w) (ground (arith, some_given)) (from_attempt-Linear attempts w h)
