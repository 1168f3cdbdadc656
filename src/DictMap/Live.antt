-- ===== src/DictMap/Live.antt =====
-- `update` of src/kvtsjl/keymap.py on the map of src/kvtsjl/keymap_algebra/dict_map.py is not turned
-- down for ever: with more attempts than the others have bursts of changes left, it takes effect.
use kvtsjl.Prelude.{
  ℕ, zero, suc, ◌<◌, ◌≡◌, ◌≢◌, refl, sym, ap, ◌∙◌, ◌⊎◌, inl, inr, true, false, Option, none, some,
  is_none, List, [], ◌∷◌, Eq, arith, ==_refl, Bool-cases, length, nat_eq,
}
use kvtsjl.Prelude.Dict.{Dict, lookup, dedup, dedup_from}
use kvtsjl.Errors.{ok, ok-injective}
use kvtsjl.Ttl.{TtlPolicy}
use kvtsjl.KeyMap.{put, remove, Change, Decision, keep, change, update, batch_update}
use kvtsjl.DictMap.{set, delete, same_version}
use kvtsjl.DictMap.Steps.{IsValid, Evolves-IsValid, here}
use kvtsjl.DictMap.Contended.{
  Contended, contended, interrupt, interrupt-Evolves, decision_at, tries, others_make, tries_keep,
  tries_put, tries_remove, from_attempt, attempt-done, attempt-lost,
}
use kvtsjl.DictMap.Linear.{TakesEffect, update-Linear}

same_version_refl : (o : Option ℕ) → same_version o o ≡ true
same_version_refl none = refl
same_version_refl (some n) = ground (arith, ==_refl n)

true-false : true ≡ false → ⊥
true-false same = cc

some-none : {A : Type 0} {a : A} → some a ≡ none → ⊥
some-none same = cc

module _ {K V : Type 0} ⦃e : Eq K⦄ (key : K) (decide : Option V → Decision V)
    (ttl : Option TtlPolicy) (created_at : Option ℕ) where
  -- An attempt is only lost to a burst.
  fewer :
      (w : Contended K V) (n : ℕ)
      → length w.bursts < suc n
      → same_version (lookup key (interrupt w).shared.version) (lookup key w.shared.version) ≡ false
      → length (interrupt w).bursts < n
  unfolding interrupt
  fewer w n = go w.bursts
    where
      go :
          (bs : List (List (K × Change V)))
          → length bs < suc n
          → same_version
              (lookup key
                (elim bs as (λ _. Contended K V) [
                  | [] ↦ w
                  | b ∷ rest ↦ record { shared = others_make b w.shared; bursts = rest }
                ]).shared.version)
              (lookup key w.shared.version)
            ≡ false
          → length
              (elim bs as (λ _. Contended K V) [
                | [] ↦ w
                | b ∷ rest ↦ record { shared = others_make b w.shared; bursts = rest }
              ]).bursts
            < n
      go [] few lost =
          absurd (true-false (sym (same_version_refl (lookup key w.shared.version)) ∙ lost))
      go (b ∷ bs) few lost = omega (arith, few)

  -- What is done is told.
  done_told :
      (n : ℕ) (w u : Contended K V) (held : Dict K V)
      → tries key decide ttl created_at w ≡ (ok (held, []), u)
      → (from_attempt key decide ttl created_at (suc n) w).0 ≢ ok none
  done_told n w u held t raised = some-none (
      ok-injective
        (ap (λ r. r.0) (sym (attempt-done key decide ttl created_at n w u held t)) ∙ raised))

  lost_told :
      (n : ℕ) (w : Contended K V)
      → tries key decide ttl created_at w ≡ (ok ([], key ∷ []), interrupt w)
      → (from_attempt key decide ttl created_at n (interrupt w)).0 ≢ ok none
      → (from_attempt key decide ttl created_at (suc n) w).0 ≢ ok none
  lost_told n w t later raised =
      later
        (ap (λ r. r.0) (sym (attempt-lost key decide ttl created_at n w (interrupt w) t)) ∙ raised)

  from_attempt-told :
      (n : ℕ) (w : Contended K V)
      → IsValid w.shared
      → length w.bursts < n
      → (from_attempt key decide ttl created_at n w).0 ≢ ok none
  from_attempt-told zero w h few = absurd (omega (arith, few))
  from_attempt-told (suc n) w h few =
      go (decision_at key decide ttl created_at w.shared) refl
        (Bool-cases
          (same_version (lookup key (interrupt w).shared.version) (lookup key w.shared.version)))
        (Bool-cases (is_none (lookup key w.shared.version)))
        (λ lost. from_attempt-told n (interrupt w) valid (fewer w n few lost))
    where
      valid : IsValid (interrupt w).shared
      valid = Evolves-IsValid (interrupt-Evolves w here) h

      go :
          (d : Decision V)
          → decision_at key decide ttl created_at w.shared ≡ d
          → (same_version (lookup key (interrupt w).shared.version) (lookup key w.shared.version)
              ≡ true)
            ⊎ (same_version (lookup key (interrupt w).shared.version) (lookup key w.shared.version)
                ≡ false)
          → (is_none (lookup key w.shared.version) ≡ true)
            ⊎ (is_none (lookup key w.shared.version) ≡ false)
          → (same_version (lookup key (interrupt w).shared.version) (lookup key w.shared.version)
                ≡ false
              → (from_attempt key decide ttl created_at n (interrupt w)).0 ≢ ok none)
          → (from_attempt key decide ttl created_at (suc n) w).0 ≢ ok none
      go keep d s a later = done_told n w w _ (tries_keep key decide ttl created_at w h d)
      go (change (put v)) d (inl s) a later =
          done_told n w (record (interrupt w) { shared = set key v (interrupt w).shared })
            ((key, v) ∷ []) (tries_put key decide ttl created_at w v h d ∙ ground (arith, s))
      go (change (put v)) d (inr s) a later =
          lost_told n w (tries_put key decide ttl created_at w v h d ∙ ground (arith, s)) (later s)
      go (change remove) d s (inl a) later =
          done_told n w w []
            (tries_remove key decide ttl created_at w h valid d ∙ ground (arith, a))
      go (change remove) d (inl s) (inr a) later =
          done_told n w (record (interrupt w) { shared = (delete key (interrupt w).shared).1 }) []
            (tries_remove key decide ttl created_at w h valid d ∙ ground (arith, s, a))
      go (change remove) d (inr s) (inr a) later =
          lost_told n w (tries_remove key decide ttl created_at w h valid d ∙ ground (arith, s, a))
            (later s)

  update-from_attempt :
      (attempts : ℕ) (w : Contended K V)
      → 0 < attempts
      → from_attempt key decide ttl created_at attempts w
        ≡ update contended key decide ttl created_at attempts w
  unfolding update batch_update dedup dedup_from from_attempt
  update-from_attempt attempts w some_given = ground (arith, some_given)

  -- On a valid map, with more attempts than the others have bursts of changes left to make before
  -- its conditional writes, `update` does not raise `KvStoreConflict`: it takes effect at once on
  -- the map that some of the others' bursts alone leave of the first one, nothing else happens, and
  -- it answers what the entry holds.
  pub update-TakesEffect :
      (attempts : ℕ) (w : Contended K V)
      → length w.bursts < attempts
      → IsValid w.shared
      → TakesEffect key decide ttl created_at attempts w
          (update contended key decide ttl created_at attempts w)
  update-TakesEffect attempts w few h =
      elim (update-Linear key decide ttl created_at attempts w (omega (arith, few)) h) [
        | inl effect ↦ effect
        | inr lost ↦ absurd (
            from_attempt-told attempts w h few
              (ap (λ r. r.0) (update-from_attempt attempts w (omega (arith, few)) ∙ lost)))
      ]
