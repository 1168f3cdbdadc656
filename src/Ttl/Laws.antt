-- ===== src/Ttl/Laws.antt =====
-- The seconds of a retention policy of src/kvtsjl/store/schema/ttl.py.
use kvtsjl.Prelude.{ℕ, ◌+◌, ◌*◌, ◌≤◌, ◌<◌, ◌/◌, ◌≡◌, refl, Option, none, some, max, arith}
use kvtsjl.Ttl.{TtlPolicy, second, ttl_seconds}

-- What the seconds of a policy are to be: none without a duration; else at least 1, and but for that
-- the longest whole number of seconds within the duration.
abbrev pub AreSeconds : Option ℕ → Option ℕ → Type 0
AreSeconds none seconds = seconds ≡ none
AreSeconds (some d) seconds =
    (s : ℕ) × (seconds ≡ some s) × (1 ≤ s) × (s * second ≤ max d second) × (d < (s + 1) * second)

-- A policy has no seconds if it has no duration; else they are at least 1, and but for that the
-- longest whole number of seconds within the duration.
pub ttl_seconds-AreSeconds : (p : TtlPolicy) → AreSeconds p.ttl_duration (ttl_seconds p)
unfolding ttl_seconds
ttl_seconds-AreSeconds p = go p.ttl_duration
  where
    go : (o : Option ℕ) → AreSeconds o (elim o [ none ↦ none | some d ↦ some (max 1 (d / second)) ])
    go none = refl
    go (some d) = (max 1 (d / second), refl, omega arith, omega arith, omega arith)
