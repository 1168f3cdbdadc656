-- ===== src/Ttl/Tests.antt =====
-- A run of src/kvtsjl/store/schema/ttl.py, and its theorem at it.
use kvtsjl.Prelude.{ℕ, ◌+◌, ◌*◌, ◌≤◌, ◌<◌, ◌≡◌, some, max}
use kvtsjl.Ttl.{hourly, second, ttl_seconds}
use kvtsjl.Ttl.Laws.{ttl_seconds-AreSeconds}

ttl_seconds-AreSeconds_example :
    (s : ℕ) × (ttl_seconds hourly ≡ some s)
    × (1 ≤ s)
    × (s * second ≤ max (3600 * second) second)
    × (3600 * second < (s + 1) * second)
ttl_seconds-AreSeconds_example = ttl_seconds-AreSeconds hourly
