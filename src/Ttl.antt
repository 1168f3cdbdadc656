-- ===== src/Ttl.antt =====
-- src/kvtsjl/store/schema/ttl.py: retention policies, and the refusal of options that a backend
-- cannot keep. A `timedelta` is a number of microseconds; a negative one, which `ttl_seconds`
-- takes to 1 as it takes 0, is not modelled.
pub mod Laws
mod Tests
use kvtsjl.Prelude.{ℕ, ◌*◌, ◌/◌, max, Bool, not, ◌&&◌, is_some, Option, none, some, if◌then◌else◌}
use kvtsjl.Errors.{Result, ok, raise, ttl_unsupported}

pub record TtlPolicy : Type 0 where
  pub ttl_duration : Option ℕ

pub data ExpiryGc : Type 0 where
  lazy_delete hide : ExpiryGc

abbrev pub second : ℕ
second = 1000000

abbrev pub no_expiry : TtlPolicy
no_expiry = record { ttl_duration = none }

abbrev pub hourly : TtlPolicy
hourly = record { ttl_duration = some (3600 * second) }

abbrev pub daily : TtlPolicy
daily = record { ttl_duration = some (24 * 3600 * second) }

abbrev pub weekly : TtlPolicy
weekly = record { ttl_duration = some (7 * 24 * 3600 * second) }

abbrev pub monthly : TtlPolicy
monthly = record { ttl_duration = some (30 * 24 * 3600 * second) }

unfoldable pub ttl_seconds : TtlPolicy → Option ℕ
ttl_seconds p = elim p.ttl_duration [ none ↦ none | some d ↦ some (max 1 (d / second)) ]

unfoldable pub require_explicit_ttl_supported : Option TtlPolicy → Bool → Result (Unit {0})
require_explicit_ttl_supported ttl allowed =
    if is_some ttl && not allowed then raise ttl_unsupported else ok tt

unfoldable pub require_write_clock_supported : Option ℕ → Bool → Result (Unit {0})
require_write_clock_supported created_at allowed =
    if is_some created_at && not allowed then raise ttl_unsupported else ok tt
