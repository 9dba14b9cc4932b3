-- ===== src/Plugin/Cooldown/Examples.antt =====
-- The theorems about cooldown states at concrete readings.
use clash_prism_engine.Base.{ℕ, ◌+◌, ◌-◌, ◌≤◌, ◌≡◌, some, arith}
use clash_prism_engine.Plugin.Cooldown.{
  CooldownState, is_expired, remaining_ms, from_instant, serializable_is_expired,
  serializable_remaining_ms,
}
use clash_prism_engine.Plugin.Cooldown.Clocks.{from_instant_lem}

abbrev cooling : CooldownState
cooling = record { start = 1_000_000; duration = 5_000_000 }

started : cooling.start ≤ 2_000_000
started = omega arith

recent : 2_000_000 - cooling.start ≤ 9_000_000
recent = omega arith

from_instant_lem_example :
    let t = from_instant cooling 2_000_000 9_000_000 in
    (serializable_is_expired t (9_000_000 + 10) ≡ is_expired cooling (2_000_000 + 10))
    × ((ms : ℕ)
        → remaining_ms cooling (2_000_000 + 10) (2_000_000 + 20) ≡ some ms
        → serializable_remaining_ms t (9_000_000 + 10) (9_000_000 + 20) ≡ ms)
from_instant_lem_example = from_instant_lem cooling 2_000_000 9_000_000 10 20 started recent
