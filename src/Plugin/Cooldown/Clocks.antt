-- ===== src/Plugin/Cooldown/Clocks.antt =====
-- How the two kinds of cooldown states answer as their clocks go on.
use clash_prism_engine.Base.{ℕ, ◌+◌, ◌-◌, ◌≤◌, ◌≡◌, some, arith}
use clash_prism_engine.Plugin.Cooldown.{
  CooldownState, is_expired, remaining_ms, system_elapsed, from_instant, serializable_is_expired,
  serializable_remaining_ms,
}

-- A state that is converted, at a moment from the start on, expires after the same further time on
-- the system clock as on the first one; and where the first one gives a remaining time, the other
-- gives the same.
pub from_instant_lem :
    (s : CooldownState) (now system_now d e : ℕ)
    → s.start ≤ now
    → now - s.start ≤ system_now
    → let t = from_instant s now system_now in
      (serializable_is_expired t (system_now + d) ≡ is_expired s (now + d))
      × ((ms : ℕ)
          → remaining_ms s (now + d) (now + e) ≡ some ms
          → serializable_remaining_ms t (system_now + d) (system_now + e) ≡ ms)
unfolding remaining_ms is_expired from_instant serializable_is_expired serializable_remaining_ms
    system_elapsed
from_instant_lem s now system_now d e h k = (ground arith, λ ms r. ground arith)
