-- ===== src/Plugin/Cooldown.antt =====
-- crates/clash-prism-plugin/src/failover.rs: the cooldown states of plugins. Instants and durations
-- are numbers of nanoseconds; each reading of a clock is an argument.
pub mod Clocks
mod Examples
use clash_prism_engine.Base.{
  ℕ, ◌+◌, ◌-◌, ◌*◌, ◌/◌, ◌%◌, ◌^◌, ◌≤◌, ◌≡◌, Bool, true, false, Option, none, some, ltb, leb,
  if◌then◌else◌,
}

pub record CooldownState : Type 0 where
  pub start : ℕ
  pub duration : ℕ

-- `as_millis() as u64`.
pub millis : ℕ → ℕ
millis ns = ns / 1_000_000 % 2 ^ 64

-- `Instant::elapsed` saturates at zero.
pub is_expired : CooldownState → ℕ → Bool
is_expired s now = leb s.duration (now - s.start)

-- `now` is the reading of the clock in `is_expired`, and `later` the one after it. A subtraction of
-- durations that would be negative panics: none.
pub remaining_ms : CooldownState → (now later : ℕ) → Option ℕ
remaining_ms s now later =
    if is_expired s now
    then some 0
    else if ltb s.duration (later - s.start)
    then none
    else some (millis (s.duration - (later - s.start)))

-- A start on the system clock, counted from a time before every reading.
pub record CooldownStateSerializable : Type 0 where
  pub start : ℕ
  pub duration : ℕ

-- `SystemTime::elapsed` fails where the start lies in the future.
pub system_elapsed : ℕ → ℕ → Option ℕ
system_elapsed start now = if leb start now then some (now - start) else none

pub from_instant : CooldownState → (now system_now : ℕ) → CooldownStateSerializable
from_instant s now system_now = record {
  start = system_now - (now - s.start);
  duration = s.duration;
}

pub serializable_is_expired : CooldownStateSerializable → ℕ → Bool
serializable_is_expired s now = elim (system_elapsed s.start now) [
  | some elapsed ↦ leb s.duration elapsed
  | none ↦ true
]

-- `saturating_sub` stops at zero.
pub serializable_remaining_ms : CooldownStateSerializable → (now later : ℕ) → ℕ
serializable_remaining_ms s now later =
    if serializable_is_expired s now then 0 else elim (system_elapsed s.start later) [
      | some elapsed ↦ millis (s.duration - elapsed)
      | none ↦ 0
    ]
