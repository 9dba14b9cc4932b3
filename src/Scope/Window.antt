-- ===== src/Scope/Window.antt =====
-- Time ranges on the clock of a day.
use clash_prism_engine.Base.{ℕ, ◌+◌, ◌-◌, ◌*◌, ◌%◌, ◌≤◌, ◌<◌, ◌≡◌, ◌≢◌, ◌↔◌, true, arith}
use clash_prism_engine.Scope.{TimeRange, contains}

abbrev pub minutes : ℕ × ℕ → ℕ
minutes t = t.0 * 60 + t.1

-- How many minutes after `a` the clock shows `b`.
abbrev pub after : ℕ → ℕ → ℕ
after a b = (b + 1440 - a) % 1440

-- What `parse_time` lets through.
pub record IsTime (t : ℕ × ℕ) : Type 0 where
  pub hour : t.0 < 24
  pub minute : t.1 < 60

-- A range whose ends differ contains a minute of the day exactly when the clock, started at the
-- beginning of the range, shows this minute no later than the end of the range; both ends count,
-- and a range may run over midnight.
pub contains_iff :
    (r : TimeRange) (m : ℕ)
    → IsTime r.start
    → IsTime r.end
    → m < 1440
    → minutes r.start ≢ minutes r.end
    → (contains r m ≡ true) ↔ (after (minutes r.start) m ≤ after (minutes r.start) (minutes r.end))
unfolding contains
contains_iff r m s e h n = ground arith
