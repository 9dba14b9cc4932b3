-- ===== src/Scope/Examples.antt =====
-- The theorems about time ranges at a range over midnight.
use clash_prism_engine.Base.{◌≡◌, ◌≤◌, ◌↔◌, true, arith}
use clash_prism_engine.Scope.{TimeRange, contains}
use clash_prism_engine.Scope.Window.{minutes, after, contains_iff}

-- 23:00 to 07:00.
abbrev night : TimeRange
night = record { start = (23, 0); end = (7, 0) }

contains_iff_example :
    (contains night 120 ≡ true)
    ↔ (after (minutes night.start) 120 ≤ after (minutes night.start) (minutes night.end))
contains_iff_example =
    contains_iff night 120 (omega arith) (omega arith) (omega arith) (omega arith)
