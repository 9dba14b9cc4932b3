-- ===== src/Failover/Examples.antt =====
-- The theorems about the failover tracker at a concrete history.
use clash_prism_engine.Base.{ℕ, ◌≡◌, ◌*◌, refl, false, none, List, [], ◌∷◌, string_eq, without}
use clash_prism_engine.Base.HashMap
use clash_prism_engine.Failover.{
  FailoverTracker, FailoverAction, default_policy, report, report_success, report_failure,
  decide_switch, switch, is_cooling, track, evict_if_full, increment, failure_count, new, second,
}
use clash_prism_engine.Failover.Switching.{
  Report, switches, add_switch, IsSpaced, switches-IsSpaced,
}

program : Unit {0}
unfolding report report_success report_failure decide_switch switch is_cooling track evict_if_full
    increment failure_count new default_policy switches add_switch HashMap.get HashMap.insert
    HashMap.contains_key without
program = tt

abbrev failing : ℕ → Report
failing n = record { now = n * second; node_name = "hk"; success = false }

abbrev history : List Report
history = failing 1 ∷ failing 2 ∷ failing 3 ∷ failing 4 ∷ failing 5 ∷ failing 6 ∷ failing 40 ∷ []

two_switches : switches (new default_policy) history ≡ 3 * second ∷ 40 * second ∷ []
unfolding program
two_switches = refl

switches-IsSpaced_example :
    IsSpaced default_policy.cooldown none (switches (new default_policy) history)
switches-IsSpaced_example = switches-IsSpaced default_policy history

abbrev failed : FailoverTracker
failed = (report (report (new default_policy) second "hk" false).0 (2 * second) "hk" false).0

abbrev action : FailoverAction
action = record { failed_node = "hk"; failure_count = 3; target = "next" }
