-- ===== src/Failover/Switching.antt =====
-- When the tracker switches nodes, and what the failure counts are.
use mathlib.Core.Path.{subst₂}
use clash_prism_engine.Base.{
  ap, ℕ, ◌-◌, ◌≤◌, ◌≡◌, refl, String, Bool, true, false, Option, none, some, List, [], ◌∷◌, arith,
  if◌then◌else◌, ◌==◌, string_eq, eq_iff, length,
}
use clash_prism_engine.Base.HashMap
use clash_prism_engine.Base.HashMap.{get-insert}
use clash_prism_engine.Failover.{
  NodeFailPolicy, FailoverTracker, FailoverAction, report, report_success, report_failure,
  decide_switch, switch, is_cooling, track, evict_if_full, evict, capacity, increment,
  failure_count, new,
}

pub record Report : Type 0 where
  pub now : ℕ
  pub node_name : String
  pub success : Bool

-- The instant of a report that triggers a switch, before the later ones.
unfoldable pub add_switch : Option FailoverAction → ℕ → List ℕ → List ℕ
add_switch none now later = later
add_switch (some a) now later = now ∷ later

-- The instants of the switches that a sequence of reports triggers.
unfoldable pub switches : FailoverTracker → List Report → List ℕ
switches t [] = []
switches t (r ∷ rs) =
    let reported = report t r.now r.node_name r.success in
    add_switch reported.1 r.now (switches reported.0 rs)

-- Each instant is at least `cooldown` after the one before it.
abbrev pub IsSpaced : ℕ → Option ℕ → List ℕ → Type 0
IsSpaced cooldown last [] = Unit
IsSpaced cooldown none (x ∷ xs) = IsSpaced cooldown (some x) xs
IsSpaced cooldown (some last) (x ∷ xs) = (cooldown ≤ x - last) × IsSpaced cooldown (some x) xs

-- What one report does to the policy and to the group's last switch.
record Cooled (t : FailoverTracker) (now : ℕ) (t' : FailoverTracker)
    (action : Option FailoverAction) : Type 0 where
  policy : t'.policy ≡ t.policy
  idle : action ≡ none → t'.group_last_switch ≡ t.group_last_switch
  acted : (a : FailoverAction) → action ≡ some a → t'.group_last_switch ≡ some now
  waited :
      (a : FailoverAction) (last : ℕ)
      → action ≡ some a
      → t.group_last_switch ≡ some last
      → t.policy.cooldown ≤ now - last

evict_if_full-policy : (t : FailoverTracker) → (evict_if_full t).policy ≡ t.policy
unfolding evict_if_full evict
evict_if_full-policy t = ground arith

evict_if_full-group :
    (t : FailoverTracker) → (evict_if_full t).group_last_switch ≡ t.group_last_switch
unfolding evict_if_full evict
evict_if_full-group t = ground arith

report-Cooled :
    (t : FailoverTracker) (now : ℕ) (n : String) (s : Bool)
    → Cooled t now (report t now n s).0 (report t now n s).1
unfolding report report_success report_failure decide_switch switch is_cooling track
report-Cooled t now n s =
    let p = evict_if_full-policy (track t n) in
    let g = evict_if_full-group (track t n) in
    record {
      policy = ground (arith, p);
      idle = ground (arith, g);
      acted = ground arith;
      waited = ground (arith, p, g);
    }

IsSpaced-cons :
    (cooldown : ℕ) (last : Option ℕ) (now : ℕ) (xs : List ℕ)
    → ((l : ℕ) → last ≡ some l → cooldown ≤ now - l)
    → IsSpaced cooldown (some now) xs
    → IsSpaced cooldown last (now ∷ xs)
IsSpaced-cons cooldown none now xs w h = h
IsSpaced-cons cooldown (some l) now xs w h = (w l refl, h)

IsSpaced-add_switch :
    (t t' : FailoverTracker) (now : ℕ) (action : Option FailoverAction) (later : List ℕ)
    → Cooled t now t' action
    → IsSpaced t'.policy.cooldown t'.group_last_switch later
    → IsSpaced t.policy.cooldown t.group_last_switch (add_switch action now later)
unfolding add_switch
IsSpaced-add_switch t t' now none later c h =
    subst₂ (λ p g. IsSpaced p g later) (ap (λ p. p.cooldown) c.policy) (c.idle refl) h
IsSpaced-add_switch t t' now (some a) later c h =
    IsSpaced-cons t.policy.cooldown t.group_last_switch now later (λ l. c.waited a l refl)
      (subst₂ (λ p g. IsSpaced p g later) (ap (λ p. p.cooldown) c.policy) (c.acted a refl) h)

switches-IsSpaced_from :
    (t : FailoverTracker) (rs : List Report)
    → IsSpaced t.policy.cooldown t.group_last_switch (switches t rs)
unfolding switches
switches-IsSpaced_from t [] = tt
switches-IsSpaced_from t (r ∷ rs) =
    let reported = report t r.now r.node_name r.success in
    IsSpaced-add_switch t reported.0 r.now reported.1 (switches reported.0 rs)
      (report-Cooled t r.now r.node_name r.success) (switches-IsSpaced_from reported.0 rs)

-- Whatever is reported and when, from a new tracker on: each switch of the group comes at least the
-- policy's cooldown after the switch before it.
pub switches-IsSpaced :
    (policy : NodeFailPolicy) (rs : List Report)
    → IsSpaced policy.cooldown none (switches (new policy) rs)
unfolding new
switches-IsSpaced policy rs = switches-IsSpaced_from (new policy) rs

-- Below the capacity, a report changes the count of its own node alone: a success sets it to 0, a
-- failure adds 1 (modulo 2 ^ 32) unless it triggers a switch, which sets it to 0; a disabled
-- tracker changes nothing.
pub failure_count-report :
    (t : FailoverTracker) (now : ℕ) (n m : String) (s : Bool)
    → length t.failure_counts ≤ capacity
    → failure_count (report t now n s).0 m ≡ (
        if t.policy.enabled
        then if n == m
          then if s
            then 0
            else elim (report t now n s).1 [ none ↦ increment (failure_count t n) | some a ↦ 0 ]
          else failure_count t m
        else failure_count t m)
unfolding report report_success report_failure decide_switch switch track evict_if_full
    failure_count
failure_count-report t now n m s h =
    let fc = t.failure_counts in
    let c = increment (HashMap.get_or 0 n fc) in
    ground (
      arith,
      get-insert n m c fc,
      get-insert n m 0 (HashMap.insert n c fc),
      get-insert n m 0 fc,
      eq_iff n m,
    )

-- Below the capacity, a switch is triggered only by a failure, on an enabled tracker; it names the
-- node and the fallback group of the policy, and the count it reports, one more than before, has
-- reached the threshold.
pub report_switch :
    (t : FailoverTracker) (now : ℕ) (n : String) (s : Bool) (a : FailoverAction)
    → length t.failure_counts ≤ capacity
    → (report t now n s).1 ≡ some a
    → (t.policy.enabled ≡ true)
      × (s ≡ false)
      × (a.failed_node ≡ n)
      × (a.target ≡ t.policy.fallback_group)
      × (a.failure_count ≡ increment (failure_count t n))
      × (t.policy.threshold ≤ a.failure_count)
unfolding report report_failure decide_switch switch track evict_if_full failure_count
report_switch t now n s a h e = ground arith
