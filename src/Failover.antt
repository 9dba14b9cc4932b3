-- ===== src/Failover.antt =====
-- crates/clash-prism-core/src/failover.rs: the failover tracker of a proxy group. Instants and
-- durations are numbers of nanoseconds; a report takes the current instant as an argument.
pub mod Switching
mod Examples
use clash_prism_engine.Base.{
  ℕ, suc, ◌+◌, ◌-◌, ◌*◌, ◌/◌, ◌%◌, ◌^◌, String, Bool, true, false, not, ◌&&◌, Option, none, some,
  List, [], ◌∷◌, ◌++◌, ltb, leb, eqb, if◌then◌else◌, ◌==◌, string_eq, contains, without, length,
  take,
}
use clash_prism_engine.Base.HashMap
use clash_prism_engine.Base.HashMap.{HashMap}

-- `threshold` is a `u32`.
pub record NodeFailPolicy : Type 0 where
  pub threshold : ℕ
  pub fallback_group : String
  pub cooldown : ℕ
  pub enabled : Bool

abbrev pub second : ℕ
second = 1_000_000_000

pub default_policy : NodeFailPolicy
default_policy = record {
  threshold = 3;
  fallback_group = "next";
  cooldown = 30 * second;
  enabled = true;
}

pub with_threshold : NodeFailPolicy → ℕ → NodeFailPolicy
with_threshold p threshold = record p { threshold = threshold }

pub with_cooldown : NodeFailPolicy → ℕ → NodeFailPolicy
with_cooldown p secs = record p { cooldown = secs * second }

pub with_fallback : NodeFailPolicy → String → NodeFailPolicy
with_fallback p group = record p { fallback_group = group }

pub record FailoverTracker : Type 0 where
  pub policy : NodeFailPolicy
  pub failure_counts : HashMap String ℕ
  pub last_switch : HashMap String ℕ
  pub access_order : List String
  pub group_last_switch : Option ℕ

pub record FailoverAction : Type 0 where
  pub failed_node : String
  pub failure_count : ℕ
  pub target : String

pub new : NodeFailPolicy → FailoverTracker
new policy = record {
  policy = policy;
  failure_counts = [];
  last_switch = [];
  access_order = [];
  group_last_switch = none;
}

-- The branch of a successful connection.
pub report_success : FailoverTracker → String → FailoverTracker
report_success t node_name = record t {
  failure_counts = HashMap.insert node_name 0 t.failure_counts;
  access_order = without node_name t.access_order ++ node_name ∷ [];
}

-- The nodes with count 0, in the iteration order of the map.
pub zero_counts : HashMap String ℕ → List String
zero_counts [] = []
zero_counts ((k, v) ∷ m) = if eqb v 0 then k ∷ zero_counts m else zero_counts m

pub remove_all : List String → HashMap String ℕ → HashMap String ℕ
remove_all [] m = m
remove_all (k ∷ ks) m = remove_all ks (HashMap.remove k m)

-- `access_order.retain(|k| !evict_set.contains(k))`.
pub without_all : List String → List String → List String
without_all [] order = order
without_all (k ∷ ks) order = without_all ks (without k order)

pub victims : FailoverTracker → List String
victims t =
    let evict_count = length t.failure_counts / 10 in
    elim (take evict_count (zero_counts t.failure_counts)) [
      | [] ↦ take evict_count t.access_order
      | k ∷ ks ↦ k ∷ ks
    ]

pub evict : FailoverTracker → FailoverTracker
evict t = record t {
  failure_counts = remove_all (victims t) t.failure_counts;
  last_switch = remove_all (victims t) t.last_switch;
  access_order = without_all (victims t) t.access_order;
}

abbrev pub capacity : ℕ
capacity = 100000

pub evict_if_full : FailoverTracker → FailoverTracker
evict_if_full t = if ltb capacity (length t.failure_counts) then evict t else t

-- The order of first insertions.
pub track : FailoverTracker → String → FailoverTracker
track t node_name =
    if HashMap.contains_key node_name t.failure_counts
    then t
    else record t { access_order = t.access_order ++ node_name ∷ [] }

-- `*entry += 1` on a `u32`; a release build wraps round.
pub increment : ℕ → ℕ
increment n = (n + 1) % 2 ^ 32

-- `duration_since` saturates at zero.
pub is_cooling : ℕ → ℕ → Option ℕ → Bool
is_cooling cooldown now none = false
is_cooling cooldown now (some switch_time) = ltb (now - switch_time) cooldown

pub switch : FailoverTracker → ℕ → String → ℕ → FailoverTracker × Option FailoverAction
switch t now node_name count = (
  record t {
    failure_counts = HashMap.insert node_name 0 t.failure_counts;
    last_switch = HashMap.insert node_name now t.last_switch;
    group_last_switch = some now;
  },
  some
      (record { failed_node = node_name; failure_count = count; target = t.policy.fallback_group }),
)

-- From the test of the threshold on.
pub decide_switch : FailoverTracker → ℕ → String → ℕ → FailoverTracker × Option FailoverAction
decide_switch t now node_name count =
    if leb t.policy.threshold count
    then if is_cooling t.policy.cooldown now t.group_last_switch
      then (t, none)
      else if is_cooling t.policy.cooldown now (HashMap.get node_name t.last_switch)
      then (t, none)
      else switch t now node_name count
    else (t, none)

-- The branch of a failed connection.
pub report_failure : FailoverTracker → ℕ → String → FailoverTracker × Option FailoverAction
report_failure t now node_name =
    let kept = evict_if_full (track t node_name) in
    let count = increment (HashMap.get_or 0 node_name kept.failure_counts) in
    decide_switch
      (record kept { failure_counts = HashMap.insert node_name count kept.failure_counts }) now
      node_name count

pub report : FailoverTracker → ℕ → String → Bool → FailoverTracker × Option FailoverAction
report t now node_name success =
    if t.policy.enabled
    then if success then (report_success t node_name, none) else report_failure t now node_name
    else (t, none)

pub failure_count : FailoverTracker → String → ℕ
failure_count t node_name = HashMap.get_or 0 node_name t.failure_counts

pub reset_all : FailoverTracker → FailoverTracker
reset_all t = record t {
  failure_counts = [];
  last_switch = [];
  access_order = [];
  group_last_switch = none;
}
