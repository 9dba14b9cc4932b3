-- ===== src/Trace.antt =====
-- crates/clash-prism-core/src/trace.rs: the records of what an execution did, and their manager. A
-- `u64` or `usize` here counts items and microseconds, so it stays far below 2 ^ 64.
pub mod Statistics
pub mod Manager
pub mod Replay
mod Examples
use clash_prism_engine.Base.{
  ℕ, zero, suc, ◌+◌, ◌/◌, String, Bool, true, false, Option, none, some, List, [], ◌∷◌, ◌++◌,
  if◌then◌else◌, ltb, eqb, length, Outcome, ok, err, string_eq,
}
use clash_prism_engine.Base.HashMap.{HashMap, insert}
use clash_prism_engine.Ir.{PatchId, PatchSource, PatchOp, Patch}

pub data TraceAction : Type 0 where
  added removed modified : TraceAction

pub record AffectedItem : Type 0 where
  pub index : ℕ
  pub before : Option String
  pub after : Option String
  pub action : TraceAction

abbrev pub item_added : ℕ → String → AffectedItem
item_added index description = record {
  index = index;
  before = none;
  after = some description;
  action = added;
}

abbrev pub item_removed : ℕ → String → AffectedItem
item_removed index description = record {
  index = index;
  before = some description;
  after = none;
  action = removed;
}

abbrev pub item_modified : ℕ → String → String → AffectedItem
item_modified index before after = record {
  index = index;
  before = some before;
  after = some after;
  action = modified;
}

pub record TraceSummary : Type 0 where
  pub added : ℕ
  pub removed : ℕ
  pub modified : ℕ
  pub kept : ℕ
  pub total_before : ℕ
  pub total_after : ℕ

abbrev pub summary_new : ℕ → ℕ → ℕ → ℕ → ℕ → ℕ → TraceSummary
summary_new a r m k before after = record {
  added = a;
  removed = r;
  modified = m;
  kept = k;
  total_before = before;
  total_after = after;
}

pub record ExecutionTrace : Type 0 where
  pub patch_id : PatchId
  pub source : PatchSource
  pub op : PatchOp
  pub duration_us : ℕ
  pub condition_matched : Bool
  pub summary : TraceSummary
  pub affected_items : List AffectedItem
  pub bulk_items : Option (List String)

-- `ExecutionTrace::new`.
abbrev pub trace_new :
    PatchId → PatchSource → PatchOp → ℕ → Bool → TraceSummary → List AffectedItem → ExecutionTrace
trace_new id source op duration matched summary items = record {
  patch_id = id;
  source = source;
  op = op;
  duration_us = duration;
  condition_matched = matched;
  summary = summary;
  affected_items = items;
  bulk_items = none;
}

abbrev pub with_bulk_items :
    PatchId
    → PatchSource
    → PatchOp
    → ℕ
    → Bool
    → TraceSummary
    → List AffectedItem
    → List String
    → ExecutionTrace
with_bulk_items id source op duration matched summary items bulk =
    record (trace_new id source op duration matched summary items) { bulk_items = some bulk }

pub record TraceStatistics : Type 0 where
  pub total_patches : ℕ
  pub succeeded : ℕ
  pub skipped : ℕ
  pub total_added : ℕ
  pub total_removed : ℕ
  pub total_modified : ℕ
  pub total_duration_us : ℕ
  pub avg_duration_us : ℕ

-- One round of the loop of `statistics`.
unfoldable pub count_trace : TraceStatistics → ExecutionTrace → TraceStatistics
count_trace stats t = record stats {
  succeeded = if t.condition_matched then suc stats.succeeded else stats.succeeded;
  skipped = if t.condition_matched then stats.skipped else suc stats.skipped;
  total_added = stats.total_added + t.summary.added;
  total_removed = stats.total_removed + t.summary.removed;
  total_modified = stats.total_modified + t.summary.modified;
  total_duration_us = stats.total_duration_us + t.duration_us;
}

unfoldable pub count_traces : TraceStatistics → List ExecutionTrace → TraceStatistics
count_traces stats [] = stats
count_traces stats (t ∷ ts) = count_traces (count_trace stats t) ts

pub statistics : List ExecutionTrace → TraceStatistics
statistics traces =
    let start : TraceStatistics = record {
      total_patches = length traces;
      succeeded = 0;
      skipped = 0;
      total_added = 0;
      total_removed = 0;
      total_modified = 0;
      total_duration_us = 0;
      avg_duration_us = 0;
    } in
    let stats = count_traces start traces in
    if ltb 0 stats.succeeded
    then record stats { avg_duration_us = stats.total_duration_us / stats.succeeded }
    else stats
