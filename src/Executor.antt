-- ===== src/Executor.antt =====
-- crates/clash-prism-core/src/executor.rs: the executor of patches on a configuration. A function
-- that mutates the configuration gives the new one with its trace. Nothing here fails: each `Result`
-- of the source is an `Ok`. The evaluator of expressions and the printer of JSON are parameters, and
-- so is the clock.
pub mod Guard
pub mod Condition
pub mod RegexCache
pub mod Expr
pub mod Arrays
pub mod Maps
pub mod Validation
pub mod Pipeline
mod Examples
use Prim.Native.String
use clash_prism_engine.Base.{
  ℕ, suc, ◌+◌, String, Bool, true, false, Option, none, some, List, [], ◌∷◌, ◌++◌, if◌then◌else◌,
  leb, length, map,
}
use clash_prism_engine.Base.Text.{decimal}
use clash_prism_engine.Json.{Value, array, as_str, get, to_list}
use clash_prism_engine.Ir.{Patch}
use clash_prism_engine.Trace.{
  AffectedItem, item_added, TraceSummary, summary_new, ExecutionTrace, trace_new, with_bulk_items,
}

-- What stands for `evaluate_predicate`, `evaluate_transform_expr` and `serde_json::to_string`, with
-- no result for an error.
pub record Evaluator (N : Type 0) : Type 0 where
  pub predicate : String → Value N → Option Bool
  pub transform : String → Value N → Option (Value N)
  pub to_string : Value N → Option String

abbrev pub trace_summary_threshold : ℕ
trace_summary_threshold = 100

abbrev pub no_change : TraceSummary
no_change = summary_new 0 0 0 0 0 0

module _ {N : Type 0} where
  -- `item.get("name").and_then(|v| v.as_str())`.
  pub name_of : Value N → Option String
  name_of item = elim (get "name" item) [ none ↦ none | some v ↦ as_str v ]

  pub name_or : String → Value N → String
  unfolding name_of
  name_or other item = elim (name_of item) [ none ↦ other | some s ↦ s ]

  pub extract_item_description : Evaluator N → Value N → String
  extract_item_description ev item = elim (as_str item) [
    | some s ↦ s
    | none ↦ elim (name_of item) [
      | some s ↦ s
      | none ↦ elim (ev.to_string item) [ some s ↦ s | none ↦ "$item" ]
    ]
  ]

  -- An item behind its transformation, or as it was where that fails.
  pub transform_or_keep : Evaluator N → String → Value N → Value N
  transform_or_keep ev expr item = elim (ev.transform expr item) [ none ↦ item | some y ↦ y ]

  -- An array's items, or the value alone.
  pub items_of : Value N → List (Value N)
  items_of (array xs) = to_list xs
  items_of v = v ∷ []

  -- The trace of a patch that ran, without affected items.
  unfoldable pub trace_of :
      Patch (Value N) → Bool → TraceSummary → List AffectedItem → ExecutionTrace
  trace_of patch matched summary affected =
      trace_new patch.id patch.source patch.op 0 matched summary affected

  unfoldable pub added_items : Evaluator N → ℕ → List (Value N) → List AffectedItem
  added_items ev i [] = []
  added_items ev i (x ∷ xs) =
      item_added i (extract_item_description ev x) ∷ added_items ev (suc i) xs

  -- The trace of an insertion of items from an index on: one summary item for 100 items or more.
  pub insertion_trace :
      Evaluator N → Patch (Value N) → ℕ → String → List (Value N) → TraceSummary → ExecutionTrace
  insertion_trace ev patch index verb new_items summary =
      if leb trace_summary_threshold (length new_items)
      then with_bulk_items patch.id patch.source patch.op 0 true summary
          (item_added index (String.◌++◌ (decimal (length new_items)) verb) ∷ [])
          (map (extract_item_description ev) new_items)
      else trace_of patch true summary (added_items ev index new_items)
