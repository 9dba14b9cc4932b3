-- ===== src/Executor/Arrays.antt =====
-- crates/clash-prism-core/src/executor.rs: the operations on arrays.
pub mod Steps
pub mod Counts
use clash_prism_engine.Base.{
  ℕ, suc, ◌+◌, ◌-◌, String, Bool, true, false, not, ◌&&◌, Option, none, some, List, [], ◌∷◌, ◌++◌,
  if◌then◌else◌, length,
}
use clash_prism_engine.Json.{Value}
use clash_prism_engine.Json.Path.{get_array_at_path_mut, get_array_len}
use clash_prism_engine.Ir.{Patch}
use clash_prism_engine.Trace.{
  AffectedItem, item_removed, item_modified, summary_new, ExecutionTrace,
}
use clash_prism_engine.Executor.{Evaluator, name_or, items_of, no_change, trace_of, insertion_trace}

pub record Tally : Type 0 where
  pub affected : List AffectedItem
  pub removed_count : ℕ
  pub kept_count : ℕ

abbrev pub no_items : Tally
no_items = record { affected = []; removed_count = 0; kept_count = 0 }

module _ {N : Type 0} (ev : Evaluator N) where
  -- The new items at the front or at the end, and their number where there is an array.
  unfoldable pub splice : (List (Value N) → List (Value N)) → ℕ → Value N → String → Value N × ℕ
  splice put count config path =
      elim (get_array_at_path_mut {A = Unit {0}} (λ xs. (put xs, tt)) config path) [
        | none ↦ (config, 0)
        | some (config', _) ↦ (config', count)
      ]

  unfoldable pub execute_prepend_in_place : Value N → Patch (Value N) → Value N × ExecutionTrace
  execute_prepend_in_place config patch =
      let new_items = items_of patch.value in
      let original_len = get_array_len config patch.path in
      let (config', count) : Value N × ℕ =
        splice (λ xs. new_items ++ xs) (length new_items) config patch.path in
      (
        config',
        insertion_trace ev patch 0 " items prepended" new_items
            (summary_new count 0 0 original_len original_len (original_len + count)),
      )

  unfoldable pub execute_append_in_place : Value N → Patch (Value N) → Value N × ExecutionTrace
  execute_append_in_place config patch =
      let new_items = items_of patch.value in
      let original_len = get_array_len config patch.path in
      let (config', count) : Value N × ℕ =
        splice (λ xs. xs ++ new_items) (length new_items) config patch.path in
      (
        config',
        insertion_trace ev patch original_len " items appended" new_items
            (summary_new count 0 0 original_len original_len (original_len + count)),
      )

  -- Whether an item is kept, and whether its evaluation failed.
  unfoldable pub filter_verdict : String → Value N → Bool × Bool
  filter_verdict expr item = elim (ev.predicate expr item) [
    | none ↦ (true, true)
    | some keep ↦ (keep, false)
  ]

  unfoldable pub remove_verdict : String → Value N → Bool × Bool
  remove_verdict expr item = elim (ev.predicate expr item) [
    | none ↦ (true, true)
    | some matched ↦ (not matched, false)
  ]

  -- `eval_results`, each with the item at its index.
  pub eval_results : (Value N → Bool × Bool) → ℕ → List (Value N) → List (ℕ × Value N × Bool × Bool)
  eval_results verdict idx [] = []
  eval_results verdict idx (x ∷ xs) =
      (idx, x, (verdict x).0, (verdict x).1) ∷ eval_results verdict (suc idx) xs

  -- One round of the loop over the results.
  pub tally_one : ℕ × Value N × Bool × Bool → Tally → Tally
  tally_one (idx, item, is_kept, is_err) t = record t {
    affected =
        if not is_kept && not is_err
        then t.affected ++ item_removed idx (name_or "?" item) ∷ []
        else t.affected;
    removed_count = if not is_kept && not is_err then suc t.removed_count else t.removed_count;
    kept_count = if is_kept then suc t.kept_count else t.kept_count;
  }

  pub tally : List (ℕ × Value N × Bool × Bool) → Tally → Tally
  tally [] t = t
  tally (r ∷ rs) t = tally rs (tally_one r t)

  -- `retain`, which takes the results in step.
  pub retain : List (Value N) → List (ℕ × Value N × Bool × Bool) → List (Value N)
  retain [] rs = []
  retain (x ∷ xs) [] = x ∷ retain xs []
  retain (x ∷ xs) ((idx, item, keep, is_err) ∷ rs) =
      let rest = retain xs rs in if keep then x ∷ rest else rest

  -- Both passes over the items.
  unfoldable pub sweep : (Value N → Bool × Bool) → List (Value N) → List (Value N) × Tally
  sweep verdict items =
      let results = eval_results verdict 0 items in (retain items results, tally results no_items)

  pub tally_trace : Patch (Value N) → Tally → ExecutionTrace
  tally_trace patch t =
      trace_of patch true
        (summary_new 0 t.removed_count 0 t.kept_count (t.kept_count + t.removed_count) t.kept_count)
        t.affected

  unfoldable pub execute_filter_in_place :
      Value N → Patch (Value N) → String → Value N × ExecutionTrace
  execute_filter_in_place config patch filter_expr =
      elim (get_array_at_path_mut {A = Tally} (sweep (filter_verdict filter_expr)) config
        patch.path) [
          | none ↦ (config, tally_trace patch no_items)
          | some (config', t) ↦ (config', tally_trace patch t)
        ]

  unfoldable pub execute_remove_in_place :
      Value N → Patch (Value N) → String → Value N × ExecutionTrace
  execute_remove_in_place config patch remove_expr =
      elim (get_array_at_path_mut {A = Tally} (sweep (remove_verdict remove_expr)) config
        patch.path) [
          | none ↦ (config, trace_of patch true no_change [])
          | some (config', t) ↦ (config', tally_trace patch t)
        ]

  -- The loop over the items: the results, the affected items and the number of those modified.
  pub transform_items : String → ℕ → List (Value N) → List (Value N) × List AffectedItem × ℕ
  transform_items expr idx [] = ([], [], 0)
  transform_items expr idx (x ∷ xs) =
      let (rest, affected, count) = transform_items expr (suc idx) xs in
      elim (ev.transform expr x) [
        | none ↦ (x ∷ rest, affected, count)
        | some y ↦
            (y ∷ rest, item_modified idx (name_or "?" x) (name_or "?" y) ∷ affected, suc count)
      ]

  -- The summary of a transformation; its validation only logs.
  unfoldable pub transform_all :
      String → List (Value N) → List (Value N) × (List AffectedItem × ℕ × ℕ × ℕ)
  transform_all expr items =
      let (transformed, affected, modified) = transform_items expr 0 items in
      (transformed, (affected, modified, length items, length transformed))

  unfoldable pub transform_trace : Patch (Value N) → List AffectedItem × ℕ × ℕ × ℕ → ExecutionTrace
  transform_trace patch (affected, modified, before, after) =
      trace_of patch true (summary_new 0 0 modified (before - modified) before after) affected

  -- An empty array comes back with a summary of zeros, as the formula gives for it.
  unfoldable pub execute_transform_in_place :
      Value N → Patch (Value N) → String → Value N × ExecutionTrace
  execute_transform_in_place config patch transform_expr =
      elim (get_array_at_path_mut {A = List AffectedItem × ℕ × ℕ × ℕ} (transform_all transform_expr)
        config patch.path) [
          | none ↦ (config, trace_of patch true no_change [])
          | some (config', counts) ↦ (config', transform_trace patch counts)
        ]
