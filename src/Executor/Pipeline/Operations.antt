-- ===== src/Executor/Pipeline/Operations.antt =====
-- Each operation of a patch leaves the guarded fields of a configuration alone, and the keys of its
-- maps outside of arrays distinct.
use clash_prism_engine.Base.{
  ℕ, String, Bool, true, false, not, ◌&&◌, [], ◌++◌, length, Eq, string_eq, contains, ◌≡◌, ◌≢◌,
  refl, arith, Option-cases, Bool-cases, inl, inr,
}
use clash_prism_engine.Json.{Value}
use clash_prism_engine.Json.Path.{get_or_create_json_path_mut}
use clash_prism_engine.Json.Merge.Laws.{HasUniqueKeys}
use clash_prism_engine.Ir.{
  PatchOp, deep_merge, override, prepend, append, set_default, filter, transform, remove, Patch,
}
use clash_prism_engine.Executor.{Evaluator, items_of, trace_of, no_change}
use clash_prism_engine.Executor.Condition.{Texts, check_patch_condition}
use clash_prism_engine.Executor.Arrays.{
  transform_trace, tally_trace, no_items, splice, execute_prepend_in_place, execute_append_in_place,
  execute_filter_in_place, execute_remove_in_place, execute_transform_in_place, filter_verdict,
  remove_verdict, sweep, transform_all,
}
use clash_prism_engine.Executor.Maps.{
  merge_target, execute_deep_merge_in_place, execute_override_in_place,
  execute_set_default_in_place,
}
use clash_prism_engine.Executor.Pipeline.{
  PatchExecutor, execute_op, apply_patch_in_place, is_merge_or_override,
}
use clash_prism_engine.Executor.Guard.{guarded_fields, is_guarded_path}
use clash_prism_engine.Executor.Pipeline.Guarded.{
  IsSafe, create-IsSafe, outcome-IsSafe, override-IsSafe, default-IsSafe, merge_target-KeepsKeys,
}

module _ {N : Type 0} (g : String) (is_field : contains g guarded_fields ≡ true) where
  module _ ⦃eq : Eq N⦄ (texts : Texts) (ev : Evaluator N) (b : Bool) (config : Value N)
      (patch : Patch (Value N)) (u : HasUniqueKeys config) (n : patch.path ≢ "")
      (uv : HasUniqueKeys patch.value) where
    deep_merge-IsSafe : IsSafe g is_field config (execute_deep_merge_in_place b config patch).0
    unfolding execute_deep_merge_in_place
    deep_merge-IsSafe = elim (Bool-cases (is_guarded_path patch.path)) [
      | inl x ↦ rw x (u, refl)
      | inr x ↦
          let f = merge_target b patch.value in
          elim (Option-cases (get_or_create_json_path_mut f config patch.path)) [
            | inl e ↦ rw (x, e, execute_deep_merge_in_place) (u, refl)
            | inr ((c, a), e) ↦
                rw (x, e, execute_deep_merge_in_place)
                  (create-IsSafe g is_field config patch.path u n x f c a
                    (merge_target-KeepsKeys g is_field config patch.path u n x patch.value uv b) e)
          ]
    ]

    override_op-IsSafe : IsSafe g is_field config (execute_override_in_place config patch).0
    unfolding execute_override_in_place
    override_op-IsSafe = elim (Bool-cases (is_guarded_path patch.path)) [
      | inl x ↦ rw x (u, refl)
      | inr x ↦ rw x (override-IsSafe g is_field config patch.path u n x patch.value uv)
    ]

    op-IsSafe :
        (op : PatchOp)
        → ((is_guarded_path patch.path && not (is_merge_or_override op)) ≡ false)
        → IsSafe g is_field config (execute_op texts ev b config patch op).0
    unfolding execute_op is_merge_or_override splice execute_prepend_in_place
        execute_append_in_place execute_filter_in_place execute_remove_in_place
        execute_transform_in_place execute_set_default_in_place
    op-IsSafe deep_merge x = deep_merge-IsSafe
    op-IsSafe override x = override_op-IsSafe
    op-IsSafe prepend x =
        outcome-IsSafe g is_field config patch.path u n (ground arith)
          (λ xs. (items_of patch.value ++ xs, tt {0})) 0
          (λ (_ : Unit {0}). length (items_of patch.value))
    op-IsSafe append x =
        outcome-IsSafe g is_field config patch.path u n (ground arith)
          (λ xs. (xs ++ items_of patch.value, tt {0})) 0
          (λ (_ : Unit {0}). length (items_of patch.value))
    op-IsSafe (filter p) x =
        outcome-IsSafe g is_field config patch.path u n (ground arith)
          (sweep ev (filter_verdict ev p.expr)) (tally_trace ev patch no_items)
          (tally_trace ev patch)
    op-IsSafe (transform p) x =
        outcome-IsSafe g is_field config patch.path u n (ground arith) (transform_all ev p.expr)
          (trace_of patch true no_change []) (transform_trace ev patch)
    op-IsSafe (remove p) x =
        outcome-IsSafe g is_field config patch.path u n (ground arith)
          (sweep ev (remove_verdict ev p.expr)) (trace_of patch true no_change [])
          (tally_trace ev patch)
    op-IsSafe set_default x =
        default-IsSafe g is_field config patch.path u n (ground arith) patch.value uv

    pub apply-IsSafe :
        (ex : PatchExecutor) (now : ℕ)
        → ex.tracing_enabled ≡ b
        → IsSafe g is_field config (apply_patch_in_place texts ev ex now config patch).0
    unfolding apply_patch_in_place
    apply-IsSafe ex now same =
        elim (Bool-cases (check_patch_condition texts now patch ex.context)) [
          | inr c ↦ rw c (u, refl)
          | inl c ↦
              elim (Bool-cases
                (is_guarded_path patch.path && not (is_merge_or_override patch.op))) [
                  | inl x ↦ rw (c, x) (u, refl)
                  | inr x ↦ rw (c, x, same) (op-IsSafe patch.op x)
                ]
        ]
