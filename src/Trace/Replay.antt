-- ===== src/Trace/Replay.antt =====
-- crates/clash-prism-core/src/trace.rs and executor.rs: the replay of patches up to a step, with the
-- operations that the executor exports for it. A replay reads the clock at one minute of the day.
pub mod Arrays
pub mod Agreement
use clash_prism_engine.Base.{
  ℕ, zero, suc, ◌+◌, String, Bool, true, false, not, ◌&&◌, ◌||◌, Option, none, some, List, [], ◌∷◌,
  ◌++◌, if◌then◌else◌, ltb, leb, length, take, keep, map, ◌==◌, string_eq,
}
use clash_prism_engine.Json.{
  Value, Fields, null, array, object, end, from_list, as_array, as_object, get_field, insert_field,
  get_field_or,
}
use clash_prism_engine.Json.Path.{split, get_json_path_mut}
use clash_prism_engine.Json.Merge.{deep_merge_json}
use clash_prism_engine.Ir.{
  PatchOp, deep_merge, override, prepend, append, set_default, filter, transform, remove, SubOp,
  Patch, is_composite, all_ops,
}
use clash_prism_engine.Executor.{Evaluator, transform_or_keep, items_of}
use clash_prism_engine.Executor.Condition.{Texts, ExecutionContext, check_patch_condition}
use clash_prism_engine.Executor.Guard.{is_guarded_path}
use clash_prism_engine.Executor.Maps.{is_null}
use clash_prism_engine.Executor.Pipeline.{is_merge_or_override}
use clash_prism_engine.Trace.Manager.{TraceManager}

-- `unwrap_or(true)`.
pub or_true : Option Bool → Bool
or_true none = true
or_true (some b) = b

module _ {N : Type 0} where
  -- The walk to the object of the last part, which creates objects, and what is done there.
  pub at_last : (String → Fields N → Fields N) → List String → Value N → Value N
  at_last f [] config = config
  at_last f (p ∷ []) (object m) = object (f p m)
  at_last f (p ∷ q ∷ ps) (object m) =
      object (insert_field p (at_last f (q ∷ ps) (get_field_or (object end) p m)) m)
  at_last f (p ∷ ps) config = config

  pub apply_override : Value N → String → Value N → Value N
  apply_override config path value = at_last (λ k m. insert_field k value m) (split path) config

  -- The default for the last part: `should_inject`, and the insertion.
  pub inject_field : Value N → String → Fields N → Fields N
  inject_field value k m = elim (get_field k m) [
    | none ↦ insert_field k value m
    | some v ↦ if is_null v then insert_field k value m else m
  ]

  pub apply_set_default : Value N → String → Value N → Value N
  apply_set_default config path value = at_last (inject_field value) (split path) config

  -- What is done with the items of a value that is an array.
  pub on_array : (List (Value N) → List (Value N)) → Value N → Value N × Unit {0}
  on_array f v = elim (as_array v) [ none ↦ (v, tt) | some xs ↦ (array (from_list (f xs)), tt) ]

  pub with_array : (List (Value N) → List (Value N)) → Value N → String → Value N
  with_array f config path = elim (get_json_path_mut {A = Unit {0}} (on_array f) config path) [
    | none ↦ config
    | some (config', _) ↦ config'
  ]

  pub apply_prepend : Value N → String → Value N → Value N
  apply_prepend config path value = with_array (λ xs. items_of value ++ xs) config path

  pub apply_append : Value N → String → Value N → Value N
  apply_append config path value = with_array (λ xs. xs ++ items_of value) config path

  module _ (texts : Texts) (ev : Evaluator N) where
    pub replay_op : Value N → String → PatchOp → Value N → Value N
    replay_op config path deep_merge value =
        elim (get_json_path_mut {A = Unit {0}} (λ target. (deep_merge_json target value, tt)) config
          path) [ none ↦ config | some (config', _) ↦ config' ]
    replay_op config path override value = apply_override config path value
    replay_op config path prepend value = apply_prepend config path value
    replay_op config path append value = apply_append config path value
    replay_op config path set_default value = apply_set_default config path value
    replay_op config path (filter p) value =
        with_array (keep (λ item. or_true (ev.predicate p.expr item))) config path
    replay_op config path (transform p) value =
        with_array (map (transform_or_keep ev p.expr)) config path
    replay_op config path (remove p) value =
        with_array (keep (λ item. not (or_true (ev.predicate p.expr item)))) config path

    pub apply_single_op : Value N → String → PatchOp → Value N → Value N
    apply_single_op config path op value =
        if is_guarded_path path && not (is_merge_or_override op)
        then config
        else replay_op config path op value

    pub apply_ops : Value N → String → List (SubOp (Value N)) → Value N
    apply_ops config path [] = config
    apply_ops config path (s ∷ ss) = apply_ops (apply_single_op config path s.op s.value) path ss

    pub apply_patch_simple : Value N → Patch (Value N) → Value N
    apply_patch_simple config patch =
        if is_composite patch
        then apply_ops config patch.path (all_ops patch)
        else apply_single_op config patch.path patch.op patch.value

    -- The condition of the patch itself, false where its evaluation fails.
    pub condition_holds : Patch (Value N) → Value N → Bool
    condition_holds patch config = elim patch.condition [
      | none ↦ true
      | some pred ↦ elim (ev.predicate pred.expr config) [ none ↦ false | some b ↦ b ]
    ]

    pub replay_patches : ℕ → ExecutionContext → List (Patch (Value N)) → Value N → Value N
    replay_patches now context [] config = config
    replay_patches now context (p ∷ ps) config = replay_patches now context ps (
        if not (check_patch_condition texts now p context)
        then config
        else if not (condition_holds p config)
        then config
        else apply_patch_simple config p)

    pub replay_at_step :
        TraceManager (Value N) → ℕ → Value N → ExecutionContext → ℕ → Option (Value N)
    replay_at_step m target_step base_config context now =
        if leb (length m.patches) target_step
        then none
        else some (replay_patches now context (take (suc target_step) m.patches) base_config)
