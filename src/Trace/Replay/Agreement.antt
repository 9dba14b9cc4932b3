-- ===== src/Trace/Replay/Agreement.antt =====
-- Where a replay gives the configuration that the execution gave.
use clash_prism_engine.Trace.Replay.Arrays.{with_array_lem}
use clash_prism_engine.Base.{
  ℕ, zero, suc, String, Bool, true, false, not, ◌&&◌, none, some, List, [], ◌∷◌, ◌++◌,
  if◌then◌else◌, length, take, keep, keep_agree, map, Eq, ◌≡◌, refl, arith, ap, ◌∙◌, sym,
  Option-cases, Bool-cases, inl, inr, All, leb, ◌<◌,
}
use clash_prism_engine.Json.{Value}
use clash_prism_engine.Json.Path.{get_array_at_path_mut}
use clash_prism_engine.Json.Path.Arrays.{first_of}
use clash_prism_engine.Ir.{
  PatchOp, deep_merge, override, prepend, append, set_default, filter, transform, remove, SubOp,
  Patch, is_composite, all_ops,
}
use clash_prism_engine.Executor.{Evaluator, items_of, transform_or_keep}
use clash_prism_engine.Executor.Condition.{Texts, check_patch_condition}
use clash_prism_engine.Executor.Guard.{is_guarded_path}
use clash_prism_engine.Executor.Arrays.{
  splice, execute_prepend_in_place, execute_append_in_place, execute_filter_in_place,
  execute_transform_in_place, filter_verdict, sweep, transform_all,
}
use clash_prism_engine.Executor.Arrays.Counts.{retain-eval_results, transform_items_lem}
use clash_prism_engine.Executor.Pipeline.{
  PatchExecutor, Clock, apply_patch_in_place, execute_op, run_parts, run_patches, execute,
  prepare_sub_patches, sub_patch, is_merge_or_override,
}
use clash_prism_engine.Trace.{ExecutionTrace}
use clash_prism_engine.Trace.Manager.{TraceManager}
use clash_prism_engine.Trace.Replay.{
  apply_single_op, replay_op, or_true, apply_prepend, apply_append, apply_ops, apply_patch_simple,
  condition_holds, replay_patches, replay_at_step,
}

-- The operations that a replay runs as the executor does, and that cannot be guarded differently.
abbrev pub is_replayed : PatchOp → Bool
is_replayed prepend = true
is_replayed append = true
is_replayed (filter _) = true
is_replayed (transform _) = true
is_replayed _ = false

-- A patch without a condition of its own, whose operations a replay runs as the executor does.
abbrev pub IsReplayable : {N : Type 0} → Patch (Value N) → Type 0
IsReplayable patch =
    (patch.condition ≡ none) × All (λ q. is_replayed q.op ≡ true) (prepare_sub_patches patch)

module _ {N : Type 0} ⦃e : Eq N⦄ (texts : Texts) (ev : Evaluator N) where
  filter_agree :
      (expr : String) (xs : List (Value N))
      → (sweep ev (filter_verdict ev expr) xs).0
        ≡ keep (λ item. or_true (ev.predicate expr item)) xs
  unfolding sweep filter_verdict or_true
  filter_agree expr xs =
      retain-eval_results ev (filter_verdict ev expr) 0 xs
      ∙ keep_agree (λ x. (filter_verdict ev expr x).0) (λ item. or_true (ev.predicate expr item))
          (λ x. ground (arith, Option-cases (ev.predicate expr x))) xs

  replay_op_lem :
      (b : Bool) (config : Value N) (patch : Patch (Value N)) (op : PatchOp)
      → is_replayed op ≡ true
      → (execute_op texts ev b config patch op).0
        ≡ replay_op texts ev config patch.path op patch.value
  unfolding execute_op replay_op splice execute_prepend_in_place execute_append_in_place
      execute_filter_in_place execute_transform_in_place transform_all apply_prepend apply_append
  replay_op_lem b config patch prepend h =
      let put : List (Value N) → List (Value N) = λ xs. items_of patch.value ++ xs in
      let g : List (Value N) → List (Value N) × Unit {0} = λ xs. (put xs, tt) in
      first_of config 0 (λ _. length (items_of patch.value))
        (get_array_at_path_mut g config patch.path)
      ∙ sym (with_array_lem g put config patch.path (λ xs. refl))
  replay_op_lem b config patch append h =
      let put : List (Value N) → List (Value N) = λ xs. xs ++ items_of patch.value in
      let g : List (Value N) → List (Value N) × Unit {0} = λ xs. (put xs, tt) in
      first_of config 0 (λ _. length (items_of patch.value))
        (get_array_at_path_mut g config patch.path)
      ∙ sym (with_array_lem g put config patch.path (λ xs. refl))
  replay_op_lem b config patch (filter p) h =
      let g = sweep ev (filter_verdict ev p.expr) in
      let w =
        with_array_lem g (keep (λ item. or_true (ev.predicate p.expr item))) config patch.path
          (filter_agree p.expr) in
      elim (Option-cases (get_array_at_path_mut g config patch.path)) [
        | inl n ↦ ground (arith, n, w)
        | inr (r, n) ↦ ground (arith, n, w)
      ]
  replay_op_lem b config patch (transform p) h =
      let g = transform_all ev p.expr in
      let w =
        with_array_lem g (map (transform_or_keep ev p.expr)) config patch.path
          (λ xs. (transform_items_lem ev p.expr 0 xs).0) in
      elim (Option-cases (get_array_at_path_mut g config patch.path)) [
        | inl n ↦ ground (arith, n, w)
        | inr (r, n) ↦ ground (arith, n, w)
      ]
  replay_op_lem b config patch deep_merge h = absurd (ground arith)
  replay_op_lem b config patch override h = absurd (ground arith)
  replay_op_lem b config patch set_default h = absurd (ground arith)
  replay_op_lem b config patch (remove p) h = absurd (ground arith)

  -- What a replay does with a patch or a part of one.
  part_lem :
      (ex : PatchExecutor) (now : ℕ) (config : Value N) (patch : Patch (Value N))
      → is_replayed patch.op ≡ true
      → (apply_patch_in_place texts ev ex now config patch).0 ≡ (
          if check_patch_condition texts now patch ex.context
          then apply_single_op texts ev config patch.path patch.op patch.value
          else config)
  unfolding apply_patch_in_place apply_single_op
  part_lem ex now config patch h =
      let run = replay_op_lem ex.tracing_enabled config patch patch.op h in
      elim (Bool-cases (check_patch_condition texts now patch ex.context)) [
        | inr c ↦ ground (arith, c)
        | inl c ↦
            elim (Bool-cases (is_guarded_path patch.path && not (is_merge_or_override patch.op))) [
              | inl g ↦ ground (arith, c, g)
              | inr g ↦ ground (arith, c, g, run)
            ]
      ]

  module _ (ex : PatchExecutor) (clock : Clock) (now : ℕ)
      (steady : (n : ℕ) → clock.now n ≡ now) where
    parts_lem :
        (patch : Patch (Value N)) (ss : List (SubOp (Value N))) (config : Value N)
        (traces : List ExecutionTrace)
        → All (λ q. is_replayed q.op ≡ true) (map (sub_patch patch) ss)
        → (run_parts texts ev ex clock (map (sub_patch patch) ss) (config, traces)).0 ≡ (
            if check_patch_condition texts now patch ex.context
            then apply_ops texts ev config patch.path ss
            else config)
    unfolding run_parts apply_ops sub_patch check_patch_condition
    parts_lem patch [] config traces h = ground arith
    parts_lem patch (s ∷ ss) config traces (h, hs) =
        let n = length traces in
        let r = apply_patch_in_place texts ev ex (clock.now n) config (sub_patch patch s) in
        let here = part_lem ex (clock.now n) config (sub_patch patch s) h in
        let rest =
          parts_lem patch ss r.0 (traces ++ (record r.1 { duration_us = clock.elapsed n }) ∷ [])
            hs in
        ground (arith, here, rest, steady n)

    patch_lem :
        (patch : Patch (Value N)) (config : Value N) (traces : List ExecutionTrace)
        → IsReplayable patch
        → (run_parts texts ev ex clock (prepare_sub_patches patch) (config, traces)).0 ≡ (
            if not (check_patch_condition texts now patch ex.context)
            then config
            else if not (condition_holds texts ev patch config)
            then config
            else apply_patch_simple texts ev config patch)
    unfolding prepare_sub_patches apply_patch_simple condition_holds run_parts
    patch_lem patch config traces (plain, h) = elim (Bool-cases (is_composite patch)) [
      | inl c ↦
          let parts : All (λ q. is_replayed q.op ≡ true) (map (sub_patch patch) (all_ops patch)) =
            rw c at h in
          ground (arith, c, plain, parts_lem patch (all_ops patch) config traces parts)
      | inr c ↦
          let (own, _) : (is_replayed patch.op ≡ true) × Unit {0} = rw c at h in
          let n = length traces in
          let here = part_lem ex (clock.now n) config patch own in
          ground (arith, c, plain, here, steady n)
    ]

    patches_lem :
        (patches : List (Patch (Value N))) (config : Value N) (traces : List ExecutionTrace)
        → All IsReplayable patches
        → (run_patches texts ev ex clock patches (config, traces)).0
          ≡ replay_patches texts ev now ex.context patches config
    unfolding run_patches replay_patches
    patches_lem [] config traces h = refl
    patches_lem (p ∷ ps) config traces (h, hs) =
        let state = run_parts texts ev ex clock (prepare_sub_patches p) (config, traces) in
        patches_lem ps state.0 state.1 hs
        ∙ ap (replay_patches texts ev now ex.context ps) (patch_lem p config traces h)

    All-take :
        (n : ℕ) (patches : List (Patch (Value N)))
        → All IsReplayable patches
        → All IsReplayable (take n patches)
    All-take zero ps h = tt
    All-take (suc n) [] h = tt
    All-take (suc n) (p ∷ ps) (h, hs) = (h, All-take n ps hs)

    -- A replay up to a step of the manager's patches gives the configuration that the execution of
    -- the patches up to that step gives, with the clock at one minute of the day, for patches without
    -- conditions of their own that prepend, append, filter and transform.
    pub replay_at_step_lem :
        (m : TraceManager (Value N)) (base : Value N) (step : ℕ)
        → step < length m.patches
        → All IsReplayable m.patches
        → replay_at_step texts ev m step base ex.context now
          ≡ some (execute texts ev ex clock base (take (suc step) m.patches)).1
    unfolding replay_at_step execute
    replay_at_step_lem m base step low h =
        let same =
          patches_lem (take (suc step) m.patches) base [] (All-take (suc step) m.patches h) in
        let inside : leb (length m.patches) step ≡ false = ground arith in
        rw inside (ap some (sym same))
