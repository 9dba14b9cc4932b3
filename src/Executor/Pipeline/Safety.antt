-- ===== src/Executor/Pipeline/Safety.antt =====
-- crates/clash-prism-core/src/executor.rs: the guarded fields of a configuration through the whole
-- pipeline. The maps that stand inside of arrays are not looked at.
use Prim.Native.String.{compare}
use Prim.Native.Nat.{Ordering}
use clash_prism_engine.Base.{
  String, true, some, List, [], ◌∷◌, ◌++◌, length, Eq, string_eq, contains, ◌≡◌, ◌≢◌, refl, arith,
  ◌∙◌, sym, Option-cases, inl, inr, All,
}
use clash_prism_engine.Base.Sorting.{sort_by_key, All-sort_by_key}
use clash_prism_engine.Json.{Value, null, bool, number, string, array, object, get, get_field}
use clash_prism_engine.Json.Merge.{deep_merge_json}
use clash_prism_engine.Json.Merge.Laws.{HasUniqueKeys, deep_merge_json_self, get_field-merge_fields}
use clash_prism_engine.Json.Path.Keys.{deep_merge_json-HasUniqueKeys, get_field-HasUniqueKeys}
use clash_prism_engine.Ir.{Patch}
use clash_prism_engine.Trace.{ExecutionTrace}
use clash_prism_engine.Executor.{Evaluator}
use clash_prism_engine.Executor.Condition.{Texts, ExecutionContext}
use clash_prism_engine.Executor.Guard.{guarded_fields}
use clash_prism_engine.Executor.Pipeline.{
  PatchExecutor, Clock, with_context, apply_patch_in_place, prepare_sub_patches, run_parts,
  run_patches, execute_profile_patches, profile_results, insert_by_name, sort_by_name,
  merge_results, scope_priority, execute_pipeline,
}
use clash_prism_engine.Executor.Pipeline.Guarded.{IsSafe}
use clash_prism_engine.Executor.Pipeline.Operations.{apply-IsSafe}

-- The operations of a patch have a path, and a value in whose maps, outside of arrays, no key stands
-- twice.
abbrev pub IsCareful : {N : Type 0} → Patch (Value N) → Type 0
IsCareful patch = All (λ q. (q.path ≢ "") × HasUniqueKeys q.value) (prepare_sub_patches patch)

module _ {N : Type 0} (g : String) where
  -- Merging two values that agree on a field.
  get-deep_merge_json :
      (m c : Value N) → HasUniqueKeys c → get g m ≡ get g c → get g (deep_merge_json m c) ≡ get g c
  unfolding deep_merge_json HasUniqueKeys get
  get-deep_merge_json (object m) (object fs) u h = elim (Option-cases (get_field g fs)) [
    | inl e ↦ ground (arith, e, h, get_field-merge_fields g m fs u)
    | inr (o, e) ↦
        let uo : HasUniqueKeys o = get_field-HasUniqueKeys g fs o u e in
        ground (arith, e, h, deep_merge_json_self o uo, get_field-merge_fields g m fs u)
  ]
  get-deep_merge_json null (object fs) u h = refl
  get-deep_merge_json (bool b) (object fs) u h = refl
  get-deep_merge_json (number n) (object fs) u h = refl
  get-deep_merge_json (string s) (object fs) u h = refl
  get-deep_merge_json (array xs) (object fs) u h = refl
  get-deep_merge_json m null u h = refl
  get-deep_merge_json m (bool b) u h = refl
  get-deep_merge_json m (number n) u h = refl
  get-deep_merge_json m (string s) u h = refl
  get-deep_merge_json m (array xs) u h = refl

module _ {N : Type 0} ⦃e : Eq N⦄ (texts : Texts) (ev : Evaluator N) (g : String)
    (is_field : contains g guarded_fields ≡ true) where
  parts-IsSafe :
      (ex : PatchExecutor) (clock : Clock) (ps : List (Patch (Value N)))
      (st : Value N × List ExecutionTrace)
      → All (λ q. (q.path ≢ "") × HasUniqueKeys q.value) ps
      → HasUniqueKeys st.0
      → IsSafe g is_field st.0 (run_parts texts ev ex clock ps st).0
  unfolding run_parts
  parts-IsSafe ex clock [] st h u = (u, refl)
  parts-IsSafe ex clock (p ∷ ps) (config, traces) ((n, uv), hs) u =
      let now = clock.now (length traces) in
      let r = apply_patch_in_place texts ev ex now config p in
      let here = apply-IsSafe g is_field texts ev ex.tracing_enabled config p u n uv ex now refl in
      let (uc, same) =
        parts-IsSafe ex clock ps
          (r.0, traces ++ (record r.1 { duration_us = clock.elapsed (length traces) }) ∷ []) hs
          here.0 in
      (uc, same ∙ here.1)

  patches-IsSafe :
      (ex : PatchExecutor) (clock : Clock) (ps : List (Patch (Value N)))
      (st : Value N × List ExecutionTrace)
      → All IsCareful ps
      → HasUniqueKeys st.0
      → IsSafe g is_field st.0 (run_patches texts ev ex clock ps st).0
  unfolding run_patches
  patches-IsSafe ex clock [] st h u = (u, refl)
  patches-IsSafe ex clock (p ∷ ps) st (h, hs) u =
      let parts = prepare_sub_patches p in
      let here = parts-IsSafe ex clock parts st h u in
      let (uc, same) =
        patches-IsSafe ex clock ps (run_parts texts ev ex clock parts st) hs here.0 in
      (uc, same ∙ here.1)

  module _ (base : Value N) (u : HasUniqueKeys base) where
    abbrev AreSafe : List (String × Value N × List ExecutionTrace) → Type 0
    AreSafe rs = All (λ r. IsSafe g is_field base r.1) rs

    profiles-AreSafe :
        (clocks : String → Clock) (context : ExecutionContext)
        (groups : List (String × List (Patch (Value N))))
        → All (λ group. All IsCareful group.1) groups
        → AreSafe (profile_results texts ev clocks base context groups)
    unfolding profile_results execute_profile_patches
    profiles-AreSafe clocks context [] h = tt
    profiles-AreSafe clocks context ((name, patches) ∷ groups) (h, hs) =
        let ex = with_context (record context { profile_name = some name }) in
        (
          patches-IsSafe ex (clocks name) patches (base, []) h u,
          profiles-AreSafe clocks context groups hs,
        )

    insert-AreSafe :
        (r : String × Value N × List ExecutionTrace)
        (rs : List (String × Value N × List ExecutionTrace))
        → IsSafe g is_field base r.1
        → AreSafe rs
        → AreSafe (insert_by_name r rs)
    unfolding insert_by_name
    insert-AreSafe r [] h hs = (h, tt)
    insert-AreSafe r (s ∷ rs) h (k, ks) = either (compare r.0 s.0) (insert-AreSafe r rs h ks)
      where
        either :
            (o : Ordering)
            → AreSafe (insert_by_name r rs)
            → AreSafe (elim o [ Ordering.gt ↦ s ∷ insert_by_name r rs | _ ↦ r ∷ s ∷ rs ])
        either Ordering.gt rest = (k, rest)
        either Ordering.lt rest = (h, (k, ks))
        either Ordering.eq rest = (h, (k, ks))

    sort-AreSafe :
        (rs : List (String × Value N × List ExecutionTrace))
        → AreSafe rs
        → AreSafe (sort_by_name rs)
    unfolding sort_by_name
    sort-AreSafe [] h = tt
    sort-AreSafe (r ∷ rs) (h, hs) = insert-AreSafe r (sort_by_name rs) h (sort-AreSafe rs hs)

    merge-IsSafe :
        (rs : List (String × Value N × List ExecutionTrace)) (st : Value N × List ExecutionTrace)
        → AreSafe rs
        → IsSafe g is_field base st.0
        → IsSafe g is_field base (merge_results rs st).0
    unfolding merge_results
    merge-IsSafe [] st h s = s
    merge-IsSafe ((name, config, traces) ∷ rs) (merged, all) ((uc, same), hs) (um, kept) =
        merge-IsSafe rs (deep_merge_json merged config, all ++ traces) hs
          (
            deep_merge_json-HasUniqueKeys merged config um uc,
            get-deep_merge_json g merged config uc (kept ∙ sym same) ∙ same,
          )

    -- The pipeline leaves each guarded field at the top of the configuration as it was, absent ones
    -- included, for operations that have a path. In the configuration and in the values of the
    -- operations no key stands twice in a map at the top or in a map of such a map; arrays and what
    -- stands in them are free. The result has no key twice in those maps either.
    pub execute_pipeline_lem :
        (ex : PatchExecutor) (clocks : String → Clock) (clock : Clock)
        (groups : List (String × List (Patch (Value N)))) (shared : List (Patch (Value N)))
        → All (λ group. All IsCareful group.1) groups
        → All IsCareful shared
        → let result = (execute_pipeline texts ev ex clocks clock base groups shared).1.1 in
          (get g result ≡ get g base) × HasUniqueKeys result
    unfolding execute_pipeline
    execute_pipeline_lem ex clocks clock groups shared hg hs =
        let profiles = profile_results texts ev clocks base ex.context groups in
        let results = sort_by_name profiles in
        let ready = sort-AreSafe profiles (profiles-AreSafe clocks ex.context groups hg) in
        let merged = merge_results results (base, []) in
        let (um, kept) = merge-IsSafe results (base, []) ready (u, refl) in
        let sorted = All-sort_by_key scope_priority IsCareful shared hs in
        let (uc, same) =
          patches-IsSafe ex clock (sort_by_key scope_priority shared) merged sorted um in
        (same ∙ kept, uc)
