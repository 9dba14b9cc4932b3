-- ===== src/Executor/Arrays/Counts.antt =====
-- What the operations on arrays do to the array of their path, and the counts of their traces.
use clash_prism_engine.Executor.Arrays.Steps.{IsArrayStep, array_step}
use clash_prism_engine.Base.{
  ℕ, suc, ◌+◌, ◌-◌, String, Bool, true, false, none, some, List, [], ◌∷◌, ◌++◌, length, ◌≡◌, refl,
  arith, ap, ◌∙◌, keep, map, Option-cases, Bool-cases, inl, inr, length-append, leb,
}
use clash_prism_engine.Json.{Value}
use clash_prism_engine.Json.Path.{get_array_at_path_mut, get_array_len}
use clash_prism_engine.Json.Path.Arrays.{array_at, array_write, array_missing, get_array_len_lem}
use clash_prism_engine.Ir.{Patch}
use clash_prism_engine.Trace.{TraceSummary, summary_new, ExecutionTrace}
use clash_prism_engine.Executor.{
  Evaluator, items_of, no_change, trace_of, insertion_trace, trace_summary_threshold,
  transform_or_keep,
}
use clash_prism_engine.Executor.Arrays.{
  splice, execute_prepend_in_place, execute_append_in_place, filter_verdict, remove_verdict,
  eval_results, Tally, tally, tally_one, retain, no_items, sweep, tally_trace,
  execute_filter_in_place, execute_remove_in_place, transform_items, transform_all,
  execute_transform_in_place, transform_trace,
}

module _ {N : Type 0} (ev : Evaluator N) where
  insertion_trace-summary :
      (patch : Patch (Value N)) (i : ℕ) (verb : String) (xs : List (Value N)) (s : TraceSummary)
      → (insertion_trace ev patch i verb xs s).summary ≡ s
  unfolding insertion_trace trace_of
  insertion_trace-summary patch i verb xs s =
      elim (Bool-cases (leb trace_summary_threshold (length xs))) [
        | inl h ↦ rw h refl
        | inr h ↦ rw h refl
      ]

  -- The insertion of items, at either end.
  splice_lem :
      (config : Value N) (patch : Patch (Value N)) (put : List (Value N) → List (Value N)) (i : ℕ)
      (verb : String)
      → ((xs : List (Value N)) → length (put xs) ≡ length xs + length (items_of patch.value))
      → let n = get_array_len config patch.path in
        let r = splice ev put (length (items_of patch.value)) config patch.path in
        IsArrayStep config patch.path put (
          r.0,
          insertion_trace ev patch i verb
              (items_of patch.value)
              (summary_new r.1 0 0 n n (n + r.1)),
        )
  unfolding splice
  splice_lem config patch put i verb size =
      let n = get_array_len config patch.path in
      let m = length (items_of patch.value) in
      let r = splice ev put m config patch.path in
      let s = summary_new r.1 0 0 n n (n + r.1) in
      let f : List (Value N) → List (Value N) × Unit {0} = λ xs. (put xs, tt) in
      array_step config patch.path put
        (r.0, insertion_trace ev patch i verb (items_of patch.value) s)
        (λ e. ground (arith, array_missing f config patch.path e))
        (λ xs e.
          let (c, wrote, back) = array_write f config patch.path xs e in
          let len : n ≡ length xs = get_array_len_lem config patch.path ∙ rw e refl in
          let done : r ≡ (c, m) = ground (arith, wrote) in
          let new_array : array_at r.0 patch.path ≡ some (put xs) = rw done back in
          let grown : n + r.1 ≡ length (put xs) = ground (arith, len, done, size xs) in
          rw (insertion_trace-summary patch i verb (items_of patch.value) s)
            (new_array, len, grown, omega arith))

  -- An item that is not kept was evaluated.
  abbrev KeepsErrors : (Value N → Bool × Bool) → Type 0
  KeepsErrors verdict = (x : Value N) → ((verdict x).0 ≡ false) → ((verdict x).1 ≡ false)

  pub retain-eval_results :
      (verdict : Value N → Bool × Bool) (i : ℕ) (xs : List (Value N))
      → retain ev xs (eval_results ev verdict i xs) ≡ keep (λ x. (verdict x).0) xs
  unfolding retain eval_results keep
  retain-eval_results verdict i [] = refl
  retain-eval_results verdict i (x ∷ xs) = ground (arith, retain-eval_results verdict (suc i) xs)

  tally-eval_results :
      (verdict : Value N → Bool × Bool) (i : ℕ) (xs : List (Value N)) (t : Tally)
      → KeepsErrors verdict
      → let r = tally ev (eval_results ev verdict i xs) t in
        (r.kept_count ≡ t.kept_count + length (keep (λ x. (verdict x).0) xs))
        × (r.kept_count + r.removed_count ≡ t.kept_count + t.removed_count + length xs)
  unfolding tally tally_one eval_results keep
  tally-eval_results verdict i [] t k = (omega arith, omega arith)
  tally-eval_results verdict i (x ∷ xs) t k =
      let r : ℕ × Value N × Bool × Bool = (i, x, (verdict x).0, (verdict x).1) in
      let (kept, all) = tally-eval_results verdict (suc i) xs (tally_one ev r t) k in
      elim (Bool-cases (verdict x).0) [
        | inl h ↦ (ground (arith, h, kept), ground (arith, h, all))
        | inr h ↦ (ground (arith, h, k x h, kept), ground (arith, h, k x h, all))
      ]

  sweep_step :
      (config : Value N) (patch : Patch (Value N)) (verdict : Value N → Bool × Bool)
      (missing : ExecutionTrace)
      → KeepsErrors verdict
      → let r : Value N × ExecutionTrace =
          elim (get_array_at_path_mut {A = Tally} (sweep ev verdict) config patch.path) [
            | none ↦ (config, missing)
            | some (config', t) ↦ (config', tally_trace ev patch t)
          ] in
        IsArrayStep config patch.path (keep (λ x. (verdict x).0)) r
  unfolding sweep tally_trace trace_of
  sweep_step config patch verdict missing k =
      let f = sweep ev verdict in
      let r : Value N × ExecutionTrace =
        elim (get_array_at_path_mut {A = Tally} f config patch.path) [
          | none ↦ (config, missing)
          | some (config', t) ↦ (config', tally_trace ev patch t)
        ] in
      array_step config patch.path (keep (λ x. (verdict x).0)) r
        (λ e. ground (arith, array_missing f config patch.path e))
        (λ xs e.
          let (c, wrote, back) = array_write f config patch.path xs e in
          let done : r ≡ (c, tally_trace ev patch (f xs).1) = ground (arith, wrote) in
          let (kept, all) = tally-eval_results verdict 0 xs no_items k in
          let items = retain-eval_results verdict 0 xs in
          let after : (f xs).1.kept_count ≡ length (keep (λ x. (verdict x).0) xs) =
            omega (arith, kept) in
          let before : (f xs).1.kept_count + (f xs).1.removed_count ≡ length xs =
            omega (arith, all) in
          rw done (back ∙ ap some items, before, after, omega arith))

  pub transform_items_lem :
      (expr : String) (i : ℕ) (xs : List (Value N))
      → ((transform_items ev expr i xs).0 ≡ map (transform_or_keep ev expr) xs)
        × (length (transform_items ev expr i xs).0 ≡ length xs)
  unfolding transform_items transform_or_keep
  transform_items_lem expr i [] = (refl, refl)
  transform_items_lem expr i (x ∷ xs) =
      let (same, size) = transform_items_lem expr (suc i) xs in
      elim (Option-cases (ev.transform expr x)) [
        | inl e ↦ (ground (arith, e, same), ground (arith, e, size))
        | inr (y, e) ↦ (ground (arith, e, same), ground (arith, e, size))
      ]

  transform_step :
      (config : Value N) (patch : Patch (Value N)) (expr : String)
      → IsArrayStep config patch.path
          (map (transform_or_keep ev expr))
          (execute_transform_in_place ev config patch expr)
  unfolding execute_transform_in_place transform_trace transform_all trace_of
  transform_step config patch expr =
      let f = transform_all ev expr in
      array_step config patch.path (map (transform_or_keep ev expr))
        (execute_transform_in_place ev config patch expr)
        (λ e. ground (arith, array_missing f config patch.path e))
        (λ xs e.
          let (c, wrote, back) = array_write f config patch.path xs e in
          let (same, size) = transform_items_lem expr 0 xs in
          let n = length xs in
          let modified = (f xs).1.1 in
          let result : Value N × ExecutionTrace = (
            c,
            trace_of patch true (summary_new 0 0 modified (n - modified) n (length (f xs).0))
                (f xs).1.0,
          ) in
          let done : execute_transform_in_place ev config patch expr ≡ result =
            ground (arith, wrote) in
          rw done (back ∙ ap some same, refl, ap length same, omega (arith, size)))

  filter_verdict-KeepsErrors : (expr : String) → KeepsErrors (filter_verdict ev expr)
  unfolding filter_verdict
  filter_verdict-KeepsErrors expr x h = ground (arith, Option-cases (ev.predicate expr x))

  remove_verdict-KeepsErrors : (expr : String) → KeepsErrors (remove_verdict ev expr)
  unfolding remove_verdict
  remove_verdict-KeepsErrors expr x h = ground (arith, Option-cases (ev.predicate expr x))

  -- The operations on arrays put the new items at the front or at the end of the array of their path,
  -- keep the items that pass, or transform each. Their summaries give its lengths before and after,
  -- which the numbers of added and removed items make up, and without an array there the
  -- configuration stays as it was.
  pub array_ops_lem :
      (config : Value N) (patch : Patch (Value N)) (expr : String)
      → IsArrayStep config patch.path
          (λ xs. items_of patch.value ++ xs)
          (execute_prepend_in_place ev config patch)
        × IsArrayStep config patch.path
            (λ xs. xs ++ items_of patch.value)
            (execute_append_in_place ev config patch)
        × IsArrayStep config patch.path
            (keep (λ x. (filter_verdict ev expr x).0))
            (execute_filter_in_place ev config patch expr)
        × IsArrayStep config patch.path
            (keep (λ x. (remove_verdict ev expr x).0))
            (execute_remove_in_place ev config patch expr)
        × IsArrayStep config patch.path
            (map (transform_or_keep ev expr))
            (execute_transform_in_place ev config patch expr)
  unfolding execute_prepend_in_place execute_append_in_place execute_filter_in_place
      execute_remove_in_place
  array_ops_lem config patch expr =
      let new_items = items_of patch.value in
      (
        splice_lem config patch (λ xs. new_items ++ xs) 0 " items prepended"
            (λ xs. omega (arith, length-append new_items xs)),
        splice_lem config patch (λ xs. xs ++ new_items) (get_array_len config patch.path)
            " items appended" (λ xs. length-append xs new_items),
        sweep_step config patch (filter_verdict ev expr) (tally_trace ev patch no_items)
            (filter_verdict-KeepsErrors expr),
        sweep_step config patch (remove_verdict ev expr) (trace_of patch true no_change [])
            (remove_verdict-KeepsErrors expr),
        transform_step config patch expr,
      )
