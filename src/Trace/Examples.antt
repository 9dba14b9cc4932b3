-- ===== src/Trace/Examples.antt =====
-- The theorems about traces and replay at concrete patches.
use clash_prism_engine.Base.{
  ℕ, ◌≡◌, refl, true, false, none, some, String, [], ◌∷◌, arith, nat_eq, if◌then◌else◌, ◌==◌,
  string_eq,
}
use clash_prism_engine.Base.HashMap.{get}
use clash_prism_engine.Scope.{global}
use clash_prism_engine.Json.{Value, string, array, object, end, field, nil, cons, null}
use clash_prism_engine.Ir.{PatchOp, Patch, builtin, is_composite}
use clash_prism_engine.Trace.{ExecutionTrace, summary_new, trace_new}
use clash_prism_engine.Trace.Manager.{TraceManager, push, indexed_patch}
use clash_prism_engine.Trace.Manager.Lookup.{IsIndexed, last_index, push_lem}
use clash_prism_engine.Trace.Replay.{replay_at_step}
use clash_prism_engine.Trace.Replay.Agreement.{IsReplayable, replay_at_step_lem}
use clash_prism_engine.Executor.{Evaluator}
use clash_prism_engine.Executor.Condition.{Texts}
use clash_prism_engine.Executor.Pipeline.{PatchExecutor, Clock, execute, prepare_sub_patches}
use clash_prism_engine.Executor.Pipeline

abbrev append_rule : Patch (Value ℕ)
append_rule = record {
  id = "1";
  source = record { kind = builtin; file = none; line = none; plugin_id = none };
  scope = global;
  path = "rules";
  op = PatchOp.append;
  value = string "DIRECT";
  condition = none;
  after = [];
  sub_ops = [];
}

abbrev applied : ExecutionTrace
applied = trace_new "1" append_rule.source PatchOp.append 7 true (summary_new 1 0 0 1 1 2) []

abbrev skipped : ExecutionTrace
skipped = trace_new "2" append_rule.source PatchOp.append 4 false (summary_new 0 0 0 0 0 0) []

abbrev one_patch : TraceManager (Value ℕ)
one_patch = record {
  traces = applied ∷ [];
  patches = append_rule ∷ [];
  patch_index = ("1", 0) ∷ [];
}

one_patch-IsIndexed : IsIndexed one_patch
unfolding get last_index
one_patch-IsIndexed = (refl, λ id. refl)

push_lem_example :
    IsIndexed (push one_patch skipped (record append_rule { id = "2" }))
    × (indexed_patch (push one_patch skipped (record append_rule { id = "2" })) "1" ≡ (
        if ◌==◌ {K = String} "2" "1"
        then some (record append_rule { id = "2" })
        else indexed_patch one_patch "1"))
push_lem_example =
    push_lem one_patch skipped (record append_rule { id = "2" }) "1" one_patch-IsIndexed

abbrev ev : Evaluator ℕ
ev = record {
  predicate = λ expr item. none;
  transform = λ expr item. some null;
  to_string = λ item. none;
}

abbrev texts : Texts
texts = record { is_match = λ pattern text. some true; escape = λ s. s; to_lowercase = λ s. s }

abbrev steady : Clock
steady = record { now = λ n. 600; elapsed = λ n. 5 }

abbrev base : Value ℕ
base = object (field "rules" (array (cons (string "MATCH") nil)) end)

append-IsReplayable : IsReplayable append_rule
unfolding prepare_sub_patches is_composite
append-IsReplayable = (refl, (refl, tt))

replay_at_step_lem_example :
    replay_at_step texts ev one_patch 0 base Pipeline.new.context 600
    ≡ some (execute texts ev Pipeline.new steady base (append_rule ∷ [])).1
replay_at_step_lem_example =
    replay_at_step_lem texts ev Pipeline.new steady 600 (λ n. refl) one_patch base 0 (omega arith)
      (append-IsReplayable, tt)
