-- ===== src/Executor/Examples.antt =====
-- The theorems about the executor at a concrete configuration and patches.
use clash_prism_engine.Base.{
  ℕ, Option, String, ◌≡◌, refl, true, none, some, List, [], ◌∷◌, ◌++◌, arith, eq_iff, nat_eq,
  string_eq, if◌then◌else◌, keep, map, contains,
}
use clash_prism_engine.Scope.{global}
use clash_prism_engine.Json.{
  Value, Fields, null, string, array, object, end, field, nil, cons, get, contains_field,
}
use clash_prism_engine.Json.Path.{get_json_path}
use clash_prism_engine.Json.Merge.Laws.{HasUniqueKeys}
use clash_prism_engine.Ir.{PatchOp, Patch, builtin, is_composite}
use clash_prism_engine.Executor.{Evaluator, items_of, transform_or_keep}
use clash_prism_engine.Executor.Guard.{guarded_fields}
use clash_prism_engine.Executor.RegexCache.{get_exec_cached_regex, get_cached_regex}
use clash_prism_engine.Executor.RegexCache.Bounded.{IsCache, get_exec_cached_regex_lem}
use clash_prism_engine.Executor.Condition.{Texts}
use clash_prism_engine.Executor.Arrays.{
  execute_prepend_in_place, execute_append_in_place, execute_filter_in_place,
  execute_remove_in_place, execute_transform_in_place, filter_verdict, remove_verdict,
}
use clash_prism_engine.Executor.Arrays.Counts.{array_ops_lem}
use clash_prism_engine.Executor.Arrays.Steps.{IsArrayStep}
use clash_prism_engine.Executor.Maps.{default_value, is_null}
use clash_prism_engine.Executor.Maps.Default.{default_value_lem}
use clash_prism_engine.Executor.Pipeline.{Clock, new, prepare_sub_patches, execute_pipeline}
use clash_prism_engine.Executor.Pipeline.Safety.{IsCareful, execute_pipeline_lem}

-- An evaluator that knows the predicate "true" and one transformation to a null.
abbrev ev : Evaluator ℕ
ev = record {
  predicate = λ expr item. if contains expr ("true" ∷ []) then some true else none;
  transform = λ expr item. some null;
  to_string = λ item. none;
}

abbrev texts : Texts
texts = record { is_match = λ pattern text. some true; escape = λ s. s; to_lowercase = λ s. s }

abbrev base_fields : Fields ℕ
base_fields = field "secret" (string "s3") (field "rules" (array (cons (string "MATCH") nil)) end)

abbrev append_rule : Patch (Value ℕ)
append_rule = record {
  id = "1";
  source = record { kind = builtin; file = none; line = none; plugin_id = none };
  scope = global;
  path = "rules";
  op = PatchOp.append;
  value = string "DIRECT";
  condition = none;
  after = [];
  sub_ops = [];
}

abbrev override_secret : Patch (Value ℕ)
override_secret = record append_rule { id = "2"; path = "secret"; op = PatchOp.override }

abbrev steady : Clock
steady = record { now = λ n. 600; elapsed = λ n. 5 }

array_ops_lem_example :
    IsArrayStep
      (object base_fields)
      "rules"
      (λ xs. string "DIRECT" ∷ xs)
      (execute_prepend_in_place ev (object base_fields) append_rule)
    × IsArrayStep
        (object base_fields)
        "rules"
        (λ xs. xs ++ string "DIRECT" ∷ [])
        (execute_append_in_place ev (object base_fields) append_rule)
    × IsArrayStep
        (object base_fields)
        "rules"
        (keep (λ x. (filter_verdict ev "true" x).0))
        (execute_filter_in_place ev (object base_fields) append_rule "true")
    × IsArrayStep
        (object base_fields)
        "rules"
        (keep (λ x. (remove_verdict ev "true" x).0))
        (execute_remove_in_place ev (object base_fields) append_rule "true")
    × IsArrayStep
        (object base_fields)
        "rules"
        (map (transform_or_keep ev "true"))
        (execute_transform_in_place ev (object base_fields) append_rule "true")
unfolding items_of
array_ops_lem_example = array_ops_lem ev (object base_fields) append_rule "true"

default_value_lem_example :
    let old = get_json_path (object base_fields) "mode" in
    let r = default_value (object base_fields) "mode" (string "rule") in
    (get_json_path r.0 "mode" ≡ (if r.1 then some (string "rule") else old))
    × (r.0 ≡ (if r.1 then r.0 else object base_fields))
    × (r.1 ≡ elim old [ none ↦ r.1 | some w ↦ is_null w ])
default_value_lem_example =
    default_value_lem base_fields "mode" (string "rule")
      (λ e. absurd (ground (arith, eq_iff "mode" "", e)))

abbrev proxies : List (Value ℕ)
proxies = object (field "name" (string "a") end) ∷ string "b" ∷ []

base_keys : HasUniqueKeys (object base_fields)
unfolding HasUniqueKeys contains_field
base_keys = (refl, tt, (refl, tt, tt))

append-IsCareful : IsCareful append_rule
unfolding prepare_sub_patches is_composite HasUniqueKeys
append-IsCareful = ((λ e. absurd (ground (arith, eq_iff "rules" "", e)), tt), tt)

override-IsCareful : IsCareful override_secret
unfolding prepare_sub_patches is_composite HasUniqueKeys
override-IsCareful = ((λ e. absurd (ground (arith, eq_iff "secret" "", e)), tt), tt)

secret_guarded : contains "secret" guarded_fields ≡ true
unfolding contains
secret_guarded = refl

execute_pipeline_lem_example :
    let result =
      (execute_pipeline texts ev new
        (λ name. steady)
        steady
        (object base_fields)
        (("home", append_rule ∷ override_secret ∷ []) ∷ [])
        (override_secret ∷ append_rule ∷ [])).1.1 in
    (get "secret" result ≡ get "secret" (object base_fields)) × HasUniqueKeys result
execute_pipeline_lem_example =
    execute_pipeline_lem texts ev "secret" secret_guarded (object base_fields) base_keys new
      (λ name. steady) steady (("home", append_rule ∷ override_secret ∷ []) ∷ [])
      (override_secret ∷ append_rule ∷ []) ((append-IsCareful, (override-IsCareful, tt)), tt)
      (override-IsCareful, (append-IsCareful, tt))

get_exec_cached_regex_lem_example :
    let build : String → Option ℕ = λ pattern. some 3 in
    ((get_exec_cached_regex build (("a", 3) ∷ []) "b").0 ≡ some 3)
    × IsCache build (get_exec_cached_regex build (("a", 3) ∷ []) "b").1
    × ((get_cached_regex build (("a", 3) ∷ []) "b").0 ≡ some 3)
    × IsCache build (get_cached_regex build (("a", 3) ∷ []) "b").1
get_exec_cached_regex_lem_example =
    get_exec_cached_regex_lem (λ pattern. some 3) (("a", 3) ∷ []) "b" (omega arith, (refl, tt))
