-- ===== src/Plugin/Lifecycle/Examples.antt =====
-- The theorems about the lifecycle manager at concrete plugins.
use clash_prism_engine.Base.{
  String, ◌≡◌, ◌↔◌, refl, none, some, List, [], ◌∷◌, ◌==◌, contains, without, string_eq,
  if◌then◌else◌, ok,
}
use clash_prism_engine.Base.HashMap
use clash_prism_engine.Plugin.Permission.{Permission}
use clash_prism_engine.Plugin.Hook.{Hook, hook_eq, hook_beq, on_merged, on_app_ready}
use clash_prism_engine.Plugin.Manifest.{PluginManifest, PluginType}
use clash_prism_engine.Plugin.Lifecycle.{
  active, unloaded, LifecycleManager, new, discover, load, register_hooks, suspend, resume, unload,
  get_listeners, get_state, Command, to_discover, to_load, to_unload, to_register, to_suspend,
  handle, run, add_hook, add_hooks_to_registry, to_string,
}
use clash_prism_engine.Plugin.Lifecycle.Invariant.{IsWellFormed, run-new-IsWellFormed}
use clash_prism_engine.Plugin.Lifecycle.Transitions.{
  Transition, target, IsAllowed, handle-eq-ok, handle-Transition, run-unloaded, resume-suspend,
}

-- The definitions that the tests compute with.
program : Unit {0}
unfolding run handle discover load register_hooks resume suspend unload get_state get_listeners
    add_hooks_to_registry add_hook new HashMap.get HashMap.insert HashMap.contains_key
    HashMap.map_values contains without hook_beq to_string
program = tt

abbrev manifest : PluginManifest
manifest = record {
  id = "smart-grouping";
  name = "Smart grouping";
  version = "1.2.0";
  plugin_type = PluginType.config;
  permissions = Permission.config_read ∷ [];
  hooks = on_merged ∷ on_app_ready ∷ [];
  entry = "main.js";
  scope = "subscribe";
  timeout = 5000;
  author = none;
  description = none;
  min_engine_version = none;
  checksum = none;
}

abbrev start : List Command
start = to_discover "a" ∷ to_load "a" ∷ to_register "a" manifest ∷ []

start_listens :
    (get_listeners (run new start) on_merged ≡ "a" ∷ [])
    × (get_state (run new start) "a" ≡ some active)
unfolding program
start_listens = (refl, refl)

run-new-IsWellFormed_example : IsWellFormed (run new start)
run-new-IsWellFormed_example = run-new-IsWellFormed start

handle-eq-ok_example :
    ((handle (run new start) (to_unload "a")).1 ≡ ok tt)
    ↔ IsAllowed (to_unload "a") (get_state (run new start) (target (to_unload "a")))
handle-eq-ok_example = handle-eq-ok (run new start) (to_unload "a")

handle-Transition_example :
    Transition
      (get_state (run new start) "a")
      (get_state (handle (run new start) (to_suspend "a" "x")).0 "a")
handle-Transition_example = handle-Transition (run new start) (to_suspend "a" "x") "a"

abbrev gone : LifecycleManager
gone = run new (to_discover "a" ∷ to_load "a" ∷ to_register "a" manifest ∷ to_unload "a" ∷ [])

gone_unloaded : get_state gone "a" ≡ some unloaded
unfolding program
gone_unloaded = refl

run-unloaded_example : get_state (run gone (to_discover "a" ∷ [])) "a" ≡ some unloaded
run-unloaded_example = run-unloaded gone (to_discover "a" ∷ []) "a" gone_unloaded

start_active : get_state (run new start) "a" ≡ some active
start_active = start_listens.1

resume-suspend_example :
    ((resume (suspend (run new start) "a" "x").0 "a" manifest).1 ≡ ok tt)
    × (get_state (resume (suspend (run new start) "a" "x").0 "a" manifest).0 "a" ≡ some active)
    × ((h : Hook) (j : String)
        → contains j (get_listeners (resume (suspend (run new start) "a" "x").0 "a" manifest).0 h)
          ≡ (if "a" == j
              then contains h manifest.hooks
              else contains j (get_listeners (run new start) h)))
resume-suspend_example = resume-suspend (run new start) "a" "x" manifest start_active
