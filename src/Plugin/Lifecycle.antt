-- ===== src/Plugin/Lifecycle.antt =====
-- crates/clash-prism-plugin/src/lifecycle.rs: the life cycle of plugins and the registry of the
-- hooks they listen to. A handler returns the new manager with its result; the error values keep
-- the source's texts.
use clash_prism_engine.Base.{
  String, Bool, true, false, Option, none, some, List, [], ◌∷◌, ◌++◌, map, if◌then◌else◌, ◌==◌,
  string_eq, contains, without, Outcome, ok, err,
}
pub mod Registry
pub mod Invariant
pub mod Transitions
mod Examples
use Prim.Native.String
use clash_prism_engine.Base.HashMap
use clash_prism_engine.Base.HashMap.{HashMap}
use clash_prism_engine.Plugin.Hook.{Hook, hook_eq}
use clash_prism_engine.Plugin.Manifest.{PluginManifest}

pub data PluginState : Type 0 where
  discovered loaded active unloaded : PluginState
  suspended : String → PluginState

pub data TransitionError : Type 0 where
  not_found : (plugin_id : String) → TransitionError
  invalid_transition : (plugin_id current_state required_states : String) → TransitionError

-- `Display for PluginState`.
pub to_string : PluginState → String
to_string discovered = "已发现"
to_string loaded = "已加载"
to_string active = "运行中"
to_string (suspended reason) = String.◌++◌ "已暂停: " reason
to_string unloaded = "已卸载"

pub record LifecycleManager : Type 0 where
  pub states : HashMap String PluginState
  pub hook_registry : HashMap Hook (List String)

pub new : LifecycleManager
new = record { states = []; hook_registry = [] }

-- One round of the loop of `add_hooks_to_registry`.
pub add_hook : String → Hook → HashMap Hook (List String) → HashMap Hook (List String)
add_hook plugin_id hook registry = elim (HashMap.get hook registry) [
  | none ↦ HashMap.insert hook (plugin_id ∷ []) registry
  | some listeners ↦
      if contains plugin_id listeners
      then registry
      else HashMap.insert hook (listeners ++ plugin_id ∷ []) registry
]

pub add_hooks_to_registry :
    String → List Hook → HashMap Hook (List String) → HashMap Hook (List String)
add_hooks_to_registry plugin_id [] registry = registry
add_hooks_to_registry plugin_id (hook ∷ hooks) registry =
    add_hooks_to_registry plugin_id hooks (add_hook plugin_id hook registry)

abbrev pub Handled : Type 0
Handled = LifecycleManager × Outcome (Unit {0}) TransitionError

abbrev is_registrable : PluginState → Bool
is_registrable loaded = true
is_registrable (suspended _) = true
is_registrable _ = false

abbrev is_active : PluginState → Bool
is_active active = true
is_active _ = false

abbrev is_suspended : PluginState → Bool
is_suspended (suspended _) = true
is_suspended _ = false

abbrev is_discovered : PluginState → Bool
is_discovered discovered = true
is_discovered _ = false

abbrev is_running : PluginState → Bool
is_running active = true
is_running (suspended _) = true
is_running _ = false

-- The insertion into `states` and the registration that `register_hooks` and `resume` share.
activate : LifecycleManager → String → PluginManifest → LifecycleManager
activate m plugin_id manifest = record {
  states = HashMap.insert plugin_id active m.states;
  hook_registry = add_hooks_to_registry plugin_id manifest.hooks m.hook_registry;
}

-- The insertion into `states` and the removal of all listeners that `suspend` and `unload` share.
retire : LifecycleManager → String → PluginState → LifecycleManager
retire m plugin_id state = record {
  states = HashMap.insert plugin_id state m.states;
  hook_registry = HashMap.map_values (without plugin_id) m.hook_registry;
}

pub register_hooks : LifecycleManager → String → PluginManifest → Handled
unfolding activate
register_hooks m plugin_id manifest = elim (HashMap.get plugin_id m.states) [
  | none ↦ (m, err (not_found plugin_id))
  | some state ↦
      if is_registrable state
      then (activate m plugin_id manifest, ok tt)
      else (m, err (invalid_transition plugin_id (to_string state) "Loaded | Suspended"))
]

pub get_listeners : LifecycleManager → Hook → List String
get_listeners m hook = HashMap.get_or [] hook m.hook_registry

pub suspend : LifecycleManager → String → String → Handled
unfolding retire
suspend m plugin_id reason = elim (HashMap.get plugin_id m.states) [
  | none ↦ (m, err (not_found plugin_id))
  | some state ↦
      if is_active state
      then (retire m plugin_id (suspended reason), ok tt)
      else (m, err (invalid_transition plugin_id (to_string state) "Active"))
]

pub resume : LifecycleManager → String → PluginManifest → Handled
unfolding activate
resume m plugin_id manifest = elim (HashMap.get plugin_id m.states) [
  | none ↦ (m, err (not_found plugin_id))
  | some state ↦
      if is_suspended state
      then (activate m plugin_id manifest, ok tt)
      else (m, err (invalid_transition plugin_id (to_string state) "Suspended"))
]

pub get_state : LifecycleManager → String → Option PluginState
get_state m plugin_id = HashMap.get plugin_id m.states

pub discover : LifecycleManager → String → LifecycleManager × Bool
discover m plugin_id =
    if HashMap.contains_key plugin_id m.states
    then (m, false)
    else (record m { states = HashMap.insert plugin_id discovered m.states }, true)

pub load : LifecycleManager → String → Handled
load m plugin_id = elim (HashMap.get plugin_id m.states) [
  | none ↦ (m, err (not_found plugin_id))
  | some state ↦
      if is_discovered state
      then (record m { states = HashMap.insert plugin_id loaded m.states }, ok tt)
      else (m, err (invalid_transition plugin_id (to_string state) "Discovered"))
]

pub unload : LifecycleManager → String → Handled
unfolding retire
unload m plugin_id = elim (HashMap.get plugin_id m.states) [
  | none ↦ (m, err (not_found plugin_id))
  | some state ↦
      if is_running state
      then (retire m plugin_id unloaded, ok tt)
      else (m, err (invalid_transition plugin_id (to_string state) "Active | Suspended"))
]

-- A call of one of the handlers.
pub data Command : Type 0 where
  to_discover to_load to_unload : (plugin_id : String) → Command
  to_register to_resume : (plugin_id : String) (manifest : PluginManifest) → Command
  to_suspend : (plugin_id reason : String) → Command

pub handle : LifecycleManager → Command → Handled
handle m (to_discover plugin_id) = ((discover m plugin_id).0, ok tt)
handle m (to_load plugin_id) = load m plugin_id
handle m (to_unload plugin_id) = unload m plugin_id
handle m (to_register plugin_id manifest) = register_hooks m plugin_id manifest
handle m (to_resume plugin_id manifest) = resume m plugin_id manifest
handle m (to_suspend plugin_id reason) = suspend m plugin_id reason

-- The calls of a history, in order.
pub run : LifecycleManager → List Command → LifecycleManager
run m [] = m
run m (c ∷ cs) = run (handle m c).0 cs
