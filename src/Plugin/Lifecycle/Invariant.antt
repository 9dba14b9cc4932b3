-- ===== src/Plugin/Lifecycle/Invariant.antt =====
-- The invariant of the lifecycle manager: only active plugins listen, each at most once to a hook.
use clash_prism_engine.Base.{
  String, ◌≡◌, ◌≢◌, inl, inr, true, false, some, List, [], ◌∷◌, arith, contains, string_eq, eq_iff,
  IsDistinct, IsDistinct-without, contains-without, Bool-cases, Option-cases,
}
use clash_prism_engine.Base.HashMap
use clash_prism_engine.Base.HashMap.{get-insert, contains_key-get}
use clash_prism_engine.Plugin.Hook.{Hook, hook_eq}
use clash_prism_engine.Plugin.Manifest.{PluginManifest}
use clash_prism_engine.Plugin.Lifecycle.{
  PluginState, active, discovered, loaded, suspended, unloaded, LifecycleManager, new, activate,
  retire, discover, load, register_hooks, suspend, resume, unload, get_listeners, get_state,
  Command, to_discover, to_load, to_unload, to_register, to_resume, to_suspend, handle, run,
}
use clash_prism_engine.Plugin.Lifecycle.Registry.{
  contains-add_hooks_to_registry, IsDistinct-add_hooks_to_registry, listeners-map_values, listeners,
}

pub record IsWellFormed (m : LifecycleManager) : Type 0 where
  pub listening :
      (h : Hook) (i : String) → contains i (get_listeners m h) ≡ true → get_state m i ≡ some active
  pub once : (h : Hook) → IsDistinct (get_listeners m h)

new-IsWellFormed : IsWellFormed new
unfolding new get_listeners get_state HashMap.get contains
new-IsWellFormed = record { listening = λ h i e. cc; once = λ h. tt }

activate-IsWellFormed :
    (m : LifecycleManager) (i : String) (manifest : PluginManifest)
    → IsWellFormed m
    → IsWellFormed (activate m i manifest)
unfolding activate get_listeners get_state
activate-IsWellFormed m i manifest w = record {
  listening = λ h j e. ground (
    arith,
    contains-add_hooks_to_registry i j manifest.hooks h m.hook_registry,
    w.listening h j,
    get-insert i j active m.states,
    eq_iff i j,
  );
  once = λ h. IsDistinct-add_hooks_to_registry i manifest.hooks m.hook_registry w.once h;
}

retire-IsWellFormed :
    (m : LifecycleManager) (i : String) (s : PluginState)
    → IsWellFormed m
    → IsWellFormed (retire m i s)
unfolding retire get_listeners get_state
retire-IsWellFormed m i s w = record {
  listening = λ h j e. ground (
    arith,
    listeners-map_values i h m.hook_registry,
    contains-without i j (listeners h m.hook_registry),
    w.listening h j,
    get-insert i j s m.states,
    eq_iff i j,
  );
  once = λ h. rw (listeners-map_values i h m.hook_registry) (IsDistinct-without i _ (w.once h));
}

-- A plugin that is not active may change its state if it stays inactive or if it was absent.
enter-IsWellFormed :
    (m : LifecycleManager) (i : String) (s : PluginState)
    → ((h : Hook) → contains i (get_listeners m h) ≡ false)
    → IsWellFormed m
    → IsWellFormed (record m { states = HashMap.insert i s m.states })
unfolding get_listeners get_state
enter-IsWellFormed m i s silent w = record {
  listening =
      λ h j e. ground (arith, w.listening h j, silent h, get-insert i j s m.states, eq_iff i j);
  once = w.once;
}

silent_of_inactive :
    (m : LifecycleManager) (i : String)
    → IsWellFormed m
    → get_state m i ≢ some active
    → (h : Hook) → contains i (get_listeners m h) ≡ false
silent_of_inactive m i w n h = elim (Bool-cases (contains i (get_listeners m h))) [
  | inl e ↦ absurd (n (w.listening h i e))
  | inr e ↦ e
]

discover-IsWellFormed :
    (m : LifecycleManager) (i : String) → IsWellFormed m → IsWellFormed (discover m i).0
unfolding discover get_state
discover-IsWellFormed m i w = elim (Bool-cases (HashMap.contains_key i m.states)) [
  | inl e ↦ rw e w
  | inr e ↦ rw e (
      enter-IsWellFormed m i discovered
        (silent_of_inactive m i w (ground (arith, contains_key-get i m.states))) w)
]

load-IsWellFormed : (m : LifecycleManager) (i : String) → IsWellFormed m → IsWellFormed (load m i).0
unfolding load get_state
load-IsWellFormed m i w = elim (Option-cases (HashMap.get i m.states)) [
  | inl e ↦ rw (e, load) w
  | inr (discovered, e) ↦
      rw (e, load) (enter-IsWellFormed m i loaded (silent_of_inactive m i w (ground arith)) w)
  | inr (active, e) ↦ rw (e, load) w
  | inr (loaded, e) ↦ rw (e, load) w
  | inr (unloaded, e) ↦ rw (e, load) w
  | inr (suspended r, e) ↦ rw (e, load) w
]

-- Every handler keeps the invariant, whether it succeeds or fails.
pub handle-IsWellFormed :
    (m : LifecycleManager) (c : Command) → IsWellFormed m → IsWellFormed (handle m c).0
unfolding handle register_hooks resume suspend unload
handle-IsWellFormed m (to_discover i) w = discover-IsWellFormed m i w
handle-IsWellFormed m (to_load i) w = load-IsWellFormed m i w
handle-IsWellFormed m (to_unload i) w = ground (arith, retire-IsWellFormed m i unloaded w)
handle-IsWellFormed m (to_register i p) w = ground (arith, activate-IsWellFormed m i p w)
handle-IsWellFormed m (to_resume i p) w = ground (arith, activate-IsWellFormed m i p w)
handle-IsWellFormed m (to_suspend i r) w = ground (arith, retire-IsWellFormed m i (suspended r) w)

run-IsWellFormed :
    (m : LifecycleManager) (cs : List Command) → IsWellFormed m → IsWellFormed (run m cs)
unfolding run
run-IsWellFormed m [] w = w
run-IsWellFormed m (c ∷ cs) w = run-IsWellFormed (handle m c).0 cs (handle-IsWellFormed m c w)

-- After any history of calls on a new manager, every listener of every hook is a plugin in the
-- state Active, and no plugin stands twice among the listeners of a hook.
pub run-new-IsWellFormed : (cs : List Command) → IsWellFormed (run new cs)
run-new-IsWellFormed cs = run-IsWellFormed new cs new-IsWellFormed
