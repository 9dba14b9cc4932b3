-- ===== src/Plugin/Lifecycle/Transitions.antt =====
-- Which state changes the handlers make, when they succeed, and what pausing and resuming do to the
-- registry.
use clash_prism_engine.Base.{
  String, ◌≡◌, ◌⊎◌, ◌↔◌, inl, inr, refl, Option, none, some, List, [], ◌∷◌, arith, ◌==◌, contains,
  without, string_eq, eq_iff, contains-without, Bool-cases, beq_refl, if◌then◌else◌, ok, err,
}
use clash_prism_engine.Base.HashMap
use clash_prism_engine.Base.HashMap.{get-insert, contains_key-get}
use clash_prism_engine.Plugin.Hook.{Hook, hook_eq}
use clash_prism_engine.Plugin.Manifest.{PluginManifest}
use clash_prism_engine.Plugin.Lifecycle.{
  PluginState, active, discovered, loaded, suspended, unloaded, TransitionError, LifecycleManager,
  discover, load, register_hooks, suspend, resume, unload, get_listeners, get_state, Command,
  to_discover, to_load, to_unload, to_register, to_resume, to_suspend, handle, run,
}
use clash_prism_engine.Plugin.Lifecycle.Registry.{
  contains-add_hooks_to_registry, listeners-map_values, listeners,
}

-- The arrows of the state machine, and staying.
pub data Transition : Option PluginState → Option PluginState → Type 0 where
  stays : (s : Option PluginState) → Transition s s
  discovers : Transition none (some discovered)
  loads : Transition (some discovered) (some loaded)
  activates : Transition (some loaded) (some active)
  suspends : (reason : String) → Transition (some active) (some (suspended reason))
  resumes : (reason : String) → Transition (some (suspended reason)) (some active)
  unloads : Transition (some active) (some unloaded)
  unloads_suspended : (reason : String) → Transition (some (suspended reason)) (some unloaded)

-- The plugin that a call is about.
abbrev pub target : Command → String
target (to_discover i) = i
target (to_load i) = i
target (to_unload i) = i
target (to_register i p) = i
target (to_resume i p) = i
target (to_suspend i r) = i

-- Whether a call may succeed, by the state of its plugin.
abbrev pub IsAllowed : Command → Option PluginState → Type 0
IsAllowed (to_discover i) s = Unit
IsAllowed (to_load i) s = s ≡ some discovered
IsAllowed (to_register i p) s = (s ≡ some loaded) ⊎ ((r : String) × (s ≡ some (suspended r)))
IsAllowed (to_resume i p) s = (r : String) × (s ≡ some (suspended r))
IsAllowed (to_suspend i r) s = s ≡ some active
IsAllowed (to_unload i) s = (s ≡ some active) ⊎ ((r : String) × (s ≡ some (suspended r)))

-- A call that is refused leaves the manager as it was.
pub handle-refused :
    (m : LifecycleManager) (c : Command) (e : TransitionError)
    → (handle m c).1 ≡ err e
    → (handle m c).0 ≡ m
unfolding handle load register_hooks resume suspend unload
handle-refused m (to_discover i) e h = ground arith
handle-refused m c e h = ground arith

-- A call succeeds exactly when its plugin is in one of the states that the handler requires.
pub handle-eq-ok :
    (m : LifecycleManager) (c : Command)
    → ((handle m c).1 ≡ ok tt) ↔ IsAllowed c (get_state m (target c))
unfolding handle load register_hooks resume suspend unload get_state
handle-eq-ok m (to_discover i) = ground arith
handle-eq-ok m c = ground arith

-- The state of the plugin of a call, after the call.
next : Command → Option PluginState → Option PluginState
next (to_discover i) none = some discovered
next (to_load i) (some discovered) = some loaded
next (to_register i p) (some loaded) = some active
next (to_register i p) (some (suspended r)) = some active
next (to_resume i p) (some (suspended r)) = some active
next (to_suspend i r) (some active) = some (suspended r)
next (to_unload i) (some active) = some unloaded
next (to_unload i) (some (suspended r)) = some unloaded
next _ s = s

next-Transition : (c : Command) (s : Option PluginState) → Transition s (next c s)
unfolding next
next-Transition (to_discover i) none = discovers
next-Transition (to_load i) (some discovered) = loads
next-Transition (to_register i p) (some loaded) = activates
next-Transition (to_register i p) (some (suspended r)) = resumes r
next-Transition (to_resume i p) (some (suspended r)) = resumes r
next-Transition (to_suspend i r) (some active) = suspends r
next-Transition (to_unload i) (some active) = unloads
next-Transition (to_unload i) (some (suspended r)) = unloads_suspended r
next-Transition c s = stays s

get_state-handle :
    (m : LifecycleManager) (c : Command) (j : String)
    → get_state (handle m c).0 j ≡ (if target c == j then next c (get_state m j) else get_state m j)
unfolding handle discover load register_hooks resume suspend unload get_state next
get_state-handle m (to_discover i) j =
    ground (arith, get-insert i j discovered m.states, contains_key-get i m.states, eq_iff i j)
get_state-handle m (to_load i) j = ground (arith, get-insert i j loaded m.states, eq_iff i j)
get_state-handle m (to_unload i) j = ground (arith, get-insert i j unloaded m.states, eq_iff i j)
get_state-handle m (to_register i p) j = ground (arith, get-insert i j active m.states, eq_iff i j)
get_state-handle m (to_resume i p) j = ground (arith, get-insert i j active m.states, eq_iff i j)
get_state-handle m (to_suspend i r) j =
    ground (arith, get-insert i j (suspended r) m.states, eq_iff i j)

-- Every call moves every plugin along an arrow of the state machine, or leaves its state alone.
pub handle-Transition :
    (m : LifecycleManager) (c : Command) (j : String)
    → Transition (get_state m j) (get_state (handle m c).0 j)
handle-Transition m c j = elim (Bool-cases (target c == j)) [
  | inl e ↦ rw (get_state-handle m c j, e) (next-Transition c (get_state m j))
  | inr e ↦ rw (get_state-handle m c j, e) (stays (get_state m j))
]

next-unloaded : (c : Command) → next c (some unloaded) ≡ some unloaded
unfolding next
next-unloaded (to_discover i) = refl
next-unloaded c = refl

-- Once a plugin is unloaded, no further call changes its state: neither discovering it again nor
-- loading, registering, resuming, suspending or unloading it.
pub run-unloaded :
    (m : LifecycleManager) (cs : List Command) (j : String)
    → get_state m j ≡ some unloaded
    → get_state (run m cs) j ≡ some unloaded
unfolding run
run-unloaded m [] j h = h
run-unloaded m (c ∷ cs) j h =
    run-unloaded (handle m c).0 cs j (ground (arith, get_state-handle m c j, next-unloaded c))

-- Suspending an active plugin and resuming it with a manifest succeeds, makes it active again, and
-- leaves it listening to exactly the hooks of the manifest; who else listens to a hook is as before.
pub resume-suspend :
    (m : LifecycleManager) (i reason : String) (manifest : PluginManifest)
    → get_state m i ≡ some active
    → ((resume (suspend m i reason).0 i manifest).1 ≡ ok tt)
      × (get_state (resume (suspend m i reason).0 i manifest).0 i ≡ some active)
      × ((h : Hook) (j : String)
          → contains j (get_listeners (resume (suspend m i reason).0 i manifest).0 h)
            ≡ (if i == j then contains h manifest.hooks else contains j (get_listeners m h)))
unfolding suspend resume get_state get_listeners
resume-suspend m i reason manifest a =
    let back = HashMap.insert i (suspended reason) m.states in
    (
      ground (arith, get-insert i i (suspended reason) m.states, beq_refl i),
      ground (
        arith,
        get-insert i i (suspended reason) m.states,
        beq_refl i,
        get-insert i i active back,
      ),
      λ h j. ground (
        arith,
        get-insert i i (suspended reason) m.states,
        beq_refl i,
        contains-add_hooks_to_registry i j manifest.hooks h
            (HashMap.map_values (without i) m.hook_registry),
        listeners-map_values i h m.hook_registry,
        contains-without i j (listeners h m.hook_registry),
        eq_iff i j,
      ),
    )
