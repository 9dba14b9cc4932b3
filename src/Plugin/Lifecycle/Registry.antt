-- ===== src/Plugin/Lifecycle/Registry.antt =====
-- Lemmas on the hook registry: who listens to which hook after hooks are added or a plugin is
-- removed.
use clash_prism_engine.Base.{
  String, ◌≡◌, refl, ◌||◌, ◌&&◌, List, [], ◌∷◌, ◌++◌, arith, if◌then◌else◌, ◌==◌, contains, without,
  string_eq, eq_iff, IsDistinct, IsDistinct-snoc, contains-append,
}
use clash_prism_engine.Base.HashMap
use clash_prism_engine.Base.HashMap.{HashMap, get-insert, get_or-map_values}
use clash_prism_engine.Plugin.Hook.{Hook, hook_eq, hook_beq_iff}
use clash_prism_engine.Plugin.Lifecycle.{add_hook, add_hooks_to_registry}

abbrev pub Registry : Type 0
Registry = HashMap Hook (List String)

abbrev pub listeners : Hook → Registry → List String
listeners h r = HashMap.get_or [] h r

listeners-add_hook :
    (i : String) (h k : Hook) (r : Registry)
    → listeners k (add_hook i h r) ≡ (
        if h == k
        then if contains i (listeners h r) then listeners h r else listeners h r ++ i ∷ []
        else listeners k r)
unfolding add_hook contains
listeners-add_hook i h k r =
    ground (
      arith,
      hook_beq_iff h k,
      get-insert h k (i ∷ []) r,
      get-insert h k (listeners h r ++ i ∷ []) r,
    )

contains-add_hook :
    (i j : String) (h k : Hook) (r : Registry)
    → contains j (listeners k (add_hook i h r))
      ≡ (contains j (listeners k r) || ((h == k) && (i == j)))
unfolding contains
contains-add_hook i j h k r = ground (
  arith,
  listeners-add_hook i h k r,
  hook_beq_iff h k,
  eq_iff i j,
  contains-append j (listeners h r) (i ∷ []),
)

-- Exactly the plugin itself is added, to exactly the hooks listed.
pub contains-add_hooks_to_registry :
    (i j : String) (hs : List Hook) (k : Hook) (r : Registry)
    → contains j (listeners k (add_hooks_to_registry i hs r))
      ≡ (contains j (listeners k r) || ((i == j) && contains k hs))
unfolding add_hooks_to_registry contains
contains-add_hooks_to_registry i j [] k r = ground arith
contains-add_hooks_to_registry i j (h ∷ hs) k r =
    ground
      (arith, contains-add_hooks_to_registry i j hs k (add_hook i h r), contains-add_hook i j h k r)

IsDistinct-add_hook :
    (i : String) (h k : Hook) (r : Registry)
    → IsDistinct (listeners h r)
    → IsDistinct (listeners k r)
    → IsDistinct (listeners k (add_hook i h r))
IsDistinct-add_hook i h k r d d' =
    rw (listeners-add_hook i h k r) (ground (arith, IsDistinct-snoc i (listeners h r) d))

pub IsDistinct-add_hooks_to_registry :
    (i : String) (hs : List Hook) (r : Registry)
    → ((k : Hook) → IsDistinct (listeners k r))
    → (k : Hook) → IsDistinct (listeners k (add_hooks_to_registry i hs r))
unfolding add_hooks_to_registry
IsDistinct-add_hooks_to_registry i [] r d k = d k
IsDistinct-add_hooks_to_registry i (h ∷ hs) r d k =
    IsDistinct-add_hooks_to_registry i hs (add_hook i h r)
      (λ l. IsDistinct-add_hook i h l r (d h) (d l)) k

pub listeners-map_values :
    (i : String) (k : Hook) (r : Registry)
    → listeners k (HashMap.map_values (without i) r) ≡ without i (listeners k r)
unfolding without
listeners-map_values i k r = get_or-map_values (without i) [] k r refl
