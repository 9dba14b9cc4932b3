-- ===== src/Compiler.antt =====
-- crates/clash-prism-core/src/compiler.rs: the registration of patches and the resolution of their
-- `__after__` dependencies by a topological sort (Kahn's algorithm).
pub mod Degrees
pub mod Building
pub mod Linking
pub mod Queue
pub mod Rounds
pub mod Prompt
pub mod MainLoop
pub mod Sorted
pub mod Edges
pub mod Acyclic
pub mod Files
mod Examples
use Prim.Native.Nat.{Ordering}
use Prim.Native.String.{compare}
use clash_prism_engine.Base.{
  ◌≡◌, refl, ℕ, zero, suc, ◌+◌, ◌-◌, ◌^◌, String, Option, none, some, List, [], ◌∷◌, ◌++◌, map,
  if◌then◌else◌, string_eq, nat_eq, eqb, contains, length, Outcome, ok, err,
}
use clash_prism_engine.Base.HashMap
use clash_prism_engine.Base.HashMap.{HashMap}
use clash_prism_engine.Ir.{PatchId, Patch, DependencyRef, file_name, patch_id}

-- The errors of compiler.rs. The source renders the arguments into a text; for a cycle it also looks
-- for one closed path among the patches listed here, which are those that were not sorted.
pub data CompileError : Type 0 where
  dependency_not_found : (dep : String) (file : Option String) → CompileError
  circular_dependency : (unsorted : List PatchId) → CompileError
  ambiguous_short_name : (short_name file_name : String) → CompileError

-- The `?` of a result.
infixl 5 ◌>>=◌
abbrev pub ◌>>=◌ {ℓ κ} :
    {X : Type ℓ} {Y : Type κ}
    → Outcome X CompileError
    → (X → Outcome Y CompileError)
    → Outcome Y CompileError
err stop >>= next = err stop
ok value >>= next = next value

-- Inversion of a chain that succeeds.
pub >>=-eq-ok {ℓ κ} :
    {X : Type ℓ} {Y : Type κ} (first : Outcome X CompileError) (next : X → Outcome Y CompileError)
    {y : Y}
    → (first >>= next) ≡ ok y
    → (x : X) × (first ≡ ok x) × (next x ≡ ok y)
>>=-eq-ok (err stop) next e = cc
>>=-eq-ok (ok value) next e = (value, refl, e)

-- The nodes by number of unsorted dependencies, and from each node to those that depend on it.
pub record Graph : Type 0 where
  pub in_degree : HashMap PatchId ℕ
  pub adj : HashMap PatchId (List PatchId)

-- `entry(key).or_insert(v)`.
pub or_insert {ℓ} : {V : Type ℓ} → PatchId → V → HashMap PatchId V → HashMap PatchId V
or_insert k v m = if HashMap.contains_key k m then m else HashMap.insert k v m

-- One dependency edge: the two statements of the innermost loop that builds the graph.
pub add_edge : (dep_id id : PatchId) → Graph → Graph
add_edge dep_id id g = record {
  in_degree = HashMap.insert id (HashMap.get_or 0 id g.in_degree + 1) g.in_degree;
  adj = HashMap.insert dep_id (HashMap.get_or [] dep_id g.adj ++ id ∷ []) g.adj;
}

pub add_edges : PatchId → List PatchId → Graph → Graph
add_edges id [] g = g
add_edges id (dep_id ∷ dep_ids) g = add_edges id dep_ids (add_edge dep_id id g)

-- `name_to_ids`: the value keeps, beside the ids, the file that owns them, since the source compares
-- the addresses of two id lists.
abbrev pub NameTable : Type 0
NameTable = HashMap String (String × List PatchId)

-- `*degree -= 1` on a `usize`; a release build wraps round below zero.
pub decrement : ℕ → ℕ
decrement d = if eqb d 0 then 2 ^ 64 - 1 else d - 1

-- The keys of the `BTreeMap` that serves as the queue: a sort key and a node, compared in this order.
abbrev pub QueueKey : Type 0
QueueKey = String × PatchId

pub compare_keys : QueueKey → QueueKey → Ordering
compare_keys (s, i) (t, j) = elim (compare s t) [ Ordering.eq ↦ compare i j | o ↦ o ]

-- `BTreeMap::insert` with the unit value; `pop_first` takes the head of the list.
pub enqueue : QueueKey → List QueueKey → List QueueKey
enqueue k [] = k ∷ []
enqueue k (j ∷ q) = elim (compare_keys k j) [
  | Ordering.lt ↦ k ∷ j ∷ q
  | Ordering.eq ↦ j ∷ q
  | Ordering.gt ↦ j ∷ enqueue k q
]

-- The insertion of a node into the queue, where it has a sort key.
pub enqueue_node : HashMap PatchId String → PatchId → List QueueKey → List QueueKey
enqueue_node sort_keys id queue = elim (HashMap.get id sort_keys) [
  | none ↦ queue
  | some sort_key ↦ enqueue (sort_key, id) queue
]

-- The nodes that depend on nothing, gone through in the order of the map.
pub initial_queue : HashMap PatchId String → HashMap PatchId ℕ → List QueueKey → List QueueKey
initial_queue sort_keys [] queue = queue
initial_queue sort_keys ((id, degree) ∷ m) queue =
    initial_queue sort_keys m (if eqb degree 0 then enqueue_node sort_keys id queue else queue)

-- One neighbour of a sorted node.
pub relax :
    HashMap PatchId String
    → PatchId
    → HashMap PatchId ℕ × List QueueKey
    → HashMap PatchId ℕ × List QueueKey
relax sort_keys neighbor (in_degree, queue) = elim (HashMap.get neighbor in_degree) [
  | none ↦ (in_degree, queue)
  | some degree ↦ (
    HashMap.insert neighbor (decrement degree) in_degree,
    if eqb (decrement degree) 0 then enqueue_node sort_keys neighbor queue else queue,
  )
]

pub relax_all :
    HashMap PatchId String
    → List PatchId
    → HashMap PatchId ℕ × List QueueKey
    → HashMap PatchId ℕ × List QueueKey
relax_all sort_keys [] state = state
relax_all sort_keys (neighbor ∷ neighbors) state =
    relax_all sort_keys neighbors (relax sort_keys neighbor state)

pub record Tables {ℓ} (V : Type ℓ) : Type ℓ where
  pub graph : Graph
  pub id_to_patch : HashMap PatchId (Patch V)
  pub id_to_sort_key : HashMap PatchId String

pub record Sorting {ℓ} (V : Type ℓ) : Type ℓ where
  pub in_degree : HashMap PatchId ℕ
  pub queue : List QueueKey
  pub result : List (Patch V)

module _ {ℓ} {V : Type ℓ} where
  pub sort_key_of : Patch V → String
  sort_key_of patch = elim patch.source.file [ none ↦ patch.id | some file ↦ file ]

  -- A round of the loop of the initialisation.
  pub initialize_patch : Patch V → Tables V → Tables V
  initialize_patch patch t = record {
    graph = record {
      in_degree = or_insert patch.id 0 t.graph.in_degree;
      adj = or_insert patch.id [] t.graph.adj;
    };
    id_to_patch = HashMap.insert patch.id patch t.id_to_patch;
    id_to_sort_key = HashMap.insert patch.id (sort_key_of patch) t.id_to_sort_key;
  }

  pub initialize : List (Patch V) → Tables V → Tables V
  initialize [] t = t
  initialize (patch ∷ patches) t = initialize patches (initialize_patch patch t)

  -- The nodes that one `__after__` reference of a patch names.
  pub dependency_ids :
      NameTable
      → HashMap PatchId (Patch V)
      → Patch V
      → DependencyRef
      → Outcome (List PatchId) CompileError
  dependency_ids names id_to_patch patch (file_name name) = elim (HashMap.get name names) [
    | none ↦ err (dependency_not_found name patch.source.file)
    | some (owner, ids) ↦ ok ids
  ]
  dependency_ids names id_to_patch patch (patch_id pid) =
      if HashMap.contains_key pid id_to_patch
      then ok (pid ∷ [])
      else err (dependency_not_found pid patch.source.file)

  pub link_dependencies :
      NameTable
      → HashMap PatchId (Patch V)
      → Patch V
      → List DependencyRef
      → Graph
      → Outcome Graph CompileError
  link_dependencies names id_to_patch patch [] g = ok g
  link_dependencies names id_to_patch patch (dep ∷ deps) g = do
    dep_ids ← dependency_ids names id_to_patch patch dep
    link_dependencies names id_to_patch patch deps (add_edges patch.id dep_ids g)

  pub link_patches :
      NameTable → HashMap PatchId (Patch V) → List (Patch V) → Graph → Outcome Graph CompileError
  link_patches names id_to_patch [] g = ok g
  link_patches names id_to_patch (patch ∷ patches) g = do
    g' ← link_dependencies names id_to_patch patch patch.after g
    link_patches names id_to_patch patches g'

  -- `if let Some(&patch) = id_to_patch.get(&id) { result.push(patch) }`.
  pub push_patch : HashMap PatchId (Patch V) → PatchId → List (Patch V) → List (Patch V)
  push_patch id_to_patch id result = elim (HashMap.get id id_to_patch) [
    | none ↦ result
    | some patch ↦ result ++ patch ∷ []
  ]

  -- A round of the main loop, for the key that was popped and the queue that is left.
  pub sort_round :
      Tables V → HashMap PatchId (List PatchId) → Sorting V → PatchId → List QueueKey → Sorting V
  sort_round t adj s id queue =
      let relaxed = relax_all t.id_to_sort_key (HashMap.get_or [] id adj) (s.in_degree, queue) in
      record {
        in_degree = relaxed.0;
        queue = relaxed.1;
        result = push_patch t.id_to_patch id s.result;
      }

  -- The main loop, with fuel; each round sorts another node, so one more than the nodes is enough.
  pub sort_loop : ℕ → Tables V → HashMap PatchId (List PatchId) → Sorting V → Sorting V
  sort_loop zero t adj s = s
  sort_loop (suc fuel) t adj s = elim s.queue [
    | [] ↦ s
    | (sort_key, id) ∷ queue ↦ sort_loop fuel t adj (sort_round t adj s id queue)
  ]

  abbrev pub ids : List (Patch V) → List PatchId
  ids ps = map (λ p. p.id) ps

  abbrev pub no_tables : Tables V
  no_tables = record {
    graph = record { in_degree = []; adj = [] };
    id_to_patch = [];
    id_to_sort_key = [];
  }

  pub without_ids : List PatchId → List (Patch V) → List PatchId
  without_ids known [] = []
  without_ids known (p ∷ ps) =
      if contains p.id known then without_ids known ps else p.id ∷ without_ids known ps

  -- The length test behind the main loop.
  pub check_sorted : List (Patch V) → List (Patch V) → Outcome (List (Patch V)) CompileError
  check_sorted all_patches result =
      if eqb (length result) (length all_patches)
      then ok result
      else err (circular_dependency (without_ids (ids result) all_patches))

  pub sort_graph : Tables V → Graph → ℕ → Sorting V
  sort_graph t g fuel = sort_loop fuel t g.adj (record {
    in_degree = g.in_degree;
    queue = initial_queue t.id_to_sort_key g.in_degree [];
    result = [];
  })

  pub topological_sort : List (Patch V) → NameTable → Outcome (List (Patch V)) CompileError
  topological_sort all_patches names =
      let t = initialize all_patches no_tables in
      do
        g ← link_patches names t.id_to_patch all_patches t.graph
        check_sorted all_patches (sort_graph t g (length all_patches + 1)).result
