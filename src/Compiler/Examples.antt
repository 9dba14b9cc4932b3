-- ===== src/Compiler/Examples.antt =====
-- The theorems about the compiler at concrete patches.
use mathlib.Core.List.{Memᴰ}
use mathlib.Core.List.Memᴰ
use mathlib.Core.Path.{subst}
use clash_prism_engine.Base.{
  ℕ, ◌<◌, String, ◌≡◌, ◌≢◌, refl, inl, inr, true, none, some, List, [], ◌∷◌, arith, if◌then◌else◌,
  ◌==◌, string_eq, eq_iff, contains, IsDistinct, ok, err,
}
use clash_prism_engine.Base.HashMap
use clash_prism_engine.Scope.{Scope}
use clash_prism_engine.Ir.{PatchId, Patch, DependencyRef, file_name, patch_id, yaml_file, override}
use clash_prism_engine.Compiler.{
  circular_dependency, ambiguous_short_name, NameTable, topological_sort, initialize,
  initialize_patch, or_insert, sort_key_of, link_patches, link_dependencies, dependency_ids,
  add_edges, add_edge, sort_graph, sort_loop, sort_round, push_patch, initial_queue, enqueue_node,
  enqueue, compare_keys, relax_all, relax, decrement, check_sorted, without_ids, ids,
}
use clash_prism_engine.Compiler.Sorted.{Names, IsSorted, before, topological_sort-IsSorted}
use clash_prism_engine.Compiler.Acyclic.{IsRanked, IsClosed, topological_sort-ne-circular}
use clash_prism_engine.Compiler.Files.{
  new, register_patches, resolve_dependencies, get_all_patches, flatten_values, add_names, add_name,
  short_name, strip_suffix,
}
use clash_prism_engine.Compiler.Files.Names.{add_names_order}
use clash_prism_engine.Compiler.Files.Resolution.{register_all, resolve_dependencies-before}

program : Unit {0}
unfolding topological_sort initialize initialize_patch or_insert sort_key_of link_patches
    link_dependencies dependency_ids add_edges add_edge sort_graph sort_loop sort_round push_patch
    initial_queue enqueue_node enqueue compare_keys relax_all relax decrement check_sorted
    without_ids HashMap.get HashMap.insert HashMap.contains_key contains new register_patches
    resolve_dependencies get_all_patches flatten_values add_names add_name short_name strip_suffix
program = tt

abbrev patch : String → List DependencyRef → Patch ℕ
patch id after = record {
  id = id;
  source = record { kind = yaml_file; file = some id; line = none; plugin_id = none };
  scope = Scope.global;
  path = "dns";
  op = override;
  value = 0;
  condition = none;
  after = after;
  sub_ops = [];
}

-- "a" waits for the file of "c", and "c" for "b".
abbrev given : List (Patch ℕ)
given =
    patch "a" (file_name "late.prism.yaml" ∷ []) ∷ patch "c" (patch_id "b" ∷ []) ∷ patch "b" [] ∷ []

abbrev names : NameTable
names = ("late.prism.yaml", ("late.prism.yaml", "c" ∷ [])) ∷ []

abbrev expected : List (Patch ℕ)
expected =
    patch "b" [] ∷ patch "c" (patch_id "b" ∷ []) ∷ patch "a" (file_name "late.prism.yaml" ∷ []) ∷ []

given_sorts : topological_sort given names ≡ ok expected
unfolding program
given_sorts = refl

cycle_found :
    topological_sort (patch "x" (patch_id "y" ∷ []) ∷ patch "y" (patch_id "x" ∷ []) ∷ []) []
    ≡ err (circular_dependency ("x" ∷ "y" ∷ []))
unfolding program
cycle_found = refl

topological_sort-IsSorted_example : IsSorted given names expected
topological_sort-IsSorted_example = topological_sort-IsSorted given names expected given_sorts

abbrev lone : List (Patch ℕ)
lone = patch "b" [] ∷ patch "c" (patch_id "b" ∷ []) ∷ []

abbrev rank : PatchId → ℕ
rank n = if n == "b" then 0 else 1

lone_descends :
    (p : Patch ℕ) (dep : DependencyRef) (d : PatchId)
    → Memᴰ p lone
    → Memᴰ dep p.after
    → Names [] dep d
    → rank d < rank p.id
unfolding program
lone_descends p dep d m r n = elim (Memᴰ.cases_cons m) [
  | inl first ↦ absurd (Memᴰ.not-nil (subst (λ q. Memᴰ dep q.after) first r))
  | inr later ↦
      let second = Memᴰ.eq_of_singleton later in
      let named = Memᴰ.eq_of_singleton (subst (λ q. Memᴰ dep q.after) second r) in
      let same : ◌≡◌ {A = PatchId} "b" d = subst (λ r. Names [] r d) named n in
      rw second (rw (← same) (omega arith))
]

lone-IsClosed : IsClosed lone []
unfolding HashMap.get
lone-IsClosed name owner listed d e c = ground arith

lone-IsRanked : IsRanked lone []
lone-IsRanked = record { rank = rank; descends = lone_descends }

lone-IsDistinct : IsDistinct (ids lone)
unfolding contains
lone-IsDistinct = (refl, (refl, tt))

topological_sort-ne-circular_example :
    topological_sort lone [] ≢ err (circular_dependency ("b" ∷ []))
topological_sort-ne-circular_example =
    topological_sort-ne-circular lone [] lone-IsRanked lone-IsClosed lone-IsDistinct ("b" ∷ [])

abbrev files : List (String × List (Patch ℕ))
files =
    ("a.prism.yaml", patch "a" (file_name "late.prism.yaml" ∷ []) ∷ [])
    ∷ ("late.prism.yaml", patch "c" (patch_id "b" ∷ []) ∷ patch "b" [] ∷ [])
    ∷ []

files_resolve : resolve_dependencies (register_all new files) ≡ ok ("b" ∷ "c" ∷ "a" ∷ [])
unfolding program
files_resolve = refl

resolve_dependencies-before_example :
    IsDistinct {A = PatchId} ("b" ∷ "c" ∷ "a" ∷ [])
    × ((p : Patch ℕ)
        → Memᴰ p (get_all_patches (register_all new files))
        → (contains p.id ("b" ∷ "c" ∷ "a" ∷ []) ≡ true)
          × ((d : PatchId)
              → Memᴰ (patch_id d) p.after
              → before d p.id ("b" ∷ "c" ∷ "a" ∷ []) ≡ true)
          × ((f : String) (is : List PatchId) (d : PatchId)
              → Memᴰ (file_name f) p.after
              → HashMap.get f (register_all (new {V = ℕ}) files).file_to_ids ≡ some is
              → contains d is ≡ true
              → before d p.id ("b" ∷ "c" ∷ "a" ∷ []) ≡ true))
resolve_dependencies-before_example =
    resolve_dependencies-before files ("b" ∷ "c" ∷ "a" ∷ []) files_resolve

plain_short : short_name "base" ≡ "base"
unfolding program
plain_short = refl

yaml_short : short_name "base.prism.yaml" ≡ "base"
unfolding program
yaml_short = refl

base_ne : ◌≢◌ {A = String} "base" "base.prism.yaml"
base_ne e = ground (arith, eq_iff "base" "base.prism.yaml")

add_names_order_example :
    ((t : NameTable) × (add_names (("base.prism.yaml", "q" ∷ []) ∷ ("base", "p" ∷ []) ∷ []) []
        ≡ ok t))
    × (add_names (("base", "p" ∷ []) ∷ ("base.prism.yaml", "q" ∷ []) ∷ []) []
        ≡ err (ambiguous_short_name "base" "base.prism.yaml"))
add_names_order_example =
    add_names_order "base" "base.prism.yaml" ("p" ∷ []) ("q" ∷ []) base_ne plain_short yaml_short
