-- ===== src/Compiler/Acyclic.antt =====
-- The topological sort of patches that can be ranked: no node is left unsorted.

use mathlib.Core.List.{Memᴰ, append-nil}
use mathlib.Core.Path.{subst}
use native.Mathlib.Decide.{ℕ_discrete}
use clash_prism_engine.Base.{
  ℕ, zero, suc, ◌+◌, ◌≤◌, ◌<◌, String, ◌≡◌, ◌≢◌, refl, inl, inr, true, false, some, List, [], ◌∷◌,
  ◌++◌, arith, ◌==◌, string_eq, eq_iff, eqb_iff, contains, beq_refl, Bool-cases, Option-cases,
  IsDistinct, length, length-le_of_contains, Outcome-cases, ok, err,
}
use clash_prism_engine.Base.HashMap
use clash_prism_engine.Base.HashMap.{HashMap, IsUnique, get-insert, contains_key-get}
use clash_prism_engine.Ir.{PatchId, Patch, DependencyRef, file_name, patch_id}
use clash_prism_engine.Compiler.{
  circular_dependency, add_edges, NameTable, Graph, Tables, Sorting, ids, no_tables, initialize,
  link_patches, link_dependencies, dependency_ids, sort_graph, check_sorted, topological_sort,
}
use clash_prism_engine.Compiler.Edges.{Along, link_patches-Along, initialize-Along}
use clash_prism_engine.Compiler.Degrees.{Adjacency, next, count, pending}
use clash_prism_engine.Compiler.Linking.{initialize_lem, initialize-contains_key, link_patches_lem}
use clash_prism_engine.Compiler.MainLoop.{
  IsSorting, sort_graph-IsSorting, length-ids, result-le_patches,
}
use clash_prism_engine.Compiler.Queue.{nodes}
use clash_prism_engine.Compiler.Sorted.{Names}

-- A node with something pending has an edge from a node that is not sorted.
contains_of_count : (n : PatchId) (xs : List PatchId) → count n xs ≢ 0 → contains n xs ≡ true
unfolding count contains
contains_of_count n [] z = absurd (z refl)
contains_of_count n (x ∷ xs) z = ground (arith, contains_of_count n xs)

pending_source :
    (sorted : List PatchId) (n : PatchId) (adj : Adjacency)
    → IsUnique adj
    → pending sorted n adj ≢ 0
    → (a : PatchId) × (contains n (next a adj) ≡ true) × (contains a sorted ≡ false)
unfolding pending HashMap.get contains
pending_source sorted n [] u z = absurd (z refl)
pending_source sorted n ((j, ns) ∷ adj) (u, us) z = elim (ℕ_discrete (pending sorted n adj) 0) [
  | yes none_later ↦ (j, ground (arith, contains_of_count n ns, beq_refl j), ground arith)
  | no later ↦
      let (a, edge, open_node) = pending_source sorted n adj us later in
      (a, ground (arith, contains_key-get a adj, eq_iff j a), open_node)
]

-- The patches can be ranked so that every patch ranks above all that its references name.
pub record IsRanked {ℓ} {V : Type ℓ} (patches : List (Patch V)) (names : NameTable) : Type ℓ where
  pub rank : PatchId → ℕ
  pub descends :
      (p : Patch V) (dep : DependencyRef) (d : PatchId)
      → Memᴰ p patches
      → Memᴰ dep p.after
      → Names names dep d
      → rank d < rank p.id

-- The name table lists ids of the patches alone, as the registration of files makes it.
abbrev pub IsClosed {ℓ} : {V : Type ℓ} → List (Patch V) → NameTable → Type 0
IsClosed patches names =
    (name : String) (owner : String) (listed : List PatchId) (d : PatchId)
    → HashMap.get name names ≡ some (owner, listed)
    → contains d listed ≡ true
    → contains d (ids patches) ≡ true

module _ {ℓ} {V : Type ℓ} (patches : List (Patch V)) (t : Tables V) (g : Graph) (s : Sorting V)
    (rank : PatchId → ℕ) (i : IsSorting patches t g.adj s) (drained : s.queue ≡ [])
    (unique : IsUnique g.adj)
    (falls : Along
      (λ a x. (rank a < rank x) × (HashMap.contains_key a t.id_to_patch ≡ true))
      g) where
  all_done :
      (n : PatchId)
      → contains n (ids s.result ++ nodes s.queue) ≡ true
      → contains n (ids s.result) ≡ true
  unfolding contains
  all_done n h =
      rw (append-nil (ids s.result)) at
        (subst (λ q. contains n (ids s.result ++ nodes q) ≡ true) drained h)

  zero_of_pending :
      (n : PatchId)
      → HashMap.contains_key n t.id_to_patch ≡ true
      → pending (ids s.result) n g.adj ≡ 0
      → HashMap.get n s.in_degree ≡ some 0
  unfolding count
  zero_of_pending n c z = elim (Option-cases (HashMap.get n s.in_degree)) [
    | inl e ↦ absurd (ground (arith, i.noded n, contains_key-get n s.in_degree))
    | inr (d, e) ↦ ground (arith, i.round.degree n d e)
  ]

  -- By induction on the rank, every node is sorted.
  all_sorted :
      (k : ℕ) (n : PatchId)
      → rank n < k
      → HashMap.contains_key n t.id_to_patch ≡ true
      → contains n (ids s.result) ≡ true
  all_sorted zero n h c = absurd (omega arith)
  all_sorted (suc k) n h c = elim (Bool-cases (contains n (ids s.result))) [
    | inl e ↦ e
    | inr e ↦
        let at_zero : HashMap.get n s.in_degree ≢ some 0 =
          λ z. absurd (ground (arith, all_done n (i.prompt n z))) in
        let (a, edge, unsorted) =
          pending_source (ids s.result) n g.adj unique (λ z. at_zero (zero_of_pending n c z)) in
        let (lower, known) = falls a n edge in
        absurd (ground (arith, all_sorted k a (omega arith) known))
  ]

contains-ids_source {ℓ} :
    {V : Type ℓ} (n : PatchId) (ps : List (Patch V))
    → contains n (ids ps) ≡ true
    → (p : Patch V) × Memᴰ p ps × (p.id ≡ n)
unfolding contains
contains-ids_source n [] h = cc
contains-ids_source n (p ∷ ps) h = elim (Bool-cases (p.id == n)) [
  | inl e ↦ (p, Memᴰ.head refl, (eq_iff p.id n).0 e)
  | inr e ↦ let (q, m, same) = contains-ids_source n ps (rw e at h) in (q, Memᴰ.tail m, same)
]

no_edges : (a x : PatchId) → contains x (next a []) ≡ true → ⊥
unfolding HashMap.get contains
no_edges a x c = cc

Names-of_dependency_ids {ℓ} :
    {V : Type ℓ} (patches : List (Patch V)) (names : NameTable) (p : Patch V) (dep : DependencyRef)
    (d : PatchId) (ds : List PatchId)
    → IsClosed patches names
    → dependency_ids names (initialize patches no_tables).id_to_patch p dep ≡ ok ds
    → contains d ds ≡ true
    → Names names dep d × (HashMap.contains_key d (initialize patches no_tables).id_to_patch ≡ true)
unfolding dependency_ids contains
Names-of_dependency_ids patches names p (patch_id pid) d ds closed e c =
    let same : pid ≡ d = ground (arith, eq_iff pid d) in (same, ground arith)
Names-of_dependency_ids patches names p (file_name name) d ds closed e c =
    elim (Option-cases (HashMap.get name names)) [
      | inl n ↦ absurd (ground arith)
      | inr ((owner, listed), n) ↦
          let here : contains d listed ≡ true = ground arith in
          let (q, m, same) = contains-ids_source d patches (closed name owner listed d n here) in
          (
            ((owner, listed), n, here),
            subst (λ k. HashMap.contains_key k (initialize patches no_tables).id_to_patch ≡ true)
                same (initialize-contains_key q patches no_tables m),
          )
    ]

patches-le_result {ℓ} :
    {V : Type ℓ} (patches : List (Patch V)) (g : Graph) (s : Sorting V) (rank : PatchId → ℕ)
    → IsSorting patches (initialize patches no_tables) g.adj s
    → s.queue ≡ []
    → IsUnique g.adj
    → Along
        (λ a x.
          (rank a < rank x)
          × (HashMap.contains_key a (initialize patches no_tables).id_to_patch ≡ true))
        g
    → IsDistinct (ids patches)
    → length patches ≤ length s.result
patches-le_result patches g s rank i drained unique falls d = omega (
  arith,
  length-ids s.result,
  length-ids patches,
  length-le_of_contains (ids patches) (ids s.result) d
      (λ (n : PatchId) (c : contains n (ids patches) ≡ true).
        let (p, m, same) = contains-ids_source n patches c in
        all_sorted patches (initialize patches no_tables) g s rank i drained unique falls
          (suc (rank n)) n (omega arith)
          (subst (λ k. HashMap.contains_key k (initialize patches no_tables).id_to_patch ≡ true)
            same (initialize-contains_key p patches no_tables m))),
)

check_sorted_full {ℓ} :
    {V : Type ℓ} (patches result : List (Patch V))
    → length result ≡ length patches
    → check_sorted patches result ≡ ok result
unfolding check_sorted
check_sorted_full patches result e = rw ((eqb_iff _ _).1 e)

-- Every edge of the graph rises in rank, from a node.
falls_lem {ℓ} :
    {V : Type ℓ} (patches : List (Patch V)) (names : NameTable) (g : Graph)
    (r : IsRanked patches names)
    → IsClosed patches names
    → link_patches names
        (initialize patches no_tables).id_to_patch
        patches
        (initialize patches no_tables).graph
      ≡ ok g
    → Along
        (λ a x.
          (r.rank a < r.rank x)
          × (HashMap.contains_key a (initialize patches no_tables).id_to_patch ≡ true))
        g
falls_lem patches names g r closed l =
    let t = initialize patches no_tables in
    link_patches-Along _ names t.id_to_patch patches t.graph g
      (λ p m dep n ds resolved d c.
        let (named, known) = Names-of_dependency_ids patches names p dep d ds closed resolved c in
        (r.descends p dep d m n named, known))
      (initialize-Along _ patches no_tables (λ a x c. absurd (no_edges a x c))) l

link_dependencies-ne-circular {ℓ} :
    {V : Type ℓ} (names : NameTable) (table : HashMap PatchId (Patch V)) (p : Patch V)
    (deps : List DependencyRef) (g : Graph) (u : List PatchId)
    → link_dependencies names table p deps g ≢ err (circular_dependency u)
unfolding link_dependencies dependency_ids
link_dependencies-ne-circular names table p [] g u e = cc
link_dependencies-ne-circular names table p (patch_id pid ∷ deps) g u e =
    ground (arith, link_dependencies-ne-circular names table p deps (add_edges p.id (pid ∷ []) g) u)
link_dependencies-ne-circular names table p (file_name name ∷ deps) g u e =
    elim (Option-cases (HashMap.get name names)) [
      | inl n ↦ ground arith
      | inr ((owner, ds), n) ↦
          link_dependencies-ne-circular names table p deps (add_edges p.id ds g) u (ground arith)
    ]

link_patches-ne-circular {ℓ} :
    {V : Type ℓ} (names : NameTable) (table : HashMap PatchId (Patch V)) (ps : List (Patch V))
    (g : Graph) (u : List PatchId)
    → link_patches names table ps g ≢ err (circular_dependency u)
unfolding link_patches
link_patches-ne-circular names table [] g u e = cc
link_patches-ne-circular names table (p ∷ ps) g u e =
    elim (Outcome-cases (link_dependencies names table p p.after g)) [
      | inr (h, l) ↦ link_patches-ne-circular names table ps h u (ground arith)
      | inl (f, l) ↦ link_dependencies-ne-circular names table p p.after g u (ground arith)
    ]

-- Where every patch ranks above all that its references name, the ids are distinct and the name
-- table lists only ids of the patches, no circular dependency is reported: the sort succeeds, or
-- a reference names a file or a patch that is not there.
pub topological_sort-ne-circular {ℓ} :
    {V : Type ℓ} (patches : List (Patch V)) (names : NameTable)
    → IsRanked patches names
    → IsClosed patches names
    → IsDistinct (ids patches)
    → (u : List PatchId) → topological_sort patches names ≢ err (circular_dependency u)
unfolding topological_sort
topological_sort-ne-circular patches names ranked closed d u e =
    let t = initialize patches no_tables in
    elim (Outcome-cases (link_patches names t.id_to_patch patches t.graph)) [
      | inr (g, l) ↦
          let b = initialize_lem patches in
          let (graph, grows, links) =
            link_patches_lem names t.id_to_patch patches t.graph g
              (λ p m. initialize-contains_key p patches no_tables m) b.graphed l in
          let (i, drained) =
            sort_graph-IsSorting patches t g b graph (length patches + 1) (omega arith) in
          let s = sort_graph t g (length patches + 1) in
          let falls = falls_lem patches names g ranked closed l in
          let full : length s.result ≡ length patches = omega (
            arith,
            result-le_patches patches t g.adj b graph.counted.unique_adj s i,
            patches-le_result patches g s ranked.rank i drained graph.counted.unique_adj falls d,
          ) in
          ground (arith, check_sorted_full patches s.result full)
      | inl (f, l) ↦ link_patches-ne-circular names t.id_to_patch patches t.graph u (ground arith)
    ]
