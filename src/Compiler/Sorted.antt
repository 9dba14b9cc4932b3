-- ===== src/Compiler/Sorted.antt =====
-- The topological sort: the order of the patches that it returns.

use mathlib.Core.List.{Memᴰ}
use mathlib.Core.Path.{subst}
use clash_prism_engine.Base.{
  ◌+◌, String, ◌≡◌, refl, inl, inr, Bool, true, false, some, List, [], ◌∷◌, arith, if◌then◌else◌,
  ◌==◌, string_eq, eq_iff, eqb, eqb_iff, contains, beq_refl, Bool-cases, IsDistinct, length,
  contains_of_length, ok,
}
use clash_prism_engine.Base.HashMap
use clash_prism_engine.Ir.{PatchId, Patch, DependencyRef, file_name, patch_id}
use clash_prism_engine.Compiler.{
  NameTable, Graph, Tables, Sorting, ids, no_tables, initialize, link_patches, dependency_ids,
  sort_graph, check_sorted, topological_sort, >>=-eq-ok,
}
use clash_prism_engine.Compiler.Degrees.{Adjacency, next}
use clash_prism_engine.Compiler.Linking.{
  initialize_lem, initialize-contains_key, IsLinked, link_patches_lem,
}
use clash_prism_engine.Compiler.MainLoop.{
  IsSorting, IsOrdered, sort_graph-IsSorting, contains-ids, contains-ids_of_listed, length-ids,
  IsDistinct-append_left,
}
use clash_prism_engine.Compiler.Queue.{nodes}

-- Whether `a` stands before the first `b`.
abbrev pub before : PatchId → PatchId → List PatchId → Bool
before a b [] = false
before a b (x ∷ xs) =
    let rest = before a b xs in if x == b then false else if x == a then contains b xs else rest

-- The reference `dep` names the node `d`: by its id, or as one of the patches of a file.
abbrev pub Names : NameTable → DependencyRef → PatchId → Type 0
Names names (patch_id pid) d = pid ≡ d
Names names (file_name name) d =
    (e : String × List PatchId) × (HashMap.get name names ≡ some e) × (contains d e.1 ≡ true)

-- An order in which all patches can be executed.
pub record IsSorted {ℓ} {V : Type ℓ} (patches : List (Patch V)) (names : NameTable)
    (result : List (Patch V)) : Type ℓ where
  pub same_length : length result ≡ length patches
  pub distinct : IsDistinct (ids result)
  pub listed : (p : Patch V) → Memᴰ p result → Memᴰ p patches
  pub complete : (p : Patch V) → Memᴰ p patches → contains p.id (ids result) ≡ true
  pub ordered :
      (p : Patch V) (dep : DependencyRef) (d : PatchId)
      → Memᴰ p patches
      → Memᴰ dep p.after
      → Names names dep d
      → before d p.id (ids result) ≡ true

before_of_IsOrdered :
    (adj : Adjacency) (a b : PatchId) (seen xs : List PatchId)
    → IsOrdered adj seen xs
    → contains b xs ≡ true
    → contains b (next a adj) ≡ true
    → contains a seen ≡ false
    → before a b xs ≡ true
unfolding contains
before_of_IsOrdered adj a b seen [] o h e s = cc
before_of_IsOrdered adj a b seen (x ∷ xs) (o, os) h e s =
    ground (arith, before_of_IsOrdered adj a b (x ∷ seen) xs os, o a, eq_iff x b, eq_iff x a)

Names→dependency_ids {ℓ} :
    {V : Type ℓ} (names : NameTable) (table : HashMap.HashMap PatchId (Patch V)) (p : Patch V)
    (dep : DependencyRef) (d : PatchId) (ds : List PatchId)
    → dependency_ids names table p dep ≡ ok ds
    → Names names dep d
    → contains d ds ≡ true
unfolding dependency_ids contains
Names→dependency_ids names table p (patch_id pid) d ds e n = ground (arith, beq_refl pid)
Names→dependency_ids names table p (file_name name) d ds e ((owner, is), g, c) = ground arith

check_sorted_lem {ℓ} :
    {V : Type ℓ} (patches result r : List (Patch V))
    → check_sorted patches result ≡ ok r
    → (result ≡ r) × (length result ≡ length patches)
unfolding check_sorted
check_sorted_lem patches result r e = elim (Bool-cases (eqb (length result) (length patches))) [
  | inl same ↦ (let f = rw same at e in cc, (eqb_iff _ _).0 same)
  | inr other ↦ let f = rw other at e in (cc, cc)
]

IsSorted-of_IsSorting {ℓ} :
    {V : Type ℓ} (patches : List (Patch V)) (names : NameTable) (t : Tables V) (g : Graph)
    (s : Sorting V)
    → IsSorting patches t g.adj s
    → ((p : Patch V) → Memᴰ p patches → IsLinked names t.id_to_patch p p.after g)
    → length s.result ≡ length patches
    → IsSorted patches names s.result
unfolding contains
IsSorted-of_IsSorting patches names t g s i links long =
    let d = IsDistinct-append_left (ids s.result) (nodes s.queue) i.round.distinct in
    let all : (n : PatchId) → contains n (ids patches) ≡ true → contains n (ids s.result) ≡ true =
      λ n.
        contains_of_length (ids s.result) (ids patches) n d
          (λ a. contains-ids_of_listed a s.result patches i.listed)
          (omega (arith, length-ids s.result, length-ids patches)) in
    record {
      same_length = long;
      distinct = d;
      listed = i.listed;
      complete = λ p m. all p.id (contains-ids p patches m);
      ordered = λ p dep n m r named.
          let (ds, resolved, edges) = links p m dep r in
          before_of_IsOrdered g.adj n p.id [] (ids s.result) i.ordered
            (all p.id (contains-ids p patches m))
            (edges n (Names→dependency_ids names t.id_to_patch p dep n ds resolved named)) refl;
    }

-- A sort that succeeds returns every patch exactly once, and each patch behind all patches that one
-- of its `__after__` references names.
pub topological_sort-IsSorted {ℓ} :
    {V : Type ℓ} (patches : List (Patch V)) (names : NameTable) (result : List (Patch V))
    → topological_sort patches names ≡ ok result
    → IsSorted patches names result
unfolding topological_sort
topological_sort-IsSorted patches names result e =
    let t = initialize patches no_tables in
    let b = initialize_lem patches in
    let (g, linked, checked) = >>=-eq-ok (link_patches names t.id_to_patch patches t.graph) _ e in
    let (graph, grows, links) =
      link_patches_lem names t.id_to_patch patches t.graph g
        (λ p m. initialize-contains_key p patches no_tables m) b.graphed linked in
    let (i, drained) =
      sort_graph-IsSorting patches t g b graph (length patches + 1) (omega arith) in
    let s = sort_graph t g (length patches + 1) in
    let (same, long) = check_sorted_lem patches s.result result checked in
    subst (IsSorted patches names) same (IsSorted-of_IsSorting patches names t g s i links long)
