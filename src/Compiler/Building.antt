-- ===== src/Compiler/Building.antt =====
-- The graph that is built before the sort: every resolved dependency is an edge, the degrees count
-- the edges, and the tables hold the given patches.
use clash_prism_engine.Base.{
  ℕ, ◌+◌, ◌≡◌, inl, inr, true, List, [], ◌∷◌, ◌++◌, arith, ◌==◌, string_eq, eq_iff, contains,
  contains-append, beq_refl, Bool-cases,
}
use clash_prism_engine.Base.HashMap
use clash_prism_engine.Base.HashMap.{
  HashMap, IsUnique, IsUnique-insert, get-insert, contains_key-insert, contains_key-get,
}
use clash_prism_engine.Ir.{PatchId}
use clash_prism_engine.Compiler.{Graph, or_insert, add_edge, add_edges}
use clash_prism_engine.Compiler.Degrees.{next, pending, pending-insert, pending-insert_nil}

pub record IsCounted (g : Graph) : Type 0 where
  pub unique_nodes : IsUnique g.in_degree
  pub unique_adj : IsUnique g.adj
  pub degree : (n : PatchId) → HashMap.get_or 0 n g.in_degree ≡ pending [] n g.adj

pub add_edge-IsCounted : (d i : PatchId) (g : Graph) → IsCounted g → IsCounted (add_edge d i g)
unfolding add_edge
add_edge-IsCounted d i g c = record {
  unique_nodes = IsUnique-insert i _ g.in_degree c.unique_nodes;
  unique_adj = IsUnique-insert d _ g.adj c.unique_adj;
  degree = λ n. ground (
    arith,
    get-insert i n (HashMap.get_or 0 i g.in_degree + 1) g.in_degree,
    pending-insert d i n g.adj,
    c.degree n,
    c.degree i,
    eq_iff i n,
  );
}

pub or_insert-get_or :
    (k n : PatchId) (m : HashMap PatchId ℕ)
    → HashMap.get_or 0 n (or_insert k 0 m) ≡ HashMap.get_or 0 n m
unfolding or_insert
or_insert-get_or k n m = ground (arith, get-insert k n 0 m, contains_key-get k m, eq_iff k n)

pub or_insert-IsUnique {ℓ} :
    {V : Type ℓ} (k : PatchId) (v : V) (m : HashMap PatchId V)
    → IsUnique m
    → IsUnique (or_insert k v m)
unfolding or_insert
or_insert-IsUnique k v m u = elim (Bool-cases (HashMap.contains_key k m)) [
  | inl e ↦ rw e u
  | inr e ↦ rw e (IsUnique-insert k v m u)
]

pub or_insert-pending :
    (k n : PatchId) (m : HashMap PatchId (List PatchId))
    → pending [] n (or_insert k [] m) ≡ pending [] n m
unfolding or_insert
or_insert-pending k n m = elim (Bool-cases (HashMap.contains_key k m)) [
  | inl e ↦ rw e
  | inr e ↦ rw e (pending-insert_nil k n m e)
]

-- An edge that is there stays there.
add_edge-keeps :
    (d i a x : PatchId) (g : Graph)
    → contains x (next a g.adj) ≡ true
    → contains x (next a (add_edge d i g).adj) ≡ true
unfolding add_edge
add_edge-keeps d i a x g h = ground (
  arith,
  get-insert d a (next d g.adj ++ i ∷ []) g.adj,
  eq_iff d a,
  contains-append x (next d g.adj) (i ∷ []),
)

add_edge-adds : (d i : PatchId) (g : Graph) → contains i (next d (add_edge d i g).adj) ≡ true
unfolding add_edge contains
add_edge-adds d i g = ground (
  arith,
  get-insert d d (next d g.adj ++ i ∷ []) g.adj,
  beq_refl d,
  beq_refl i,
  contains-append i (next d g.adj) (i ∷ []),
)

pub add_edges-IsCounted :
    (i : PatchId) (ds : List PatchId) (g : Graph) → IsCounted g → IsCounted (add_edges i ds g)
unfolding add_edges
add_edges-IsCounted i [] g c = c
add_edges-IsCounted i (d ∷ ds) g c =
    add_edges-IsCounted i ds (add_edge d i g) (add_edge-IsCounted d i g c)

pub add_edges-keeps :
    (i : PatchId) (ds : List PatchId) (a x : PatchId) (g : Graph)
    → contains x (next a g.adj) ≡ true
    → contains x (next a (add_edges i ds g).adj) ≡ true
unfolding add_edges
add_edges-keeps i [] a x g h = h
add_edges-keeps i (d ∷ ds) a x g h =
    add_edges-keeps i ds a x (add_edge d i g) (add_edge-keeps d i a x g h)

pub add_edges-adds :
    (i : PatchId) (ds : List PatchId) (a : PatchId) (g : Graph)
    → contains a ds ≡ true
    → contains i (next a (add_edges i ds g).adj) ≡ true
unfolding add_edges contains
add_edges-adds i [] a g h = cc
add_edges-adds i (d ∷ ds) a g h = elim (Bool-cases (d == a)) [
  | inl e ↦
      let same : d ≡ a = (eq_iff d a).0 e in
      add_edges-keeps i ds a i (add_edge d i g) (rw (← same) (add_edge-adds d i g))
  | inr e ↦ add_edges-adds i ds a (add_edge d i g) (rw e at h)
]
