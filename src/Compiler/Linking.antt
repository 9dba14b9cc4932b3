-- ===== src/Compiler/Linking.antt =====
-- The tables and the graph that the initialisation and the linking of the patches build.
use mathlib.Core.List.Memᴰ
use mathlib.Core.List.{Memᴰ}
use mathlib.Core.Path.{subst}
use clash_prism_engine.Base.{
  ◌+◌, ◌≡◌, refl, sym, inl, inr, true, ◌||◌, some, List, [], ◌∷◌, arith, ◌==◌, string_eq, eq_iff,
  contains, beq_refl, ok, Bool-cases,
}
use clash_prism_engine.Base.HashMap
use clash_prism_engine.Base.HashMap.{
  HashMap, IsUnique, IsUnique-insert, get-insert, contains_key-insert, contains_key-get,
}
use clash_prism_engine.Ir.{PatchId, Patch, DependencyRef}
use clash_prism_engine.Compiler.{
  Graph, or_insert, add_edge, add_edges, NameTable, Tables, initialize_patch, initialize,
  dependency_ids, link_dependencies, link_patches, no_tables, sort_key_of, >>=-eq-ok,
}
use clash_prism_engine.Compiler.Degrees.{next, pending}
use clash_prism_engine.Compiler.Building.{
  IsCounted, add_edge-IsCounted, or_insert-get_or, or_insert-IsUnique, or_insert-pending,
  add_edges-keeps, add_edges-adds,
}

or_insert-contains_key {ℓ} :
    {W : Type ℓ} (k n : PatchId) (v : W) (m : HashMap PatchId W)
    → HashMap.contains_key n (or_insert k v m) ≡ ((k == n) || HashMap.contains_key n m)
unfolding or_insert
or_insert-contains_key k n v m = ground (arith, contains_key-insert k n v m, eq_iff k n)

module _ {ℓ} {V : Type ℓ} where
  -- What holds of a graph over the nodes of a table.
  pub record IsGraph (table : HashMap PatchId (Patch V)) (g : Graph) : Type ℓ where
    pub counted : IsCounted g
    pub noded : (n : PatchId) → HashMap.contains_key n g.in_degree ≡ HashMap.contains_key n table

  pub record IsTabled (patches : List (Patch V)) (t : Tables V) : Type ℓ where
    pub listed :
        (n : PatchId) (p : Patch V)
        → HashMap.get n t.id_to_patch ≡ some p
        → (p.id ≡ n) × Memᴰ p patches
    pub keyed :
        (n : PatchId)
        → HashMap.contains_key n t.id_to_sort_key ≡ HashMap.contains_key n t.id_to_patch
    pub graphed : IsGraph t.id_to_patch t.graph

  no_tables-IsTabled : (patches : List (Patch V)) → IsTabled patches no_tables
  unfolding HashMap.get HashMap.contains_key pending
  no_tables-IsTabled patches = record {
    listed = λ n p e. cc;
    keyed = λ n. refl;
    graphed = record {
      counted = record { unique_nodes = tt; unique_adj = tt; degree = λ n. refl };
      noded = λ n. refl;
    };
  }

  listed_insert :
      (all : List (Patch V)) (p q : Patch V) (n : PatchId) (table : HashMap PatchId (Patch V))
      → Memᴰ p all
      → ((q : Patch V) → HashMap.get n table ≡ some q → (q.id ≡ n) × Memᴰ q all)
      → HashMap.get n (HashMap.insert p.id p table) ≡ some q
      → (q.id ≡ n) × Memᴰ q all
  listed_insert all p q n table m old e = elim (Bool-cases (p.id == n)) [
    | inl same ↦
        let at : p ≡ q = ground (arith, get-insert p.id n p table) in
        (ground (arith, eq_iff p.id n), subst (λ r. Memᴰ r all) at m)
    | inr other ↦ old q (ground (arith, get-insert p.id n p table))
  ]

  initialize_patch-IsTabled :
      (all : List (Patch V)) (p : Patch V) (t : Tables V)
      → Memᴰ p all
      → IsTabled all t
      → IsTabled all (initialize_patch p t)
  unfolding initialize_patch
  initialize_patch-IsTabled all p t m b = record {
    listed = λ n q. listed_insert all p q n t.id_to_patch m (b.listed n);
    keyed = λ n. ground (
      arith,
      contains_key-insert p.id n p t.id_to_patch,
      contains_key-insert p.id n (sort_key_of p) t.id_to_sort_key,
      b.keyed n,
    );
    graphed = record {
      counted = record {
        unique_nodes = or_insert-IsUnique p.id 0 _ b.graphed.counted.unique_nodes;
        unique_adj = or_insert-IsUnique p.id [] _ b.graphed.counted.unique_adj;
        degree = λ n. ground (
          arith,
          or_insert-get_or p.id n t.graph.in_degree,
          or_insert-pending p.id n t.graph.adj,
          b.graphed.counted.degree n,
        );
      };
      noded = λ n. ground (
        arith,
        or_insert-contains_key p.id n 0 t.graph.in_degree,
        contains_key-insert p.id n p t.id_to_patch,
        b.graphed.noded n,
      );
    };
  }

  initialize-IsTabled :
      (all ps : List (Patch V)) (t : Tables V)
      → ((p : Patch V) → Memᴰ p ps → Memᴰ p all)
      → IsTabled all t
      → IsTabled all (initialize ps t)
  unfolding initialize
  initialize-IsTabled all [] t sub b = b
  initialize-IsTabled all (p ∷ ps) t sub b =
      initialize-IsTabled all ps (initialize_patch p t) (λ q m. sub q (Memᴰ.tail m))
        (initialize_patch-IsTabled all p t (sub p (Memᴰ.head refl)) b)

  initialize-keeps :
      (n : PatchId) (ps : List (Patch V)) (t : Tables V)
      → HashMap.contains_key n t.id_to_patch ≡ true
      → HashMap.contains_key n (initialize ps t).id_to_patch ≡ true
  unfolding initialize
  initialize-keeps n [] t h = h
  initialize-keeps n (p ∷ ps) t h =
      initialize-keeps n ps (initialize_patch p t)
        (unfold initialize_patch in ground (arith, contains_key-insert p.id n p t.id_to_patch))

  -- Every patch is a node.
  pub initialize-contains_key :
      (p : Patch V) (ps : List (Patch V)) (t : Tables V)
      → Memᴰ p ps
      → HashMap.contains_key p.id (initialize ps t).id_to_patch ≡ true
  unfolding initialize
  initialize-contains_key p [] t m = elim m [ ]
  initialize-contains_key p (q ∷ ps) t (Memᴰ.head e) =
      initialize-keeps p.id ps (initialize_patch q t) (
        unfold initialize_patch in
        rw e (ground (arith, contains_key-insert q.id q.id q t.id_to_patch, beq_refl q.id)))
  initialize-contains_key p (q ∷ ps) t (Memᴰ.tail m) =
      initialize-contains_key p ps (initialize_patch q t) m

  pub initialize_lem : (ps : List (Patch V)) → IsTabled ps (initialize ps no_tables)
  initialize_lem ps = initialize-IsTabled ps ps no_tables (λ p m. m) (no_tables-IsTabled ps)

-- Every reference of the patch resolves, and every id that it resolves to has an edge to the patch.
abbrev pub IsLinked {ℓ} :
    {V : Type ℓ}
    → NameTable
    → HashMap PatchId (Patch V)
    → Patch V
    → List DependencyRef
    → Graph
    → Type 0
IsLinked names table p deps g =
    (dep : DependencyRef)
    → Memᴰ dep deps
    → (ds : List PatchId) × (dependency_ids names table p dep ≡ ok ds)
      × ((d : PatchId) → contains d ds ≡ true → contains p.id (next d g.adj) ≡ true)

-- No edge is lost.
abbrev pub Grows : Graph → Graph → Type 0
Grows g h = (a x : PatchId) → contains x (next a g.adj) ≡ true → contains x (next a h.adj) ≡ true

module _ {ℓ} {V : Type ℓ} (names : NameTable) (table : HashMap PatchId (Patch V)) where
  add_edges-IsGraph :
      (i : PatchId) (ds : List PatchId) (g : Graph)
      → HashMap.contains_key i table ≡ true
      → IsGraph table g
      → IsGraph table (add_edges i ds g)
  unfolding add_edges
  add_edges-IsGraph i [] g h k = k
  add_edges-IsGraph i (d ∷ ds) g h k = add_edges-IsGraph i ds (add_edge d i g) h (record {
    counted = add_edge-IsCounted d i g k.counted;
    noded = λ n.
        unfold add_edge in
        ground (
          arith,
          contains_key-insert i n (HashMap.get_or 0 i g.in_degree + 1) g.in_degree,
          k.noded n,
          eq_iff i n,
        );
  })

  record Linked (p : Patch V) (deps : List DependencyRef) (g h : Graph) : Type ℓ where
    graph : IsGraph table h
    grows : Grows g h
    links : IsLinked names table p deps h

  link_dependencies_lem :
      (p : Patch V) (deps : List DependencyRef) (g h : Graph)
      → HashMap.contains_key p.id table ≡ true
      → IsGraph table g
      → link_dependencies names table p deps g ≡ ok h
      → Linked p deps g h
  unfolding link_dependencies
  link_dependencies_lem p [] g h k ig e =
      let same : g ≡ h = cc in
      record {
        graph = subst (IsGraph table) same ig;
        grows = λ a x c. subst (λ f. contains x (next a f.adj) ≡ true) same c;
        links = λ dep m. absurd (Memᴰ.not-nil m);
      }
  link_dependencies_lem p (dep ∷ deps) g h k ig e =
      let (ds, resolved, rest) = >>=-eq-ok (dependency_ids names table p dep) _ e in
      let l =
        link_dependencies_lem p deps (add_edges p.id ds g) h k (add_edges-IsGraph p.id ds g k ig)
          rest in
      record {
        graph = l.graph;
        grows = λ a x c. l.grows a x (add_edges-keeps p.id ds a x g c);
        links = λ ref m. elim (Memᴰ.cases_cons m) [
          | inl same ↦ (ds, rw same resolved, λ d c. l.grows d p.id (add_edges-adds p.id ds d g c))
          | inr later ↦ l.links ref later
        ];
      }

  pub link_patches_lem :
      (ps : List (Patch V)) (g h : Graph)
      → ((p : Patch V) → Memᴰ p ps → HashMap.contains_key p.id table ≡ true)
      → IsGraph table g
      → link_patches names table ps g ≡ ok h
      → IsGraph table h × Grows g h × ((p : Patch V) → Memᴰ p ps → IsLinked names table p p.after h)
  unfolding link_patches
  link_patches_lem [] g h k ig e =
      let same : g ≡ h = cc in
      (
        subst (IsGraph table) same ig,
        λ a x c. subst (λ f. contains x (next a f.adj) ≡ true) same c,
        λ p m. absurd (Memᴰ.not-nil m),
      )
  link_patches_lem (q ∷ ps) g h k ig e =
      let (f, linked, rest) = >>=-eq-ok (link_dependencies names table q q.after g) _ e in
      let one = link_dependencies_lem q q.after g f (k q (Memᴰ.head refl)) ig linked in
      let (graph, grows, links) =
        link_patches_lem ps f h (λ p m. k p (Memᴰ.tail m)) one.graph rest in
      (
        graph,
        λ a x c. grows a x (one.grows a x c),
        λ p m. elim (Memᴰ.cases_cons m) [
          | inl same ↦
              subst (λ r. IsLinked names table r r.after h) (sym same)
                (λ dep n.
                  let (ds, r, edges) = one.links dep n in (ds, r, λ d c. grows d q.id (edges d c)))
          | inr later ↦ links p later
        ],
      )
