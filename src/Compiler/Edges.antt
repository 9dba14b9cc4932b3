-- ===== src/Compiler/Edges.antt =====
-- A relation between patches along all edges of the graph, as the graph is built.
use mathlib.Core.List.{Memᴰ}
use mathlib.Core.Path.{subst}
use clash_prism_engine.Base.{
  ℕ, ◌≡◌, refl, inl, inr, true, List, [], ◌∷◌, ◌++◌, arith, ◌==◌, string_eq, eq_iff, contains,
  contains-append, beq_refl, Bool-cases, ok,
}
use clash_prism_engine.Base.HashMap.{HashMap, get-insert, contains_key-get}
use clash_prism_engine.Ir.{PatchId, Patch, DependencyRef}
use clash_prism_engine.Compiler.{
  or_insert, add_edge, add_edges, NameTable, Graph, Tables, initialize_patch, initialize,
  link_patches, link_dependencies, dependency_ids, >>=-eq-ok,
}
use clash_prism_engine.Compiler.Degrees.{next}

-- A relation that holds along every edge of a graph.
abbrev pub Along : (PatchId → PatchId → Type 0) → Graph → Type 0
Along P g = (a x : PatchId) → contains x (next a g.adj) ≡ true → P a x

module _ (P : PatchId → PatchId → Type 0) where
  add_edge-Along : (d i : PatchId) (g : Graph) → P d i → Along P g → Along P (add_edge d i g)
  unfolding add_edge contains
  add_edge-Along d i g p h a x c = elim (Bool-cases (d == a)) [
    | inl e ↦
        let same : d ≡ a = (eq_iff d a).0 e in
        let added : contains x (next d g.adj ++ i ∷ []) ≡ true =
          ground (arith, get-insert d a (next d g.adj ++ i ∷ []) g.adj) in
        elim (Bool-cases (contains x (next d g.adj))) [
          | inl old ↦ h a x (subst (λ b. contains x (next b g.adj) ≡ true) same old)
          | inr other ↦
              let last : i ≡ x =
                ground (arith, contains-append x (next d g.adj) (i ∷ []), eq_iff i x) in
              subst (λ b. P b x) same (subst (λ y. P d y) last p)
        ]
    | inr e ↦ h a x (ground (arith, get-insert d a (next d g.adj ++ i ∷ []) g.adj))
  ]

  add_edges-Along :
      (i : PatchId) (ds : List PatchId) (g : Graph)
      → ((d : PatchId) → contains d ds ≡ true → P d i)
      → Along P g
      → Along P (add_edges i ds g)
  unfolding add_edges contains
  add_edges-Along i [] g p h = h
  add_edges-Along i (d ∷ ds) g p h =
      add_edges-Along i ds (add_edge d i g) (λ b c. p b (ground arith))
        (add_edge-Along d i g (p d (ground (arith, beq_refl d))) h)

  or_insert-Along :
      (k : PatchId) (m : HashMap PatchId ℕ) (g : Graph)
      → Along P g
      → Along P (record { in_degree = m; adj = or_insert k [] g.adj })
  unfolding or_insert contains
  or_insert-Along k m g h a x c =
      h a x (ground (arith, get-insert k a [] g.adj, contains_key-get k g.adj, eq_iff k a))

  module _ {ℓ} {V : Type ℓ} where
    pub initialize-Along :
        (ps : List (Patch V)) (t : Tables V) → Along P t.graph → Along P (initialize ps t).graph
    unfolding initialize initialize_patch
    initialize-Along [] t h = h
    initialize-Along (p ∷ ps) t h =
        initialize-Along ps (initialize_patch p t)
          (or_insert-Along p.id (or_insert p.id 0 t.graph.in_degree) t.graph h)

    module _ (names : NameTable) (table : HashMap PatchId (Patch V)) where
      -- What a dependency on `d` must give.
      abbrev pub Source : Patch V → Type 0
      Source p =
          (dep : DependencyRef)
          → Memᴰ dep p.after
          → (ds : List PatchId) → dependency_ids names table p dep ≡ ok ds
          → (d : PatchId) → contains d ds ≡ true
          → P d p.id

      link_dependencies-Along :
          (p : Patch V) (deps : List DependencyRef) (g h : Graph)
          → ((dep : DependencyRef) → Memᴰ dep deps → Memᴰ dep p.after)
          → Source p
          → Along P g
          → link_dependencies names table p deps g ≡ ok h
          → Along P h
      unfolding link_dependencies
      link_dependencies-Along p [] g h sub s a e = let same : g ≡ h = cc in subst (Along P) same a
      link_dependencies-Along p (dep ∷ deps) g h sub s a e =
          let (ds, resolved, rest) = >>=-eq-ok (dependency_ids names table p dep) _ e in
          link_dependencies-Along p deps (add_edges p.id ds g) h (λ d m. sub d (Memᴰ.tail m)) s
            (add_edges-Along p.id ds g (s dep (sub dep (Memᴰ.head refl)) ds resolved) a) rest

      pub link_patches-Along :
          (ps : List (Patch V)) (g h : Graph)
          → ((p : Patch V) → Memᴰ p ps → Source p)
          → Along P g
          → link_patches names table ps g ≡ ok h
          → Along P h
      unfolding link_patches
      link_patches-Along [] g h s a e = let same : g ≡ h = cc in subst (Along P) same a
      link_patches-Along (p ∷ ps) g h s a e =
          let (f, linked, rest) = >>=-eq-ok (link_dependencies names table p p.after g) _ e in
          link_patches-Along ps f h (λ q m. s q (Memᴰ.tail m))
            (link_dependencies-Along p p.after g f (λ d m. m) (s p (Memᴰ.head refl)) a linked) rest
