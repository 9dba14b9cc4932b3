-- ===== src/Compiler/MainLoop.antt =====
-- The main loop of the sort: it keeps its invariant and ends with an empty queue.
use mathlib.Core.List.Memᴰ
use mathlib.Core.List.{Memᴰ, map-append, append_assoc}
use mathlib.Core.Path.{subst}
use clash_prism_engine.Base.{
  List-cases, ℕ, zero, suc, ◌+◌, ◌≤◌, ◌<◌, String, ◌≡◌, refl, sym, ◌∙◌, ap, inl, inr, true, ◌||◌,
  List, [], ◌∷◌, ◌++◌, arith, ◌==◌, string_eq, eq_iff, contains, contains-append, beq_refl,
  Bool-cases, Option-cases, IsDistinct, length, length-append, length-le_of_contains,
}
use clash_prism_engine.Base.HashMap
use clash_prism_engine.Base.HashMap.{
  HashMap, IsUnique, contains_key-get, get-insert, contains_key-insert,
}
use clash_prism_engine.Ir.{PatchId, Patch}
use clash_prism_engine.Compiler.{
  QueueKey, Graph, Tables, Sorting, push_patch, sort_round, sort_loop, sort_graph, initial_queue,
  ids,
}
use clash_prism_engine.Compiler.Degrees.{count, Adjacency, next, contains_of_pending}
use clash_prism_engine.Compiler.Linking.{IsTabled, IsGraph}
use clash_prism_engine.Compiler.Queue.{nodes, contains-initial_queue, IsDistinct-initial_queue}
use clash_prism_engine.Compiler.Prompt.{IsPrompt, initial_queue-IsPrompt, relax_all-IsPrompt}
use clash_prism_engine.Compiler.Rounds.{IsRound, pop_lem, pop-IsRound, relax_all-contains_key}

-- Each node stands behind all nodes with an edge to it; `seen` stand before the list.
abbrev pub IsOrdered : Adjacency → List PatchId → List PatchId → Type 0
IsOrdered adj seen [] = Unit
IsOrdered adj seen (x ∷ xs) =
    ((a : PatchId) → contains x (next a adj) ≡ true → contains a seen ≡ true)
    × IsOrdered adj (x ∷ seen) xs

IsOrdered-snoc :
    (adj : Adjacency) (seen xs : List PatchId) (x : PatchId)
    → IsOrdered adj seen xs
    → ((a : PatchId) → contains x (next a adj) ≡ true → (contains a seen || contains a xs) ≡ true)
    → IsOrdered adj seen (xs ++ x ∷ [])
unfolding contains
IsOrdered-snoc adj seen [] x o h = (λ a e. ground (arith, h a e), tt)
IsOrdered-snoc adj seen (y ∷ xs) x (o, os) h =
    (o, IsOrdered-snoc adj (y ∷ seen) xs x os (λ a e. ground (arith, h a e)))

pub contains-ids {ℓ} :
    {V : Type ℓ} (p : Patch V) (ps : List (Patch V)) → Memᴰ p ps → contains p.id (ids ps) ≡ true
unfolding contains
contains-ids p [] m = elim m [ ]
contains-ids p (q ∷ ps) (Memᴰ.head e) = rw e (ground (arith, beq_refl q.id))
contains-ids p (q ∷ ps) (Memᴰ.tail m) = ground (arith, contains-ids p ps m)

pub contains-ids_of_listed {ℓ} :
    {V : Type ℓ} (n : PatchId) (ps qs : List (Patch V))
    → ((p : Patch V) → Memᴰ p ps → Memᴰ p qs)
    → contains n (ids ps) ≡ true
    → contains n (ids qs) ≡ true
unfolding contains
contains-ids_of_listed n [] qs sub h = cc
contains-ids_of_listed n (p ∷ ps) qs sub h = elim (Bool-cases (p.id == n)) [
  | inl e ↦
      let same : p.id ≡ n = (eq_iff p.id n).0 e in
      rw (← same) (contains-ids p qs (sub p (Memᴰ.head refl)))
  | inr e ↦ contains-ids_of_listed n ps qs (λ q m. sub q (Memᴰ.tail m)) (rw e at h)
]

contains-nil_or :
    (a : PatchId) (xs : List PatchId)
    → contains a xs ≡ true
    → (contains a [] || contains a xs) ≡ true
unfolding contains
contains-nil_or a xs h = h

pub length-ids {ℓ} : {V : Type ℓ} (ps : List (Patch V)) → length (ids ps) ≡ length ps
length-ids [] = refl
length-ids (p ∷ ps) = ap suc (length-ids ps)

pub IsDistinct-append_left : (xs ys : List PatchId) → IsDistinct (xs ++ ys) → IsDistinct xs
IsDistinct-append_left [] ys d = tt
IsDistinct-append_left (x ∷ xs) ys (d, ds) =
    (ground (arith, contains-append x xs ys), IsDistinct-append_left xs ys ds)

module _ {ℓ} {V : Type ℓ} (patches : List (Patch V)) (t : Tables V) (adj : Adjacency) where
  pub record IsSorting (s : Sorting V) : Type ℓ where
    pub round : IsRound adj [] (ids s.result) s.in_degree s.queue
    pub noded :
        (n : PatchId) → HashMap.contains_key n s.in_degree ≡ HashMap.contains_key n t.id_to_patch
    pub ordered : IsOrdered adj [] (ids s.result)
    pub prompt : IsPrompt (ids s.result) s.in_degree s.queue
    pub listed : (p : Patch V) → Memᴰ p s.result → Memᴰ p patches

  module _ (tabled : IsTabled patches t) (unique : IsUnique adj) where
    -- What is pushed is the patch of the node that was popped.
    push_patch_lem :
        (id : PatchId) (result : List (Patch V))
        → HashMap.contains_key id t.id_to_patch ≡ true
        → (p : Patch V) × (push_patch t.id_to_patch id result ≡ result ++ p ∷ [])
          × (p.id ≡ id)
          × Memᴰ p patches
    unfolding push_patch
    push_patch_lem id result h = elim (Option-cases (HashMap.get id t.id_to_patch)) [
      | inl e ↦ absurd (ground (arith, contains_key-get id t.id_to_patch))
      | inr (p, e) ↦ (p, rw (e, push_patch), (tabled.listed id p e).0, (tabled.listed id p e).1)
    ]

    sort_round-IsSorting :
        (s : Sorting V) (key : String) (id : PatchId) (queue : List QueueKey)
        → s.queue ≡ (key, id) ∷ queue
        → IsSorting s
        → IsSorting (sort_round t adj s id queue)
          × (length (sort_round t adj s id queue).result ≡ suc (length s.result))
    unfolding sort_round
    sort_round-IsSorting s key id queue e i =
        let r : IsRound adj [] (ids s.result) s.in_degree ((key, id) ∷ queue) =
          subst (λ q. IsRound adj [] (ids s.result) s.in_degree q) e i.round in
        let (fresh, z, none_left) =
          pop_lem t.id_to_sort_key adj key id (ids s.result) s.in_degree queue r in
        let (p, pushed, same, member) =
          push_patch_lem id s.result
            (ground (arith, i.noded id, contains_key-get id s.in_degree)) in
        let grown : ids (push_patch t.id_to_patch id s.result) ≡ ids s.result ++ id ∷ [] =
          rw (pushed, map-append) (ap (λ j. ids s.result ++ j ∷ []) same) in
        (
          record {
            round =
                rw grown (
                  pop-IsRound t.id_to_sort_key adj key id (ids s.result) s.in_degree queue unique
                    r);
            noded = λ n.
                relax_all-contains_key t.id_to_sort_key adj (next id adj) n s.in_degree queue
                ∙ i.noded n;
            ordered = rw grown (
                IsOrdered-snoc adj [] (ids s.result) id i.ordered (λ a c.
                  contains-nil_or a (ids s.result)
                    (contains_of_pending (ids s.result) id a adj none_left c)));
            prompt = rw grown (
                relax_all-IsPrompt t.id_to_sort_key (next id adj) (ids s.result ++ id ∷ [])
                  s.in_degree queue (λ n c. ground (arith, i.noded n, tabled.keyed n))
                  (λ n z'.
                    rw (append_assoc (ids s.result) (id ∷ []) (nodes queue)) (
                      subst (λ q. contains n (ids s.result ++ nodes q) ≡ true) e (i.prompt n z'))));
            listed = λ q m. elim (Memᴰ.append_cases s.result (subst (Memᴰ q) pushed m)) [
              | inl old ↦ i.listed q old
              | inr new ↦ subst (λ w. Memᴰ w patches) (sym (Memᴰ.eq_of_singleton new)) member
            ];
          },
          rw pushed (omega (arith, length-append s.result (p ∷ []))),
        )

    pub result-le_patches : (s : Sorting V) → IsSorting s → length s.result ≤ length patches
    result-le_patches s i = omega (
      arith,
      length-ids s.result,
      length-ids patches,
      length-le_of_contains (ids s.result) (ids patches)
          (IsDistinct-append_left (ids s.result) (nodes s.queue) i.round.distinct)
          (λ (n : PatchId). contains-ids_of_listed n s.result patches i.listed),
    )

    -- With a round of fuel for each node that is left, the loop keeps its invariant and ends by its
    -- test: the queue is empty.
    pub sort_loop-IsSorting :
        (fuel : ℕ) (s : Sorting V)
        → length patches < fuel + length s.result
        → IsSorting s
        → IsSorting (sort_loop fuel t adj s) × ((sort_loop fuel t adj s).queue ≡ [])
    unfolding sort_loop
    sort_loop-IsSorting zero s enough i = absurd (omega (arith, result-le_patches s i))
    sort_loop-IsSorting (suc fuel) s enough i = elim (List-cases s.queue) [
      | inl e ↦ rw (e, sort_loop) (i, e)
      | inr ((key, id), queue, e) ↦
          let (i', longer) = sort_round-IsSorting s key id queue e i in
          rw (e, sort_loop)
            (sort_loop-IsSorting fuel (sort_round t adj s id queue) (omega arith) i')
    ]

module _ {ℓ} {V : Type ℓ} (patches : List (Patch V)) (t : Tables V) (g : Graph)
    (tabled : IsTabled patches t) (graph : IsGraph t.id_to_patch g) where
  first_queue : List QueueKey
  first_queue = initial_queue t.id_to_sort_key g.in_degree []

  start-IsSorting :
      IsSorting patches t g.adj
        (record { in_degree = g.in_degree; queue = first_queue; result = [] })
  unfolding first_queue count contains
  start-IsSorting = record {
    round = record {
      degree = λ n d e. ground (arith, graph.counted.degree n);
      zero_degree = λ n c.
          elim (contains-initial_queue t.id_to_sort_key n g.in_degree [] graph.counted.unique_nodes
            c) [ inl none_yet ↦ cc | inr z ↦ z ];
      distinct =
          IsDistinct-initial_queue t.id_to_sort_key g.in_degree [] graph.counted.unique_nodes
            (λ n h. refl) tt;
    };
    noded = graph.noded;
    ordered = tt;
    prompt = λ n.
        initial_queue-IsPrompt t.id_to_sort_key n g.in_degree []
          (λ j c. ground (arith, graph.noded j, tabled.keyed j));
    listed = λ p m. absurd (Memᴰ.not-nil m);
  }

  pub sort_graph-IsSorting :
      (fuel : ℕ)
      → length patches < fuel
      → IsSorting patches t g.adj (sort_graph t g fuel) × ((sort_graph t g fuel).queue ≡ [])
  unfolding sort_graph first_queue
  sort_graph-IsSorting fuel h =
      sort_loop-IsSorting patches t g.adj tabled graph.counted.unique_adj fuel _ (omega arith)
        start-IsSorting
