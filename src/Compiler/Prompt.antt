-- ===== src/Compiler/Prompt.antt =====
-- The main loop leaves no node behind: what has degree 0 is queued or sorted.
use clash_prism_engine.Base.{
  ℕ, String, ◌≡◌, inl, inr, true, ◌||◌, some, List, [], ◌∷◌, ◌++◌, arith, if◌then◌else◌, ◌==◌,
  string_eq, eq_iff, eqb, contains, contains-append, beq_refl, Bool-cases, Option-cases,
}
use clash_prism_engine.Base.HashMap
use clash_prism_engine.Base.HashMap.{HashMap, contains_key-get, get-insert, contains_key-insert}
use clash_prism_engine.Ir.{PatchId}
use clash_prism_engine.Compiler.{QueueKey, decrement, enqueue_node, initial_queue, relax, relax_all}
use clash_prism_engine.Compiler.Queue.{nodes, contains-enqueue}

abbrev pub IsPrompt : List PatchId → HashMap PatchId ℕ → List QueueKey → Type 0
IsPrompt sorted m q =
    (n : PatchId) → HashMap.get n m ≡ some 0 → contains n (sorted ++ nodes q) ≡ true

module _ (keys : HashMap PatchId String) where
  abbrev pub HasKeys : HashMap PatchId ℕ → Type 0
  HasKeys m = (n : PatchId) → HashMap.contains_key n m ≡ true → HashMap.contains_key n keys ≡ true

  contains-enqueue_node :
      (n j : PatchId) (q : List QueueKey)
      → HashMap.contains_key n keys ≡ true
      → contains j (nodes (enqueue_node keys n q)) ≡ ((n == j) || contains j (nodes q))
  unfolding enqueue_node
  contains-enqueue_node n j q h = elim (Option-cases (HashMap.get n keys)) [
    | inl e ↦ absurd (ground (arith, contains_key-get n keys))
    | inr (key, e) ↦ rw (e, enqueue_node) (contains-enqueue j (key, n) q)
  ]

  contains-initial_queue_keeps :
      (n : PatchId) (m : HashMap PatchId ℕ) (q : List QueueKey)
      → HasKeys m
      → contains n (nodes q) ≡ true
      → contains n (nodes (initial_queue keys m q)) ≡ true
  unfolding initial_queue HashMap.contains_key
  contains-initial_queue_keeps n [] q k h = h
  contains-initial_queue_keeps n ((i, d) ∷ m) q k h =
      contains-initial_queue_keeps n m (if eqb d 0 then enqueue_node keys i q else q)
        (λ j c. k j (ground arith)) (ground (arith, contains-enqueue_node i n q, k i, beq_refl i))

  pub initial_queue-IsPrompt :
      (n : PatchId) (m : HashMap PatchId ℕ) (q : List QueueKey)
      → HasKeys m
      → HashMap.get n m ≡ some 0
      → contains n (nodes (initial_queue keys m q)) ≡ true
  unfolding initial_queue HashMap.contains_key HashMap.get
  initial_queue-IsPrompt n [] q k h = cc
  initial_queue-IsPrompt n ((i, d) ∷ m) q k h = elim (Bool-cases (i == n)) [
    | inl e ↦
        contains-initial_queue_keeps n m (if eqb d 0 then enqueue_node keys i q else q)
          (λ j c. k j (ground arith)) (ground (arith, contains-enqueue_node i n q, k i, beq_refl i))
    | inr e ↦
        initial_queue-IsPrompt n m (if eqb d 0 then enqueue_node keys i q else q)
          (λ j c. k j (ground arith)) (ground arith)
  ]

  relax-IsPrompt :
      (n : PatchId) (sorted : List PatchId) (m : HashMap PatchId ℕ) (q : List QueueKey)
      → HasKeys m
      → IsPrompt sorted m q
      → IsPrompt sorted (relax keys n (m, q)).0 (relax keys n (m, q)).1
  unfolding relax
  relax-IsPrompt n sorted m q k p j = elim (Option-cases (HashMap.get n m)) [
    | inl e ↦ rw (e, relax) (p j)
    | inr (d, e) ↦
        rw (e, relax)
          λ z. ground (
            arith,
            get-insert n j (decrement d) m,
            contains-enqueue_node n j q,
            k n,
            contains_key-get n m,
            contains-append j sorted (nodes q),
            contains-append j sorted (nodes (enqueue_node keys n q)),
            p j,
            eq_iff n j,
          )
  ]

  relax-HasKeys :
      (n : PatchId) (m : HashMap PatchId ℕ) (q : List QueueKey)
      → HasKeys m
      → HasKeys (relax keys n (m, q)).0
  unfolding relax
  relax-HasKeys n m q k j = elim (Option-cases (HashMap.get n m)) [
    | inl e ↦ rw (e, relax) (k j)
    | inr (d, e) ↦
        rw (e, relax)
          λ c. k j (
            ground
              (arith, contains_key-insert n j (decrement d) m, contains_key-get n m, eq_iff n j))
  ]

  pub relax_all-IsPrompt :
      (ns sorted : List PatchId) (m : HashMap PatchId ℕ) (q : List QueueKey)
      → HasKeys m
      → IsPrompt sorted m q
      → IsPrompt sorted (relax_all keys ns (m, q)).0 (relax_all keys ns (m, q)).1
  unfolding relax_all
  relax_all-IsPrompt [] sorted m q k p = p
  relax_all-IsPrompt (n ∷ ns) sorted m q k p =
      relax_all-IsPrompt ns sorted (relax keys n (m, q)).0 (relax keys n (m, q)).1
        (relax-HasKeys n m q k) (relax-IsPrompt n sorted m q k p)
