-- ===== src/Compiler/Rounds.antt =====
-- The invariant of the main loop of the sort, and its rounds.
use mathlib.Core.List.{append_assoc}
use clash_prism_engine.Base.{
  ℕ, ◌+◌, String, ◌≡◌, refl, ◌∙◌, inl, inr, true, false, some, List, [], ◌∷◌, ◌++◌, arith,
  string_eq, eq_iff, eqb, contains, contains-append, beq_refl, Bool-cases, Option-cases, IsDistinct,
}
use clash_prism_engine.Base.HashMap
use clash_prism_engine.Base.HashMap.{
  HashMap, IsUnique, contains_key-get, get-insert, contains_key-insert,
}
use clash_prism_engine.Ir.{PatchId}
use clash_prism_engine.Compiler.{QueueKey, decrement, enqueue, enqueue_node, relax, relax_all}
use clash_prism_engine.Compiler.Degrees.{Adjacency, next, count, pending, pending-snoc}
use clash_prism_engine.Compiler.Queue.{nodes, contains-enqueue, IsDistinct-append_enqueue}

-- `sorted` are the nodes that were popped, and `rest` the neighbours of the last of them that are
-- still to be relaxed. A degree counts the edges from nodes not sorted and those of `rest`; a node
-- that is sorted or queued has degree 0, and stands once.
pub record IsRound (adj : Adjacency) (rest sorted : List PatchId) (in_degree : HashMap PatchId ℕ)
    (queue : List QueueKey) : Type 0 where
  pub degree :
      (n : PatchId) (d : ℕ)
      → HashMap.get n in_degree ≡ some d
      → d ≡ pending sorted n adj + count n rest
  pub zero_degree :
      (n : PatchId) → contains n (sorted ++ nodes queue) ≡ true → HashMap.get n in_degree ≡ some 0
  pub distinct : IsDistinct (sorted ++ nodes queue)

IsDistinct-middle :
    (xs : List PatchId) (x : PatchId) (ys : List PatchId)
    → IsDistinct (xs ++ x ∷ ys)
    → contains x xs ≡ false
unfolding contains
IsDistinct-middle [] x ys d = refl
IsDistinct-middle (w ∷ xs) x ys (d, ds) =
    ground
      (arith, IsDistinct-middle xs x ys ds, contains-append w xs (x ∷ ys), beq_refl x, eq_iff w x)

module _ (keys : HashMap PatchId String) (adj : Adjacency) where
  enqueue_node-IsRound :
      (n : PatchId) (rest sorted : List PatchId) (m : HashMap PatchId ℕ) (q : List QueueKey)
      → HashMap.get n m ≡ some 0
      → contains n (sorted ++ nodes q) ≡ false
      → IsRound adj rest sorted m q
      → IsRound adj rest sorted m (enqueue_node keys n q)
  unfolding enqueue_node
  enqueue_node-IsRound n rest sorted m q z fresh r = elim (Option-cases (HashMap.get n keys)) [
    | inl e ↦ rw (e, enqueue_node) r
    | inr (key, e) ↦
        rw (e, enqueue_node)
          (record {
            degree = r.degree;
            zero_degree = λ j c. ground (
              arith,
              contains-append j sorted (nodes (enqueue (key, n) q)),
              contains-append j sorted (nodes q),
              contains-enqueue j (key, n) q,
              r.zero_degree j,
              eq_iff n j,
            );
            distinct = IsDistinct-append_enqueue sorted (key, n) q fresh r.distinct;
          })
  ]

  -- Lowering the degree of a neighbour that is neither sorted nor queued.
  lower-IsRound :
      (n : PatchId) (d : ℕ) (rest sorted : List PatchId) (m : HashMap PatchId ℕ) (q : List QueueKey)
      → HashMap.get n m ≡ some d
      → IsRound adj (n ∷ rest) sorted m q
      → IsRound adj rest sorted (HashMap.insert n (decrement d) m) q
  unfolding count decrement
  lower-IsRound n d rest sorted m q e r = record {
    degree = λ j c g. ground (
      arith,
      get-insert n j (decrement d) m,
      r.degree j c,
      r.degree n d e,
      eq_iff n j,
      beq_refl n,
    );
    zero_degree = λ j c. ground (
      arith,
      get-insert n j (decrement d) m,
      r.zero_degree j c,
      r.degree n d e,
      eq_iff n j,
      beq_refl n,
    );
    distinct = r.distinct;
  }

  fresh_neighbor :
      (n : PatchId) (d : ℕ) (rest sorted : List PatchId) (m : HashMap PatchId ℕ) (q : List QueueKey)
      → HashMap.get n m ≡ some d
      → IsRound adj (n ∷ rest) sorted m q
      → contains n (sorted ++ nodes q) ≡ false
  unfolding count
  fresh_neighbor n d rest sorted m q e r = elim (Bool-cases (contains n (sorted ++ nodes q))) [
    | inl c ↦ absurd (ground (arith, r.zero_degree n c, r.degree n d e, beq_refl n))
    | inr c ↦ c
  ]

  relax-IsRound :
      (n : PatchId) (rest sorted : List PatchId) (m : HashMap PatchId ℕ) (q : List QueueKey)
      → IsRound adj (n ∷ rest) sorted m q
      → IsRound adj rest sorted (relax keys n (m, q)).0 (relax keys n (m, q)).1
  unfolding relax count
  relax-IsRound n rest sorted m q r = elim (Option-cases (HashMap.get n m)) [
    | inl e ↦
        rw (e, relax)
          (record {
            degree = λ j d g. ground (arith, r.degree j d g, eq_iff n j);
            zero_degree = r.zero_degree;
            distinct = r.distinct;
          })
    | inr (d, e) ↦
        let low = lower-IsRound n d rest sorted m q e r in
        let fresh = fresh_neighbor n d rest sorted m q e r in
        elim (Bool-cases (eqb (decrement d) 0)) [
          | inl z ↦
              rw (e, relax, z)
                (enqueue_node-IsRound n rest sorted (HashMap.insert n (decrement d) m) q
                  (ground (arith, get-insert n n (decrement d) m, beq_refl n)) fresh low)
          | inr z ↦ rw (e, relax, z) low
        ]
  ]

  relax_all-IsRound :
      (rest sorted : List PatchId) (m : HashMap PatchId ℕ) (q : List QueueKey)
      → IsRound adj rest sorted m q
      → IsRound adj [] sorted (relax_all keys rest (m, q)).0 (relax_all keys rest (m, q)).1
  unfolding relax_all
  relax_all-IsRound [] sorted m q r = r
  relax_all-IsRound (n ∷ rest) sorted m q r =
      relax_all-IsRound rest sorted (relax keys n (m, q)).0 (relax keys n (m, q)).1
        (relax-IsRound n rest sorted m q r)

  relax-contains_key :
      (n j : PatchId) (m : HashMap PatchId ℕ) (q : List QueueKey)
      → HashMap.contains_key j (relax keys n (m, q)).0 ≡ HashMap.contains_key j m
  unfolding relax
  relax-contains_key n j m q = elim (Option-cases (HashMap.get n m)) [
    | inl e ↦ rw (e, relax)
    | inr (d, e) ↦
        rw (e, relax)
          (ground
            (arith, contains_key-insert n j (decrement d) m, contains_key-get n m, eq_iff n j))
  ]

  -- The loop over the neighbours changes no keys.
  pub relax_all-contains_key :
      (ns : List PatchId) (j : PatchId) (m : HashMap PatchId ℕ) (q : List QueueKey)
      → HashMap.contains_key j (relax_all keys ns (m, q)).0 ≡ HashMap.contains_key j m
  unfolding relax_all
  relax_all-contains_key [] j m q = refl
  relax_all-contains_key (n ∷ ns) j m q =
      relax_all-contains_key ns j (relax keys n (m, q)).0 (relax keys n (m, q)).1
      ∙ relax-contains_key n j m q

  -- A node that is popped is new, and nothing is pending for it.
  pub pop_lem :
      (key : String) (id : PatchId) (sorted : List PatchId) (m : HashMap PatchId ℕ)
      (q : List QueueKey)
      → IsRound adj [] sorted m ((key, id) ∷ q)
      → (contains id sorted ≡ false) × (HashMap.get id m ≡ some 0) × (pending sorted id adj ≡ 0)
  unfolding count contains
  pop_lem key id sorted m q r =
      let z =
        r.zero_degree id (ground (arith, contains-append id sorted (id ∷ nodes q), beq_refl id)) in
      (IsDistinct-middle sorted id (nodes q) r.distinct, z, ground (arith, r.degree id 0 z))

  -- A round of the main loop keeps the invariant.
  pub pop-IsRound :
      (key : String) (id : PatchId) (sorted : List PatchId) (m : HashMap PatchId ℕ)
      (q : List QueueKey)
      → IsUnique adj
      → IsRound adj [] sorted m ((key, id) ∷ q)
      → IsRound adj []
          (sorted ++ id ∷ [])
          (relax_all keys (next id adj) (m, q)).0
          (relax_all keys (next id adj) (m, q)).1
  unfolding count
  pop-IsRound key id sorted m q u r =
      let (fresh, z, none_left) = pop_lem key id sorted m q r in
      let moved : (sorted ++ id ∷ []) ++ nodes q ≡ sorted ++ id ∷ nodes q =
        append_assoc sorted (id ∷ []) (nodes q) in
      relax_all-IsRound (next id adj) (sorted ++ id ∷ []) m q (record {
        degree = λ n d g. ground (arith, r.degree n d g, pending-snoc sorted id n adj fresh u);
        zero_degree = λ n. rw moved (r.zero_degree n);
        distinct = rw moved r.distinct;
      })
