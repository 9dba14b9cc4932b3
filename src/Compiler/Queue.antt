-- ===== src/Compiler/Queue.antt =====
-- The queue of the sort: what an insertion adds, and that no node stands twice in it.
use Prim.Native.Nat.{Ordering}
use text.Mathlib.TextEquality.{path_by_compare}
use clash_prism_engine.Base.{
  ℕ, String, ◌≡◌, refl, ◌⊎◌, inl, inr, true, false, ◌||◌, some, List, [], ◌∷◌, ◌++◌, map, arith,
  if◌then◌else◌, ◌==◌, string_eq, eq_iff, eqb, contains, contains-append, beq_refl, Option-cases,
  IsDistinct,
}
use clash_prism_engine.Base.HashMap
use clash_prism_engine.Base.HashMap.{HashMap, IsUnique, contains_key-get}
use clash_prism_engine.Ir.{PatchId}
use clash_prism_engine.Compiler.{QueueKey, compare_keys, enqueue, enqueue_node, initial_queue}

abbrev pub nodes : List QueueKey → List PatchId
nodes q = map (λ k. k.1) q

compare_keys-eq : (k j : QueueKey) → compare_keys k j ≡ Ordering.eq → k.1 ≡ j.1
unfolding compare_keys
compare_keys-eq (s, i) (t, j) h = path_by_compare i j (ground arith)

pub contains-enqueue :
    (n : PatchId) (k : QueueKey) (q : List QueueKey)
    → contains n (nodes (enqueue k q)) ≡ ((k.1 == n) || contains n (nodes q))
unfolding enqueue contains
contains-enqueue n k [] = refl
contains-enqueue n k (j ∷ q) = ground (arith, contains-enqueue n k q, compare_keys-eq k j)

pub IsDistinct-enqueue :
    (k : QueueKey) (q : List QueueKey)
    → contains k.1 (nodes q) ≡ false
    → IsDistinct (nodes q)
    → IsDistinct (nodes (enqueue k q))
unfolding enqueue contains
IsDistinct-enqueue k [] h d = (refl, tt)
IsDistinct-enqueue k (j ∷ q) h (d, ds) =
    ground (arith, IsDistinct-enqueue k q, contains-enqueue j.1 k q, eq_iff k.1 j.1, eq_iff j.1 k.1)

-- A list of distinct nodes stays distinct when its second part gains a node that is in neither.
pub IsDistinct-append_enqueue :
    (xs : List PatchId) (k : QueueKey) (q : List QueueKey)
    → contains k.1 (xs ++ nodes q) ≡ false
    → IsDistinct (xs ++ nodes q)
    → IsDistinct (xs ++ nodes (enqueue k q))
unfolding contains
IsDistinct-append_enqueue [] k q h d = IsDistinct-enqueue k q h d
IsDistinct-append_enqueue (x ∷ xs) k q h (d, ds) = ground (
  arith,
  IsDistinct-append_enqueue xs k q,
  contains-append x xs (nodes q),
  contains-append x xs (nodes (enqueue k q)),
  contains-enqueue x k q,
  eq_iff k.1 x,
  eq_iff x k.1,
)

-- The first queue holds distinct nodes of degree 0.
pub contains-initial_queue :
    (keys : HashMap PatchId String) (n : PatchId) (m : HashMap PatchId ℕ) (q : List QueueKey)
    → IsUnique m
    → contains n (nodes (initial_queue keys m q)) ≡ true
    → (contains n (nodes q) ≡ true) ⊎ (HashMap.get n m ≡ some 0)
unfolding initial_queue enqueue_node HashMap.get
contains-initial_queue keys n [] q u h = inl h
contains-initial_queue keys n ((i, d) ∷ m) q (u, us) h =
    elim (contains-initial_queue keys n m (if eqb d 0 then enqueue_node keys i q else q) us h) [
      | inl e ↦ elim (Option-cases (HashMap.get i keys)) [
        | inl no_key ↦ ground (arith, contains_key-get n m, eq_iff i n)
        | inr (key, some_key) ↦
            ground (arith, contains-enqueue n (key, i) q, contains_key-get n m, eq_iff i n)
      ]
      | inr e ↦ inr (ground (arith, contains_key-get n m, eq_iff i n))
    ]

pub IsDistinct-initial_queue :
    (keys : HashMap PatchId String) (m : HashMap PatchId ℕ) (q : List QueueKey)
    → IsUnique m
    → ((n : PatchId) → HashMap.contains_key n m ≡ true → contains n (nodes q) ≡ false)
    → IsDistinct (nodes q)
    → IsDistinct (nodes (initial_queue keys m q))
unfolding initial_queue enqueue_node HashMap.contains_key
IsDistinct-initial_queue keys [] q u apart d = d
IsDistinct-initial_queue keys ((i, deg) ∷ m) q (u, us) apart d =
    IsDistinct-initial_queue keys m (if eqb deg 0 then enqueue_node keys i q else q) us
      (λ n c. elim (Option-cases (HashMap.get i keys)) [
        | inl no_key ↦ ground (arith, apart n)
        | inr (key, some_key) ↦ ground (arith, apart n, contains-enqueue n (key, i) q, eq_iff i n)
      ])
      (elim (Option-cases (HashMap.get i keys)) [
        | inl no_key ↦ ground arith
        | inr (key, some_key) ↦ ground (arith, IsDistinct-enqueue (key, i) q, apart i, beq_refl i)
      ])
