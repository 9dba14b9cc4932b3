-- ===== src/Compiler/Degrees.antt =====
-- Counting the edges of the dependency graph that come from nodes not yet sorted.
use clash_prism_engine.Base.{
  ℕ, ◌+◌, ◌<◌, ◌≡◌, refl, true, false, List, [], ◌∷◌, ◌++◌, arith, if◌then◌else◌, ◌==◌, string_eq,
  eq_iff, contains, contains-append,
}
use clash_prism_engine.Base.HashMap
use clash_prism_engine.Base.HashMap.{HashMap, IsUnique, get-insert}
use clash_prism_engine.Ir.{PatchId}

abbrev pub Adjacency : Type 0
Adjacency = HashMap PatchId (List PatchId)

abbrev pub next : PatchId → Adjacency → List PatchId
next a adj = HashMap.get_or [] a adj

unfoldable pub count : PatchId → List PatchId → ℕ
count n [] = 0
count n (x ∷ xs) = (if x == n then 1 else 0) + count n xs

-- The edges into `n` from nodes outside `sorted`.
unfoldable pub pending : List PatchId → PatchId → Adjacency → ℕ
pending sorted n [] = 0
pending sorted n ((a, ns) ∷ adj) =
    (if contains a sorted then 0 else count n ns) + pending sorted n adj

pub count-pos : (n : PatchId) (xs : List PatchId) → contains n xs ≡ true → 0 < count n xs
unfolding count contains
count-pos n [] h = ground arith
count-pos n (x ∷ xs) h = ground (arith, count-pos n xs)

pub count-append :
    (n : PatchId) (xs ys : List PatchId) → count n (xs ++ ys) ≡ count n xs + count n ys
unfolding count
count-append n [] ys = omega arith
count-append n (x ∷ xs) ys = omega (arith, count-append n xs ys)

-- With nothing pending, every node with an edge to `n` is sorted.
pub contains_of_pending :
    (sorted : List PatchId) (n a : PatchId) (adj : Adjacency)
    → pending sorted n adj ≡ 0
    → contains n (next a adj) ≡ true
    → contains a sorted ≡ true
unfolding pending HashMap.get contains
contains_of_pending sorted n a [] z h = ground arith
contains_of_pending sorted n a ((j, ns) ∷ adj) z h =
    ground (arith, contains_of_pending sorted n a adj, count-pos n ns, eq_iff j a)

pending-snoc_absent :
    (sorted : List PatchId) (id n : PatchId) (adj : Adjacency)
    → HashMap.contains_key id adj ≡ false
    → pending (sorted ++ id ∷ []) n adj ≡ pending sorted n adj
unfolding pending HashMap.contains_key contains
pending-snoc_absent sorted id n [] h = refl
pending-snoc_absent sorted id n ((j, ns) ∷ adj) h = ground (
  arith,
  pending-snoc_absent sorted id n adj,
  contains-append j sorted (id ∷ []),
  eq_iff j id,
  eq_iff id j,
)

-- Sorting a node takes its own edges off the count.
pub pending-snoc :
    (sorted : List PatchId) (id n : PatchId) (adj : Adjacency)
    → contains id sorted ≡ false
    → IsUnique adj
    → pending (sorted ++ id ∷ []) n adj + count n (next id adj) ≡ pending sorted n adj
unfolding pending HashMap.get count contains
pending-snoc sorted id n [] h u = refl
pending-snoc sorted id n ((j, ns) ∷ adj) h (u, us) = ground (
  arith,
  pending-snoc sorted id n adj h us,
  pending-snoc_absent sorted id n adj,
  contains-append j sorted (id ∷ []),
  eq_iff j id,
  eq_iff id j,
)

pub pending-insert :
    (k id n : PatchId) (adj : Adjacency)
    → pending [] n (HashMap.insert k (next k adj ++ id ∷ []) adj)
      ≡ pending [] n adj + (if id == n then 1 else 0)
unfolding pending HashMap.get HashMap.insert count contains
pending-insert k id n [] = ground arith
pending-insert k id n ((j, ns) ∷ adj) =
    ground (arith, pending-insert k id n adj, count-append n ns (id ∷ []))

pub pending-insert_nil :
    (k n : PatchId) (adj : Adjacency)
    → HashMap.contains_key k adj ≡ false
    → pending [] n (HashMap.insert k [] adj) ≡ pending [] n adj
unfolding pending HashMap.contains_key HashMap.insert count contains
pending-insert_nil k n [] h = refl
pending-insert_nil k n ((j, ns) ∷ adj) h = ground (arith, pending-insert_nil k n adj)
