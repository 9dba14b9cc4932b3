-- ===== src/Cache/Bounded.antt =====
-- The loop of the memory cache that makes room, and histories of operations.
use clash_prism_engine.Base.{
  Bool-cases, List-cases, inl, inr, ◌⊎◌, ℕ, zero, suc, ◌≤◌, ◌<◌, ◌≡◌, ◌≢◌, refl, String, true,
  false, Option, List, [], ◌∷◌, arith, leb, eqb, if◌then◌else◌, string_eq, eq_iff, contains, length,
  IsDistinct, contains-without, sym, ap, ◌∙◌, subst,
}
use clash_prism_engine.Base.HashMap
use clash_prism_engine.Base.HashMap.{
  HashMap, IsUnique, contains_key-insert, contains_key-remove, IsUnique-insert, IsUnique-remove,
  length-insert, length-remove, get-remove, get-insert,
}
use clash_prism_engine.Cache.{
  IndexSet, CacheEntry, CacheInner, MemoryCache, Modified, drop_key, stored_mtime, pop_oldest,
  make_room, store, without_old, insert, get, invalidate, clear, new,
}
use clash_prism_engine.Cache.Keys.{
  IsWellFormed, drop_key-IsWellFormed, pop_oldest_lem, pop_oldest-IsWellFormed,
  without_old-IsWellFormed, items-without_old, store-IsWellFormed,
}

abbrev pub drop_first : List String → List String
drop_first [] = []
drop_first (x ∷ xs) = xs

-- What the loop that makes room leaves of a state.
pub record IsFreed {ℓ} {I : IndexSet} {V : Type ℓ} (max_size : ℕ) (c freed : CacheInner I V)
    : Type ℓ where
  pub formed : IsWellFormed freed
  pub queue : I.items freed.fifo_order ≡ (
      if leb max_size (length (I.items c.fifo_order))
      then drop_first (I.items c.fifo_order)
      else I.items c.fifo_order)
  pub room : max_size ≢ 0 → length freed.entries < max_size
  pub bound : length freed.entries ≤ max_size
  pub kept :
      (k : String)
      → contains k (I.items freed.fifo_order) ≡ true
      → HashMap.get k freed.entries ≡ HashMap.get k c.entries

contains-drop_first :
    (k : String) (xs : List String) → contains k xs ≡ false → contains k (drop_first xs) ≡ false
unfolding contains
contains-drop_first k [] h = refl
contains-drop_first k (x ∷ xs) h = ground arith

-- An operation of a history, with the modification times that it finds.
pub data Operation {ℓ} (V : Type ℓ) : Type ℓ where
  do_get : Modified → String → Operation V
  do_insert : Modified → String → V → Option String → Operation V
  do_invalidate : String → Operation V
  do_clear : Operation V

module _ {ℓ} {I : IndexSet} {V : Type ℓ} where
  make_room-stops :
      (max_size fuel : ℕ) (c : CacheInner I V)
      → leb max_size (length c.entries) ≡ false
      → make_room max_size fuel c ≡ c
  unfolding make_room
  make_room-stops max_size zero c h = refl
  make_room-stops max_size (suc fuel) c h = rw h refl

  stay-IsFreed :
      (max_size : ℕ) (c : CacheInner I V)
      → IsWellFormed c
      → length c.entries ≤ max_size
      → (I.items c.fifo_order ≡ []) ⊎ (leb max_size (length c.entries) ≡ false)
      → IsFreed max_size c c
  stay-IsFreed max_size c w b h = record {
    formed = w;
    queue = elim h [ inl e ↦ rw e (ground arith) | inr n ↦ rw (← w.size, n) refl ];
    room = elim h [ inl e ↦ λ z. ground (arith, w.size, ap length e) | inr n ↦ λ z. ground arith ];
    bound = b;
    kept = λ k m. refl;
  }

  pop-IsFreed :
      (max_size : ℕ) (c : CacheInner I V) (oldest : String) (rest : List String)
      → I.items c.fifo_order ≡ oldest ∷ rest
      → IsWellFormed c
      → length c.entries ≤ max_size
      → leb max_size (length c.entries) ≡ true
      → IsFreed max_size c (pop_oldest c)
  unfolding contains
  pop-IsFreed max_size c oldest rest e w b full =
      let (entries, paths, left) = pop_oldest_lem c oldest rest e in
      let formed = pop_oldest-IsWellFormed c oldest rest e w in
      let d : IsDistinct (oldest ∷ rest) = subst IsDistinct e w.distinct in
      let less : length (pop_oldest c).entries < max_size =
        ground (arith, formed.size, w.size, ap length e, ap length left) in
      record {
        formed = formed;
        queue = rw (left, ← w.size, full, e) refl;
        room = λ z. less;
        bound = omega (arith, less);
        kept = λ k m. rw entries (
            ground
              (arith, get-remove oldest k c.entries, ap (contains k) left, d.0, eq_iff oldest k));
      }

  -- With as much fuel as the queue has keys, the loop ends because there is room or no key is left.
  pub make_room-IsFreed :
      (max_size : ℕ) (c : CacheInner I V)
      → IsWellFormed c
      → length c.entries ≤ max_size
      → IsFreed max_size c (make_room max_size (length (I.items c.fifo_order)) c)
  unfolding make_room
  make_room-IsFreed max_size c w b = elim (List-cases (I.items c.fifo_order)) [
    | inl e ↦ rw e (stay-IsFreed max_size c w b (inl e))
    | inr (oldest, rest, e) ↦ elim (Bool-cases (leb max_size (length c.entries))) [
      | inl full ↦
          let popped = pop-IsFreed max_size c oldest rest e w b full in
          let next = pop_oldest c in
          let last : make_room max_size (length rest) next ≡ next =
            make_room-stops max_size (length rest) next (
              ground (
                arith,
                popped.formed.size,
                w.size,
                ap length e,
                ap length (pop_oldest_lem c oldest rest e).2,
              )) in
          let some_left : I.is_empty c.fifo_order ≡ false =
            I.is_empty-items c.fifo_order ∙ rw e (ground arith) in
          subst (λ n. IsFreed max_size c (make_room max_size n c)) (sym (ap length e))
            (rw (full, some_left, last) popped)
      | inr n ↦
          rw (make_room-stops max_size (length (I.items c.fifo_order)) c n)
            (stay-IsFreed max_size c w b (inr n))
    ]
  ]

  abbrev pub IsBounded : MemoryCache I V → Type 0
  IsBounded c = IsWellFormed c.inner × (length c.inner.entries ≤ c.max_size)

  unfoldable pub apply : MemoryCache I V → Operation V → MemoryCache I V
  apply c (do_get modified key) = (get modified c key).0
  apply c (do_insert modified key value file_path) = insert modified c key value file_path
  apply c (do_invalidate key) = invalidate c key
  apply c do_clear = clear c

  unfoldable pub run : MemoryCache I V → List (Operation V) → MemoryCache I V
  run c [] = c
  run c (o ∷ os) = run (apply c o) os

  drop_key-length-le :
      (key : String) (c : CacheInner I V) → length (drop_key key c).entries ≤ length c.entries
  unfolding drop_key
  drop_key-length-le key c = HashMap.length-remove-le key c.entries

  without_old-length-le :
      (key : String) (c : CacheInner I V) → length (without_old key c).entries ≤ length c.entries
  unfolding without_old
  without_old-length-le key c = ground (arith, drop_key-length-le key c)

  stored-length-le :
      (modified : Modified) (key : String) (value : V) (file_path : Option String)
      (c : CacheInner I V) (max_size : ℕ)
      → length c.entries < max_size
      → length (store modified key value file_path c).entries ≤ max_size
  unfolding store
  stored-length-le modified key value file_path c max_size h =
      let entry : CacheEntry V = record {
        value = value;
        mtime = stored_mtime modified file_path;
      } in
      ground (arith, length-insert key entry c.entries)

  empty-IsWellFormed :
      IsWellFormed {I = I} {V = V} (record { entries = []; file_paths = []; fifo_order = I.empty })
  unfolding HashMap.contains_key contains
  empty-IsWellFormed = record {
    unique = tt;
    distinct = rw I.items-empty tt;
    same = λ k. rw I.items-empty refl;
    size = rw I.items-empty refl;
    paths = λ k h. h;
  }

  -- The state before the new entry is stored.
  pub insert-IsFreed :
      (c : MemoryCache I V) (key : String)
      → IsBounded c
      → let old = without_old key c.inner in
        IsFreed c.max_size old (make_room c.max_size (length (I.items old.fifo_order)) old)
  insert-IsFreed c key (w, b) =
      make_room-IsFreed c.max_size (without_old key c.inner)
        (without_old-IsWellFormed key c.inner w) (omega (arith, without_old-length-le key c.inner))

  -- The key to insert is no longer in the queue.
  pub insert-fresh :
      (c : MemoryCache I V) (key : String) (freed : CacheInner I V)
      → IsWellFormed c.inner
      → IsFreed c.max_size (without_old key c.inner) freed
      → contains key (I.items freed.fifo_order) ≡ false
  insert-fresh c key freed w f =
      let xs = I.items c.inner.fifo_order in
      let old = I.items (without_old key c.inner).fifo_order in
      let gone : contains key old ≡ false =
        ap (contains key) (items-without_old key c.inner w)
        ∙ ground (arith, contains-without key key xs, eq_iff key key) in
      ap (contains key) f.queue ∙ ground (arith, contains-drop_first key old gone)

  insert-IsBounded :
      (modified : Modified) (c : MemoryCache I V) (key : String) (value : V)
      (file_path : Option String)
      → IsBounded c
      → IsBounded (insert modified c key value file_path)
  unfolding insert
  insert-IsBounded modified c key value file_path (w, b) =
      let old = without_old key c.inner in
      let freed = make_room c.max_size (length (I.items old.fifo_order)) old in
      let f = insert-IsFreed c key (w, b) in
      elim (Bool-cases (eqb c.max_size 0)) [
        | inl z ↦ rw z (f.formed, f.bound)
        | inr n ↦
            let formed =
              store-IsWellFormed modified key value file_path freed f.formed
                (insert-fresh c key freed w f) in
            let less = f.room (λ z. ground arith) in
            rw n (formed, stored-length-le modified key value file_path freed c.max_size less)
      ]

  apply-IsBounded : (c : MemoryCache I V) (o : Operation V) → IsBounded c → IsBounded (apply c o)
  unfolding apply get invalidate clear
  apply-IsBounded c (do_get modified key) (w, b) =
      let dropped = drop_key-IsWellFormed key c.inner w in
      ground (arith, dropped, drop_key-length-le key c.inner)
  apply-IsBounded c (do_insert modified key value file_path) h =
      insert-IsBounded modified c key value file_path h
  apply-IsBounded c (do_invalidate key) (w, b) =
      (drop_key-IsWellFormed key c.inner w, omega (arith, drop_key-length-le key c.inner))
  apply-IsBounded c do_clear h = (empty-IsWellFormed, omega arith)

  run-IsBounded :
      (c : MemoryCache I V) (os : List (Operation V)) → IsBounded c → IsBounded (run c os)
  unfolding run
  run-IsBounded c [] h = h
  run-IsBounded c (o ∷ os) h = run-IsBounded (apply c o) os (apply-IsBounded c o h)

-- After any history of operations on a new cache, whatever the file system says in between: the
-- cache holds at most `max_size` entries, the queue lists their keys, each once, and a file path is
-- kept only for a key that has an entry.
pub run-new-IsBounded {ℓ} :
    (I : IndexSet) (V : Type ℓ) (max_size : ℕ) (os : List (Operation V))
    → IsBounded (run (new I V max_size) os)
unfolding new
run-new-IsBounded I V max_size os =
    run-IsBounded (new I V max_size) os (empty-IsWellFormed, omega arith)
