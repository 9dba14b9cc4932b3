-- ===== src/Cache/Keys.antt =====
-- The key sets of the memory cache: what its steps do to the entries and to the queue.
use clash_prism_engine.Base.{
  Bool-cases, inl, inr, ◌≡◌, refl, String, true, false, ◌||◌, Option, none, some, List, [], ◌∷◌,
  ◌++◌, arith, ◌==◌, string_eq, eq_iff, contains, without, length, IsDistinct, IsDistinct-without,
  IsDistinct-snoc, contains-without, contains-append, length-append, length-without_distinct,
  without_absent, sym, ap, ◌∙◌, subst,
}
use clash_prism_engine.Base.HashMap
use clash_prism_engine.Base.HashMap.{
  HashMap, IsUnique, contains_key-insert, contains_key-remove, IsUnique-insert, IsUnique-remove,
  length-insert, length-remove,
}
use clash_prism_engine.Cache.{
  IndexSet, CacheEntry, CacheInner, Modified, drop_key, stored_mtime, pop_oldest, store,
  without_old,
}

-- The queue holds the keys of the entries, each once, and only they have a file.
pub record IsWellFormed {ℓ} {I : IndexSet} {V : Type ℓ} (c : CacheInner I V) : Type 0 where
  pub unique : IsUnique c.entries
  pub distinct : IsDistinct (I.items c.fifo_order)
  pub same : (k : String) → HashMap.contains_key k c.entries ≡ contains k (I.items c.fifo_order)
  pub size : length c.entries ≡ length (I.items c.fifo_order)
  pub paths :
      (k : String)
      → HashMap.contains_key k c.file_paths ≡ true
      → HashMap.contains_key k c.entries ≡ true

module _ {ℓ} {I : IndexSet} {V : Type ℓ} where
  pub drop_key-IsWellFormed :
      (key : String) (c : CacheInner I V) → IsWellFormed c → IsWellFormed (drop_key key c)
  unfolding drop_key
  drop_key-IsWellFormed key c w =
      let xs = I.items c.fifo_order in
      let dropped = I.items-shift_remove key c.fifo_order in
      record {
        unique = IsUnique-remove key c.entries w.unique;
        distinct = rw dropped (IsDistinct-without key xs w.distinct);
        same = λ k. rw dropped (
            ground
              (arith, contains_key-remove key k c.entries, contains-without key k xs, w.same k));
        size = rw dropped (
            ground (
              arith,
              length-remove key c.entries w.unique,
              length-without_distinct key xs w.distinct,
              w.same key,
              w.size,
            ));
        paths = λ k h. ground (
          arith,
          contains_key-remove key k c.entries,
          contains_key-remove key k c.file_paths,
          w.paths k,
        );
      }

  -- The effect of a round that makes room, where there is a key to take.
  pub pop_oldest_lem :
      (c : CacheInner I V) (oldest : String) (rest : List String)
      → I.items c.fifo_order ≡ oldest ∷ rest
      → ((pop_oldest c).entries ≡ HashMap.remove oldest c.entries)
        × ((pop_oldest c).file_paths ≡ HashMap.remove oldest c.file_paths)
        × (I.items (pop_oldest c).fifo_order ≡ rest)
  unfolding pop_oldest
  pop_oldest_lem c oldest rest e =
      let (s, popped, left) = I.shift_remove_first_lem c.fifo_order oldest rest e in
      rw (popped, pop_oldest) (refl, refl, left)

  pub pop_oldest-IsWellFormed :
      (c : CacheInner I V) (oldest : String) (rest : List String)
      → I.items c.fifo_order ≡ oldest ∷ rest
      → IsWellFormed c
      → IsWellFormed (pop_oldest c)
  unfolding contains
  pop_oldest-IsWellFormed c oldest rest e w =
      let (entries, paths, left) = pop_oldest_lem c oldest rest e in
      let d : IsDistinct (oldest ∷ rest) = subst IsDistinct e w.distinct in
      record {
        unique = rw entries (IsUnique-remove oldest c.entries w.unique);
        distinct = rw left (d.1);
        same = λ k.
            rw (entries, left)
              (ground (
                arith,
                contains_key-remove oldest k c.entries,
                w.same k,
                ap (contains k) e,
                d.0,
                eq_iff oldest k,
              ));
        size =
            rw (entries, left)
              (ground (
                arith,
                length-remove oldest c.entries w.unique,
                w.same oldest,
                w.size,
                ap (contains oldest) e,
                ap length e,
                eq_iff oldest oldest,
              ));
        paths = λ k.
            rw (entries, paths)
              (λ h. ground (
                arith,
                contains_key-remove oldest k c.entries,
                contains_key-remove oldest k c.file_paths,
                w.paths k,
              ));
      }

  pub without_old-IsWellFormed :
      (key : String) (c : CacheInner I V) → IsWellFormed c → IsWellFormed (without_old key c)
  unfolding without_old
  without_old-IsWellFormed key c w = ground (arith, drop_key-IsWellFormed key c w)

  -- The queue without the key that is to be inserted.
  pub items-without_old :
      (key : String) (c : CacheInner I V)
      → IsWellFormed c
      → I.items (without_old key c).fifo_order ≡ without key (I.items c.fifo_order)
  unfolding without_old drop_key
  items-without_old key c w = elim (Bool-cases (HashMap.contains_key key c.entries)) [
    | inl y ↦ rw y (I.items-shift_remove key c.fifo_order)
    | inr n ↦ rw n (sym (without_absent key (I.items c.fifo_order) (sym (w.same key) ∙ n)))
  ]

  store-paths :
      (modified : Modified) (key : String) (value : V) (file_path : Option String)
      (c : CacheInner I V) (k : String)
      → HashMap.contains_key k (store modified key value file_path c).file_paths ≡ true
      → ((key == k) || HashMap.contains_key k c.file_paths) ≡ true
  unfolding store
  store-paths modified key value none c k h = ground arith
  store-paths modified key value (some path) c k h =
      ground (arith, contains_key-insert key k path c.file_paths)

  pub store-IsWellFormed :
      (modified : Modified) (key : String) (value : V) (file_path : Option String)
      (c : CacheInner I V)
      → IsWellFormed c
      → contains key (I.items c.fifo_order) ≡ false
      → IsWellFormed (store modified key value file_path c)
  unfolding store contains
  store-IsWellFormed modified key value file_path c w n =
      let xs = I.items c.fifo_order in
      let entry : CacheEntry V = record {
        value = value;
        mtime = stored_mtime modified file_path;
      } in
      let pushed : I.items (I.insert key c.fifo_order) ≡ xs ++ key ∷ [] =
        I.items-insert key c.fifo_order ∙ rw n refl in
      record {
        unique = IsUnique-insert key entry c.entries w.unique;
        distinct = rw pushed (IsDistinct-snoc key xs w.distinct n);
        same = λ k. rw pushed (
            ground (
              arith,
              contains_key-insert key k entry c.entries,
              contains-append k xs (key ∷ []),
              w.same k,
            ));
        size = rw pushed (
            ground (
              arith,
              length-insert key entry c.entries,
              length-append xs (key ∷ []),
              w.same key,
              w.size,
            ));
        paths = λ k h. ground (
          arith,
          contains_key-insert key k entry c.entries,
          store-paths modified key value file_path c k,
          w.paths k,
        );
      }
