-- ===== src/Cache/Fifo.antt =====
-- What an insertion into the memory cache does to the queue and to every entry, and what is read back.
use clash_prism_engine.Base.{
  ℕ, ◌≡◌, ◌≢◌, refl, String, true, false, Option, none, some, [], ◌∷◌, ◌++◌, arith, leb, eqb,
  if◌then◌else◌, ◌==◌, string_eq, eq_iff, contains, without, length, contains-append, sym, ap, ◌∙◌,
  subst, beq_refl,
}
use clash_prism_engine.Base.HashMap
use clash_prism_engine.Base.HashMap.{
  HashMap, IsUnique, contains_key-insert, contains_key-remove, IsUnique-insert, IsUnique-remove,
  length-insert, length-remove, get-remove, get-insert,
}
use clash_prism_engine.Cache.{
  IndexSet, CacheEntry, CacheInner, MemoryCache, Modified, drop_key, stored_mtime, make_room, store,
  without_old, insert, get, invalidate,
}
use clash_prism_engine.Cache.Keys.{IsWellFormed, items-without_old}
use clash_prism_engine.Cache.{current_mtime, is_stale}
use clash_prism_engine.Cache.Bounded.{IsBounded, insert-IsFreed, insert-fresh, drop_first}

unchanged :
    (modified : Modified) (path : String)
    → is_stale modified (stored_mtime modified (some path)) path ≡ false
unfolding is_stale current_mtime stored_mtime
unchanged modified path = ground arith

changed :
    (later : Modified) (path : String) (t : ℕ)
    → current_mtime later path ≢ none
    → current_mtime later path ≢ some t
    → is_stale later (some t) path ≡ true
unfolding is_stale
changed later path t u n = ground arith

module _ {ℓ} {I : IndexSet} {V : Type ℓ} where
  get-without_old :
      (key k : String) (c : CacheInner I V)
      → key ≢ k
      → HashMap.get k (without_old key c).entries ≡ HashMap.get k c.entries
  unfolding without_old drop_key
  get-without_old key k c n = ground (arith, get-remove key k c.entries, eq_iff key k)

  -- The insertion of a key into a cache of some capacity: the queue loses the key, and its oldest
  -- entry where it is still full, and gets the key at its end; the key has the new value, each
  -- other key that is still in the queue has the entry it had, and no other key has one.
  pub insert_queue :
      (modified : Modified) (c : MemoryCache I V) (key : String) (value : V)
      (file_path : Option String)
      → IsBounded c
      → c.max_size ≢ 0
      → let c' = insert modified c key value file_path in
        let others = without key (I.items c.inner.fifo_order) in
        (I.items c'.inner.fifo_order
          ≡ (if leb c.max_size (length others) then drop_first others else others) ++ key ∷ [])
        × ((k : String)
            → HashMap.get k c'.inner.entries ≡ (
                if key == k
                then some (record { value = value; mtime = stored_mtime modified file_path })
                else if contains k (I.items c'.inner.fifo_order)
                then HashMap.get k c.inner.entries
                else none))
  unfolding insert store contains
  insert_queue modified c key value file_path (w, b) z =
      let old = without_old key c.inner in
      let freed = make_room c.max_size (length (I.items old.fifo_order)) old in
      let f = insert-IsFreed c key (w, b) in
      let fresh = insert-fresh c key freed w f in
      let pushed : I.items (I.insert key freed.fifo_order) ≡ I.items freed.fifo_order ++ key ∷ [] =
        I.items-insert key freed.fifo_order ∙ rw fresh refl in
      let some_room : eqb c.max_size 0 ≡ false = ground arith in
      let entry : CacheEntry V = record {
        value = value;
        mtime = stored_mtime modified file_path;
      } in
      rw some_room (
        rw (pushed, f.queue, items-without_old key c.inner w) refl,
        λ k. rw pushed (
            ground (
              arith,
              get-insert key k entry freed.entries,
              f.kept k,
              f.formed.same k,
              get-without_old key k c.inner,
              contains-append k (I.items freed.fifo_order) (key ∷ []),
              HashMap.contains_key-get k freed.entries,
              eq_iff key k,
            )),
      )

  no_path :
      (c : CacheInner I V) (key : String)
      → IsWellFormed c
      → contains key (I.items c.fifo_order) ≡ false
      → HashMap.get key c.file_paths ≡ none
  no_path c key w n =
      ground (arith, HashMap.contains_key-get key c.file_paths, w.paths key, w.same key)

  -- The insertion into a cache of some capacity ends with the new entry.
  insert-store :
      (modified : Modified) (c : MemoryCache I V) (key : String) (value : V)
      (file_path : Option String)
      → c.max_size ≢ 0
      → let old = without_old key c.inner in
        let freed = make_room c.max_size (length (I.items old.fifo_order)) old in
        insert modified c key value file_path
        ≡ record c { inner = store modified key value file_path freed }
  unfolding insert
  insert-store modified c key value file_path z =
      let some_room : eqb c.max_size 0 ≡ false = ground arith in rw (some_room, insert) refl

  -- What is read behind the end of an insertion.
  abbrev IsReadBack : Modified → Modified → String → V → Option String → MemoryCache I V → Type ℓ
  IsReadBack modified later key value file_path c =
      (get modified c key ≡ (c, some value))
      × ((path : String) (t : ℕ)
          → file_path ≡ some path
          → stored_mtime modified file_path ≡ some t
          → current_mtime later path ≢ none
          → current_mtime later path ≢ some t
          → get later c key ≡ (invalidate c key, none))

  store-IsReadBack :
      (modified later : Modified) (key : String) (value : V) (file_path : Option String)
      (max_size : ℕ) (d : CacheInner I V)
      → HashMap.get key d.file_paths ≡ none
      → IsReadBack modified later key value file_path
          (record { inner = store modified key value file_path d; max_size = max_size })
  unfolding get store invalidate
  store-IsReadBack modified later key value none max_size d lost =
      let entry : CacheEntry V = record { value = value; mtime = stored_mtime modified none } in
      (
        ground (arith, get-insert key key entry d.entries, beq_refl key, lost),
        λ path t e u n m. absurd (cc),
      )
  store-IsReadBack modified later key value (some path) max_size d lost =
      let entry : CacheEntry V = record {
        value = value;
        mtime = stored_mtime modified (some path);
      } in
      let entries = get-insert key key entry d.entries in
      let paths = get-insert key key path d.file_paths in
      (
        ground (arith, entries, paths, beq_refl key, unchanged modified path),
        λ p t e u n m.
            let same : path ≡ p = ground arith in
            ground (
              arith,
              entries,
              paths,
              beq_refl key,
              ap (λ o. is_stale later o path) u,
              changed later path t (rw same n) (rw same m),
            ),
      )

  -- An entry that was just inserted is read back as long as the file system answers as before. With
  -- a file that has another time by then, the read gives nothing and removes the entry.
  pub get-insert_lem :
      (modified later : Modified) (c : MemoryCache I V) (key : String) (value : V)
      (file_path : Option String)
      → IsBounded c
      → c.max_size ≢ 0
      → let c' = insert modified c key value file_path in
        (get modified c' key ≡ (c', some value))
        × ((path : String) (t : ℕ)
            → file_path ≡ some path
            → stored_mtime modified file_path ≡ some t
            → current_mtime later path ≢ none
            → current_mtime later path ≢ some t
            → get later c' key ≡ (invalidate c' key, none))
  get-insert_lem modified later c key value file_path (w, b) z =
      let old = without_old key c.inner in
      let freed = make_room c.max_size (length (I.items old.fifo_order)) old in
      let f = insert-IsFreed c key (w, b) in
      let lost = no_path freed key f.formed (insert-fresh c key freed w f) in
      subst (IsReadBack modified later key value file_path)
        (sym (insert-store modified c key value file_path z))
        (store-IsReadBack modified later key value file_path c.max_size freed lost)
