-- ===== src/Cache/Examples.antt =====
-- The theorems about the memory cache at a concrete queue and a concrete history.
use clash_prism_engine.Base.{
  ℕ, ◌≡◌, ◌≢◌, refl, String, Option, none, some, List, [], ◌∷◌, ◌++◌, arith, leb, eqb,
  if◌then◌else◌, ◌==◌, string_eq, contains, without, length,
}
use clash_prism_engine.Base.HashMap
use clash_prism_engine.Cache.{
  IndexSet, MemoryCache, Modified, drop_key, stored_mtime, current_mtime, is_stale, pop_oldest,
  make_room, store, without_old, insert, get, invalidate, new,
}
use clash_prism_engine.Cache.Bounded.{
  IsBounded, Operation, do_get, do_insert, do_invalidate, run, apply, run-new-IsBounded, drop_first,
}
use clash_prism_engine.Cache.Fifo.{insert_queue, get-insert_lem}

abbrev first_key : List String → Option (String × List String)
first_key [] = none
first_key (k ∷ ks) = some (k, ks)

first_key_lem :
    (s : List String) (k : String) (ks : List String)
    → s ≡ k ∷ ks
    → (s' : List String) × (first_key s ≡ some (k, s')) × (s' ≡ ks)
first_key_lem s k ks e = (ks, rw e refl, refl)

is_empty_lem : (s : List String) → eqb (length s) 0 ≡ eqb (length s) 0
is_empty_lem s = refl

-- A queue that is a list.
abbrev list_set : IndexSet
list_set = record {
  Keys = List String;
  items = λ s. s;
  empty = [];
  is_empty = λ s. eqb (length s) 0;
  insert = λ k s. if contains k s then s else s ++ k ∷ [];
  shift_remove = λ k s. without k s;
  shift_remove_first = first_key;
  items-empty = refl;
  is_empty-items = is_empty_lem;
  items-insert = λ k s. refl;
  items-shift_remove = λ k s. refl;
  shift_remove_first_lem = first_key_lem;
}

abbrev early : Modified
early = λ path. some (some 1000)

abbrev late : Modified
late = λ path. some (some 2000)

abbrev history : List (Operation ℕ)
history =
    do_insert early "a" 1 none
    ∷ do_insert early "b" 2 (some "b.yaml")
    ∷ do_insert early "a" 3 none
    ∷ do_insert early "c" 4 none
    ∷ do_get early "a"
    ∷ do_invalidate "z"
    ∷ []

abbrev cached : MemoryCache list_set ℕ
cached = run (new list_set ℕ 2) history

program : Unit {0}
unfolding run apply insert get invalidate store without_old make_room pop_oldest drop_key is_stale
    new stored_mtime current_mtime HashMap.get HashMap.insert HashMap.contains_key HashMap.remove
    contains without
program = tt

cached_queue : cached.inner.fifo_order ≡ "a" ∷ "c" ∷ []
unfolding program
cached_queue = refl

cached_max_size : cached.max_size ≢ 0
unfolding program
cached_max_size e = omega arith

run-new-IsBounded_example : IsBounded cached
run-new-IsBounded_example = run-new-IsBounded list_set ℕ 2 history

insert_queue_example :
    let c' = insert early cached "d" 5 none in
    let others = without "d" cached.inner.fifo_order in
    (c'.inner.fifo_order
      ≡ (if leb cached.max_size (length others) then drop_first others else others) ++ "d" ∷ [])
    × ((k : String)
        → HashMap.get k c'.inner.entries ≡ (
            if "d" == k
            then some (record { value = 5; mtime = stored_mtime early none })
            else if contains k c'.inner.fifo_order
            then HashMap.get k cached.inner.entries
            else none))
insert_queue_example =
    insert_queue early cached "d" 5 none (run-new-IsBounded list_set ℕ 2 history) cached_max_size

get-insert_lem_example :
    let c' = insert early cached "d" 5 (some "d.yaml") in
    (get early c' "d" ≡ (c', some 5))
    × ((path : String) (t : ℕ)
        → some "d.yaml" ≡ some path
        → stored_mtime early (some "d.yaml") ≡ some t
        → current_mtime late path ≢ none
        → current_mtime late path ≢ some t
        → get late c' "d" ≡ (invalidate c' "d", none))
get-insert_lem_example =
    get-insert_lem early late cached "d" 5 (some "d.yaml") (run-new-IsBounded list_set ℕ 2 history)
      cached_max_size
