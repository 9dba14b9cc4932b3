-- ===== src/Cache.antt =====
-- crates/clash-prism-core/src/cache.rs: the memory cache. Its queue is an `IndexSet` of the package
-- indexmap, and the modification times come from the file system; both are parameters. Each
-- operation is what it does while it holds the lock.
pub mod Keys
pub mod Bounded
pub mod Fifo
mod Examples
use clash_prism_engine.Base.{
  ℕ, zero, suc, ◌+◌, ◌%◌, ◌^◌, ◌≡◌, String, Bool, true, false, not, ◌&&◌, Option, none, some, List,
  [], ◌∷◌, ◌++◌, leb, eqb, if◌then◌else◌, ◌==◌, string_eq, contains, without, length,
}
use clash_prism_engine.Base.HashMap
use clash_prism_engine.Base.HashMap.{HashMap}

-- What the cache uses of `IndexSet<String>`, and the documented effect of each operation on the keys
-- in their order.
pub record IndexSet : Type 1 where
  pub Keys : Type 0
  pub items : Keys → List String
  pub empty : Keys
  pub is_empty : Keys → Bool
  pub insert : String → Keys → Keys
  pub shift_remove : String → Keys → Keys
  pub shift_remove_first : Keys → Option (String × Keys)
  pub items-empty : items empty ≡ []
  pub is_empty-items : (s : Keys) → is_empty s ≡ eqb (length (items s)) 0
  pub items-insert :
      (k : String) (s : Keys)
      → items (insert k s) ≡ (if contains k (items s) then items s else items s ++ k ∷ [])
  pub items-shift_remove : (k : String) (s : Keys) → items (shift_remove k s) ≡ without k (items s)
  pub shift_remove_first_lem :
      (s : Keys) (k : String) (ks : List String)
      → items s ≡ k ∷ ks
      → (s' : Keys) × (shift_remove_first s ≡ some (k, s')) × (items s' ≡ ks)

pub record CacheEntry {ℓ} (V : Type ℓ) : Type ℓ where
  pub value : V
  pub mtime : Option ℕ

pub record CacheInner {ℓ} (I : IndexSet) (V : Type ℓ) : Type ℓ where
  pub entries : HashMap String (CacheEntry V)
  pub file_paths : HashMap String String
  pub fifo_order : I.Keys

pub record MemoryCache {ℓ} (I : IndexSet) (V : Type ℓ) : Type ℓ where
  pub inner : CacheInner I V
  pub max_size : ℕ

-- What the file system says of a path: nothing, or a time, which is before 1970 or some milliseconds
-- after.
abbrev pub Modified : Type 0
Modified = String → Option (Option ℕ)

-- `current_mtime`, where the file system answers.
unfoldable pub current_mtime : Modified → String → Option ℕ
current_mtime modified path = elim (modified path) [
  | none ↦ none
  | some none ↦ some 0
  | some (some ms) ↦ some (ms % 2 ^ 64)
]

-- Whether the file of an entry has changed.
pub is_stale : Modified → Option ℕ → String → Bool
is_stale modified none path = false
is_stale modified (some stored) path = elim (current_mtime modified path) [
  | none ↦ false
  | some current ↦ not (eqb current stored)
]

-- The time that is kept with an entry; none for a file before 1970.
unfoldable pub stored_mtime : Modified → Option String → Option ℕ
stored_mtime modified none = none
stored_mtime modified (some path) = elim (modified path) [
  | none ↦ none
  | some none ↦ none
  | some (some ms) ↦ some (ms % 2 ^ 64)
]

module _ {ℓ} {I : IndexSet} {V : Type ℓ} where
  -- The three removals that `get`, `insert` and `invalidate` share.
  pub drop_key : String → CacheInner I V → CacheInner I V
  drop_key key c = record {
    entries = HashMap.remove key c.entries;
    file_paths = HashMap.remove key c.file_paths;
    fifo_order = I.shift_remove key c.fifo_order;
  }

  pub get : Modified → MemoryCache I V → String → MemoryCache I V × Option V
  get modified c key = elim (HashMap.get key c.inner.entries) [
    | none ↦ (c, none)
    | some entry ↦ elim (HashMap.get key c.inner.file_paths) [
      | none ↦ (c, some entry.value)
      | some path ↦
          if is_stale modified entry.mtime path
          then (record c { inner = drop_key key c.inner }, none)
          else (c, some entry.value)
    ]
  ]

  -- A round of the loop that makes room.
  pub pop_oldest : CacheInner I V → CacheInner I V
  pop_oldest c = elim (I.shift_remove_first c.fifo_order) [
    | none ↦ c
    | some (oldest, fifo_order) ↦ record {
      entries = HashMap.remove oldest c.entries;
      file_paths = HashMap.remove oldest c.file_paths;
      fifo_order = fifo_order;
    }
  ]

  -- The loop, with fuel: a round takes a key from the queue, so its length is enough.
  pub make_room : ℕ → ℕ → CacheInner I V → CacheInner I V
  make_room max_size zero c = c
  make_room max_size (suc fuel) c =
      let freed = make_room max_size fuel (pop_oldest c) in
      if leb max_size (length c.entries) && not (I.is_empty c.fifo_order) then freed else c

  pub store : Modified → String → V → Option String → CacheInner I V → CacheInner I V
  store modified key value file_path c = record {
    entries =
        HashMap.insert key (record { value = value; mtime = stored_mtime modified file_path })
          c.entries;
    file_paths = elim file_path [
      | none ↦ c.file_paths
      | some path ↦ HashMap.insert key path c.file_paths
    ];
    fifo_order = I.insert key c.fifo_order;
  }

  -- The state in which the loop that makes room starts.
  pub without_old : String → CacheInner I V → CacheInner I V
  without_old key c = if HashMap.contains_key key c.entries then drop_key key c else c

  pub insert : Modified → MemoryCache I V → String → V → Option String → MemoryCache I V
  insert modified c key value file_path =
      let old = without_old key c.inner in
      let freed = make_room c.max_size (length (I.items old.fifo_order)) old in
      record c {
        inner = if eqb c.max_size 0 then freed else store modified key value file_path freed;
      }

  pub invalidate : MemoryCache I V → String → MemoryCache I V
  invalidate c key = record c { inner = drop_key key c.inner }

  pub clear : MemoryCache I V → MemoryCache I V
  clear c = record c { inner = record { entries = []; file_paths = []; fifo_order = I.empty } }

  pub len : MemoryCache I V → ℕ
  len c = length c.inner.entries

module _ {ℓ} (I : IndexSet) (V : Type ℓ) where
  pub new : ℕ → MemoryCache I V
  new max_size = record {
    inner = record { entries = []; file_paths = []; fifo_order = I.empty };
    max_size = max_size;
  }
