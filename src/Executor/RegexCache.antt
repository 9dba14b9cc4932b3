-- ===== src/Executor/RegexCache.antt =====
-- crates/clash-prism-core/src/executor.rs and executor/expr.rs: the caches of compiled regular
-- expressions of a thread, one for scopes and one for expressions, of the same code. The type of expressions and their compilation by the package regex are parameters; an `IndexMap` is
-- the list of its entries in their order.
pub mod Bounded
use clash_prism_engine.Base.{
  ℕ, zero, suc, ◌/◌, String, Option, none, some, List, [], ◌∷◌, if◌then◌else◌, leb, length,
  string_eq,
}
use clash_prism_engine.Base.HashMap.{HashMap, get, insert, remove}

abbrev pub max_regex_cache_size : ℕ
max_regex_cache_size = 512

-- `shift_remove_index(0)`, some times.
pub drop_oldest {ℓ} : {A : Type ℓ} → ℕ → List A → List A
drop_oldest zero cache = cache
drop_oldest (suc n) [] = []
drop_oldest (suc n) (entry ∷ cache) = drop_oldest n cache

pub evict_oldest {ℓ} : {R : Type ℓ} → HashMap String R → HashMap String R
evict_oldest cache =
    if leb max_regex_cache_size (length cache)
    then drop_oldest (max_regex_cache_size / 4) cache
    else cache

module _ {R : Type 0} (build : String → Option R) where
  -- A compiled expression goes into the cache, an error does not.
  pub build_and_insert : HashMap String R → String → Option R × HashMap String R
  build_and_insert cache pattern = elim (build pattern) [
    | none ↦ (none, cache)
    | some re ↦ (some re, insert pattern re cache)
  ]

  -- The expression, if it compiles, and the new cache. A hit moves its entry to the end.
  pub get_exec_cached_regex : HashMap String R → String → Option R × HashMap String R
  get_exec_cached_regex cache pattern = elim (get pattern cache) [
    | some re ↦ (some re, insert pattern re (remove pattern cache))
    | none ↦ build_and_insert (evict_oldest cache) pattern
  ]

  -- The same for the cache of expressions.
  pub get_cached_regex : HashMap String R → String → Option R × HashMap String R
  get_cached_regex cache pattern = elim (get pattern cache) [
    | some re ↦ (some re, insert pattern re (remove pattern cache))
    | none ↦ build_and_insert (evict_oldest cache) pattern
  ]
