-- ===== src/Executor/RegexCache/Bounded.antt =====
-- The cache stays small, and a cached expression is the one that its pattern compiles to.
use clash_prism_engine.Base.{
  ℕ, zero, suc, ◌-◌, ◌/◌, ◌≤◌, ◌<◌, String, Option, none, some, [], ◌∷◌, leb, length, string_eq,
  ◌==◌, ◌≡◌, arith, sym, subst, All, Bool-cases, Option-cases, inl, inr, eq_iff,
}
use clash_prism_engine.Base.HashMap.{HashMap, get, insert, remove, length-insert, contains_key}
use clash_prism_engine.Executor.RegexCache.{
  max_regex_cache_size, drop_oldest, evict_oldest, build_and_insert, get_exec_cached_regex,
  get_cached_regex,
}

module _ {R : Type 0} where
  length-remove : (k : String) (m : HashMap String R) → length (remove k m) ≤ length m
  unfolding remove
  length-remove k [] = omega arith
  length-remove k ((j, v) ∷ m) = elim (Bool-cases (j == k)) [
    | inl e ↦ rw e (omega (arith, length-remove k m))
    | inr e ↦ rw e (omega (arith, length-remove k m))
  ]

  length-remove_hit :
      (k : String) (re : R) (m : HashMap String R)
      → get k m ≡ some re
      → suc (length (remove k m)) ≤ length m
  unfolding remove get
  length-remove_hit k re [] h = absurd (ground arith)
  length-remove_hit k re ((j, v) ∷ m) h = elim (Bool-cases (j == k)) [
    | inl e ↦ rw e (omega (arith, length-remove k m))
    | inr e ↦ rw e (omega (arith, length-remove_hit k re m (ground (arith, e))))
  ]

  length-insert_le :
      (k : String) (re : R) (m : HashMap String R) → length (insert k re m) ≤ suc (length m)
  length-insert_le k re m = elim (Bool-cases (contains_key k m)) [
    | inl e ↦ ground (arith, e, length-insert k re m)
    | inr e ↦ ground (arith, e, length-insert k re m)
  ]

  module _ (P : String × R → Type 0) where
    All-drop_oldest : (n : ℕ) (m : HashMap String R) → All P m → All P (drop_oldest n m)
    unfolding drop_oldest
    All-drop_oldest zero m h = h
    All-drop_oldest (suc n) [] h = tt
    All-drop_oldest (suc n) (x ∷ m) (h, hs) = All-drop_oldest n m hs

    All-remove : (k : String) (m : HashMap String R) → All P m → All P (remove k m)
    unfolding remove
    All-remove k [] h = tt
    All-remove k ((j, v) ∷ m) (h, hs) = elim (Bool-cases (j == k)) [
      | inl e ↦ rw e (All-remove k m hs)
      | inr e ↦ rw e (h, All-remove k m hs)
    ]

    All-insert :
        (k : String) (v : R) (m : HashMap String R) → P (k, v) → All P m → All P (insert k v m)
    unfolding insert
    All-insert k v [] p h = (p, tt)
    All-insert k v ((j, w) ∷ m) p (h, hs) = elim (Bool-cases (j == k)) [
      | inl e ↦ let same : k ≡ j = sym ((eq_iff j k).0 e) in rw e (subst (λ i. P (i, v)) same p, hs)
      | inr e ↦ rw e (h, All-insert k v m p hs)
    ]

    All-get : (k : String) (v : R) (m : HashMap String R) → All P m → get k m ≡ some v → P (k, v)
    unfolding get
    All-get k v [] h e = absurd (ground arith)
    All-get k v ((j, w) ∷ m) (h, hs) e = elim (Bool-cases (j == k)) [
      | inl s ↦
          let key : j ≡ k = (eq_iff j k).0 s in
          let value : w ≡ v = ground (arith, s) in
          subst (λ i. P (i, v)) key (subst (λ x. P (j, x)) value h)
      | inr s ↦ All-get k v m hs (ground (arith, s))
    ]

  length-drop_oldest : (n : ℕ) (m : HashMap String R) → length (drop_oldest n m) ≡ length m - n
  unfolding drop_oldest
  length-drop_oldest zero m = omega arith
  length-drop_oldest (suc n) [] = omega arith
  length-drop_oldest (suc n) (x ∷ m) = omega (arith, length-drop_oldest n m)

  module _ (build : String → Option R) where
    -- At most 512 entries, each the expression that its pattern compiles to.
    abbrev pub IsCache : HashMap String R → Type 0
    IsCache m = (length m ≤ max_regex_cache_size) × All (λ entry. build entry.0 ≡ some entry.1) m

    evict_oldest-IsCache :
        (m : HashMap String R)
        → IsCache m
        → IsCache (evict_oldest m) × (length (evict_oldest m) < max_regex_cache_size)
    unfolding evict_oldest
    evict_oldest-IsCache m (small, valid) =
        elim (Bool-cases (leb max_regex_cache_size (length m))) [
          | inl e ↦
              let size = length-drop_oldest (max_regex_cache_size / 4) m in
              rw e (
                (
                  omega (arith, size, small),
                  All-drop_oldest (λ entry. build entry.0 ≡ some entry.1) 128 m valid,
                ),
                omega (arith, size, small),
              )
          | inr e ↦ rw e ((small, valid), ground (arith, e))
        ]

    abbrev IsAnswer : String → Option R × HashMap String R → Type 0
    IsAnswer pattern r = (r.0 ≡ build pattern) × IsCache r.1

    get_exec_cached_regex-IsAnswer :
        (m : HashMap String R) (pattern : String)
        → IsCache m
        → IsAnswer pattern (get_exec_cached_regex build m pattern)
    unfolding get_exec_cached_regex build_and_insert
    get_exec_cached_regex-IsAnswer m pattern (small, valid) =
        let P : String × R → Type 0 = λ entry. build entry.0 ≡ some entry.1 in
        let r = get_exec_cached_regex build m pattern in
        elim (Option-cases (get pattern m)) [
          | inr (re, e) ↦
              let compiled : build pattern ≡ some re = All-get P pattern re m valid e in
              let rest = remove pattern m in
              let done : r ≡ (some re, insert pattern re rest) = ground (arith, e) in
              let fits : length (insert pattern re rest) ≤ max_regex_cache_size = omega (
                arith,
                length-insert_le pattern re rest,
                length-remove_hit pattern re m e,
                small,
              ) in
              let kept = All-insert P pattern re rest compiled (All-remove P pattern m valid) in
              subst (IsAnswer pattern) (sym done) (sym compiled, (fits, kept))
          | inl e ↦
              let ((small_rest, kept), room) = evict_oldest-IsCache m (small, valid) in
              let rest = evict_oldest m in
              elim (Option-cases (build pattern)) [
                | inl x ↦
                    let done : r ≡ (none, rest) = ground (arith, e, x) in
                    subst (IsAnswer pattern) (sym done) (sym x, (small_rest, kept))
                | inr (re, x) ↦
                    let done : r ≡ (some re, insert pattern re rest) = ground (arith, e, x) in
                    let fits : length (insert pattern re rest) ≤ max_regex_cache_size =
                      omega (arith, length-insert_le pattern re rest, room) in
                    subst (IsAnswer pattern) (sym done)
                      (sym x, (fits, All-insert P pattern re rest x kept))
              ]
        ]

    -- A call of each of the two caches gives what the compilation of its pattern gives, and the cache
    -- keeps at most 512 entries, each the expression that its pattern compiles to.
    pub get_exec_cached_regex_lem :
        (m : HashMap String R) (pattern : String)
        → IsCache m
        → ((get_exec_cached_regex build m pattern).0 ≡ build pattern)
          × IsCache (get_exec_cached_regex build m pattern).1
          × ((get_cached_regex build m pattern).0 ≡ build pattern)
          × IsCache (get_cached_regex build m pattern).1
    unfolding get_exec_cached_regex get_cached_regex
    get_exec_cached_regex_lem m pattern h =
        let (answer, cache) = get_exec_cached_regex-IsAnswer m pattern h in
        (answer, cache, answer, cache)
