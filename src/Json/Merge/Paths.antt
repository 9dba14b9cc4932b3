-- ===== src/Json/Merge/Paths.antt =====
-- crates/clash-prism-core/src/executor.rs: what a merge gives along every path of keys.
use clash_prism_engine.Base.{
  String, Option, none, some, List, [], ◌∷◌, ◌≡◌, refl, arith, Option-cases, inl, inr,
}
use clash_prism_engine.Json.{
  Value, Fields, null, bool, number, string, array, object, get, get_field,
}
use clash_prism_engine.Json.Merge.{deep_merge_json, merge_fields}
use clash_prism_engine.Json.Merge.Laws.{HasUniqueKeys, get_field-merge_fields, deep_merge_json_self}
use clash_prism_engine.Json.Path.Keys.{get_field-HasUniqueKeys}

-- What an overlay does at a path: it says nothing of it, it gives what stands there (nothing, below a
-- value that is no object), or it has an object there.
pub data Effect (N : Type 0) : Type 0 where
  untouched : Effect N
  given : Option (Value N) → Effect N
  merged : Effect N

module _ {N : Type 0} where
  -- The value that some keys lead to, one in another.
  unfoldable pub reach : List String → Value N → Option (Value N)
  reach [] v = some v
  reach (k ∷ ks) v = elim (get k v) [ none ↦ none | some w ↦ reach ks w ]

  unfoldable pub effect : List String → Value N → Effect N
  effect [] (object fs) = merged
  effect [] v = given (some v)
  effect (k ∷ ks) (object fs) = elim (get_field k fs) [ none ↦ untouched | some w ↦ effect ks w ]
  effect (k ∷ ks) v = given none

  -- What stands at a path of the result, for what stands there in the base.
  abbrev pub HasEffect : Effect N → (base result : Option (Value N)) → Type 0
  HasEffect untouched base result = result ≡ base
  HasEffect (given v) base result = result ≡ v
  HasEffect merged base result = (m : Fields N) × (result ≡ some (object m))

  -- What an overlay gives where nothing stands in the base.
  fresh-HasEffect : (ks : List String) (o : Value N) → HasEffect (effect ks o) none (reach ks o)
  unfolding effect reach get
  fresh-HasEffect [] (object fs) = (fs, refl)
  fresh-HasEffect [] null = refl
  fresh-HasEffect [] (bool b) = refl
  fresh-HasEffect [] (number n) = refl
  fresh-HasEffect [] (string t) = refl
  fresh-HasEffect [] (array xs) = refl
  fresh-HasEffect (k ∷ ks) (object fs) = elim (Option-cases (get_field k fs)) [
    | inl e ↦ rw (e, effect, reach) refl
    | inr (o, e) ↦ rw (e, effect, reach) (fresh-HasEffect ks o)
  ]
  fresh-HasEffect (k ∷ ks) null = refl
  fresh-HasEffect (k ∷ ks) (bool b) = refl
  fresh-HasEffect (k ∷ ks) (number n) = refl
  fresh-HasEffect (k ∷ ks) (string t) = refl
  fresh-HasEffect (k ∷ ks) (array xs) = refl

  merge-HasEffect :
      (ks : List String) (b o : Value N)
      → HasUniqueKeys o
      → HasEffect (effect ks o) (reach ks b) (reach ks (deep_merge_json b o))
  unfolding effect reach get deep_merge_json HasUniqueKeys
  merge-HasEffect [] (object m) (object fs) u = (merge_fields m fs, refl)
  merge-HasEffect [] null (object fs) u = (fs, refl)
  merge-HasEffect [] (bool x) (object fs) u = (fs, refl)
  merge-HasEffect [] (number x) (object fs) u = (fs, refl)
  merge-HasEffect [] (string x) (object fs) u = (fs, refl)
  merge-HasEffect [] (array x) (object fs) u = (fs, refl)
  merge-HasEffect [] b null u = refl
  merge-HasEffect [] b (bool x) u = refl
  merge-HasEffect [] b (number x) u = refl
  merge-HasEffect [] b (string x) u = refl
  merge-HasEffect [] b (array x) u = refl
  merge-HasEffect (k ∷ ks) b null u = refl
  merge-HasEffect (k ∷ ks) b (bool x) u = refl
  merge-HasEffect (k ∷ ks) b (number x) u = refl
  merge-HasEffect (k ∷ ks) b (string x) u = refl
  merge-HasEffect (k ∷ ks) b (array x) u = refl
  merge-HasEffect (k ∷ ks) null (object fs) u = fresh-HasEffect (k ∷ ks) (object fs)
  merge-HasEffect (k ∷ ks) (bool x) (object fs) u = fresh-HasEffect (k ∷ ks) (object fs)
  merge-HasEffect (k ∷ ks) (number x) (object fs) u = fresh-HasEffect (k ∷ ks) (object fs)
  merge-HasEffect (k ∷ ks) (string x) (object fs) u = fresh-HasEffect (k ∷ ks) (object fs)
  merge-HasEffect (k ∷ ks) (array x) (object fs) u = fresh-HasEffect (k ∷ ks) (object fs)
  merge-HasEffect (k ∷ ks) (object m) (object fs) u = elim (Option-cases (get_field k fs)) [
    | inl e ↦
        let same : get_field k (merge_fields m fs) ≡ get_field k m =
          ground (arith, e, get_field-merge_fields k m fs u) in
        rw (e, effect, deep_merge_json, same, reach) refl
    | inr (o, e) ↦ elim (Option-cases (get_field k m)) [
      | inl n ↦
          let there : get_field k (merge_fields m fs) ≡ some o =
            ground (arith, e, n, get_field-merge_fields k m fs u) in
          rw (e, effect, n, deep_merge_json, there, reach) (fresh-HasEffect ks o)
      | inr (b, h) ↦
          let there : get_field k (merge_fields m fs) ≡ some (deep_merge_json b o) =
            ground (arith, e, h, get_field-merge_fields k m fs u) in
          rw (e, effect, h, deep_merge_json, there, reach)
            (merge-HasEffect ks b o (get_field-HasUniqueKeys k fs o u e))
    ]
  ]

  -- At every path of keys the merge has what the overlay has there, if that is no object; nothing,
  -- below such a value; an object, where the overlay has one; and what the base has, where the
  -- overlay says nothing. So each value of the overlay that is no object replaces what stands in
  -- its place, and an object replaces a value that is none. Merging a value into itself changes
  -- nothing. The keys of the overlay's objects, outside of
  -- arrays, are distinct.
  pub deep_merge_json_lem :
      (ks : List String) (base overlay : Value N)
      → HasUniqueKeys overlay
      → HasEffect (effect ks overlay) (reach ks base) (reach ks (deep_merge_json base overlay))
        × (deep_merge_json overlay overlay ≡ overlay)
  deep_merge_json_lem ks base overlay u =
      (merge-HasEffect ks base overlay u, deep_merge_json_self overlay u)
