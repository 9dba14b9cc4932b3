-- ===== src/Json/Merge/Laws.antt =====
-- crates/clash-prism-core/src/executor.rs: what a merge gives at each key, what it leaves alone, and
-- the bound of its counts.
use clash_prism_engine.Base.{
  ◌≤◌, String, false, none, some, if◌then◌else◌, Eq, ◌==◌, string_eq, ◌≡◌, refl, arith, ap, eq_iff,
  Option-cases, inl, inr,
}
use clash_prism_engine.Json.{
  Value, Fields, null, bool, number, string, array, object, end, field, get_field, insert_field,
  contains_field,
}
use clash_prism_engine.Json.Entries.{
  get_field-insert_field, insert_field-get_field, contains_field-get_field,
}
use clash_prism_engine.Json.Merge.{deep_merge_json, merge_fields, count_merge_diff, count_fields}

module _ {N : Type 0} where
  -- No key stands twice in a map, at any depth of objects; the maps inside of arrays are not looked
  -- at.
  unfoldable mutual
    pub HasUniqueKeys : Value N → Type 0
    HasUniqueKeys (object m) = AreUnique m
    HasUniqueKeys null = Unit
    HasUniqueKeys (bool b) = Unit
    HasUniqueKeys (number n) = Unit
    HasUniqueKeys (string s) = Unit
    HasUniqueKeys (array xs) = Unit

    pub AreUnique : Fields N → Type 0
    AreUnique end = Unit
    AreUnique (field k v m) = (contains_field k m ≡ false) × HasUniqueKeys v × AreUnique m

  -- The entries of a map stand in another one.
  abbrev Within : Fields N → Fields N → Type 0
  Within fs m = (k : String) (v : Value N) → get_field k fs ≡ some v → get_field k m ≡ some v

  within_tail :
      (k j : String) (v x : Value N) (fs : Fields N)
      → contains_field k fs ≡ false
      → get_field j fs ≡ some x
      → get_field j (field k v fs) ≡ some x
  unfolding get_field
  within_tail k j v x fs n h = ground (arith, contains_field-get_field k fs, eq_iff k j)

  mutual
    unfolding deep_merge_json HasUniqueKeys get_field

    pub deep_merge_json_self : (v : Value N) → HasUniqueKeys v → deep_merge_json v v ≡ v
    deep_merge_json_self null u = refl
    deep_merge_json_self (bool b) u = refl
    deep_merge_json_self (number n) u = refl
    deep_merge_json_self (string s) u = refl
    deep_merge_json_self (array xs) u = refl
    deep_merge_json_self (object m) u = ap object (merge_fields-Within m m u (λ k v h. h))

    merge_fields-Within : (m fs : Fields N) → AreUnique fs → Within fs m → merge_fields m fs ≡ m
    merge_fields-Within m end u w = refl
    merge_fields-Within m (field k v fs) (n, uv, us) w =
        let here : get_field k m ≡ some v = w k v (ground (arith, eq_iff k k)) in
        let same : deep_merge_json v v ≡ v = deep_merge_json_self v uv in
        rw (here, same, insert_field-get_field k v m here)
          (merge_fields-Within m fs us (λ j x h. w j x (within_tail k j v x fs n h)))

  -- A round of the loop of the merge.
  merge_entry :
      (k j : String) (v : Value N) (m : Fields N)
      → get_field j (elim (get_field k m) [
        | none ↦ insert_field k v m
        | some existing ↦ insert_field k (deep_merge_json existing v) m
      ])
        ≡ (if k == j
            then some (elim (get_field k m) [ none ↦ v | some b ↦ deep_merge_json b v ])
            else get_field j m)
  merge_entry k j v m = elim (Option-cases (get_field k m)) [
    | inl e ↦ ground (arith, e, get_field-insert_field k j v m)
    | inr (b, e) ↦ ground (arith, e, get_field-insert_field k j (deep_merge_json b v) m)
  ]

  pub get_field-merge_fields :
      (k : String) (m fs : Fields N)
      → AreUnique fs
      → get_field k (merge_fields m fs) ≡ elim (get_field k fs) [
        | none ↦ get_field k m
        | some o ↦ some (elim (get_field k m) [ none ↦ o | some b ↦ deep_merge_json b o ])
      ]
  unfolding merge_fields get_field HasUniqueKeys
  get_field-merge_fields k m end u = refl
  get_field-merge_fields k m (field j v fs) (n, uv, us) =
      let m' : Fields N = elim (get_field j m) [
        | none ↦ insert_field j v m
        | some existing ↦ insert_field j (deep_merge_json existing v) m
      ] in
      ground (
        arith,
        get_field-merge_fields k m' fs us,
        merge_entry j k v m,
        contains_field-get_field j fs,
        eq_iff j k,
      )

  module _ ⦃e : Eq N⦄ where
    mutual
      unfolding count_merge_diff

      count_merge_diff-le : (b v : Value N) → (count_merge_diff b v).0 ≤ (count_merge_diff b v).1
      count_merge_diff-le b null = ground arith
      count_merge_diff-le b (bool c) = ground arith
      count_merge_diff-le b (number n) = ground arith
      count_merge_diff-le b (string s) = ground arith
      count_merge_diff-le b (array xs) = ground arith
      count_merge_diff-le (object m) (object fs) = count_fields-le m fs
      count_merge_diff-le null (object fs) = omega arith
      count_merge_diff-le (bool c) (object fs) = omega arith
      count_merge_diff-le (number n) (object fs) = omega arith
      count_merge_diff-le (string s) (object fs) = omega arith
      count_merge_diff-le (array xs) (object fs) = omega arith

      count_fields-le : (m fs : Fields N) → (count_fields m fs).0 ≤ (count_fields m fs).1
      count_fields-le m end = omega arith
      count_fields-le m (field k v fs) = elim (Option-cases (get_field k m)) [
        | inl e ↦ ground (arith, e, count_fields-le m fs)
        | inr (b, e) ↦ ground (arith, e, count_fields-le m fs, count_merge_diff-le b v)
      ]

    -- No more keys of a merge are counted as modified than as present, so that the difference of the
    -- two counts is a number.
    pub count_merge_diff_bound :
        (base overlay : Value N)
        → let counts = count_merge_diff base (deep_merge_json base overlay) in counts.0 ≤ counts.1
    count_merge_diff_bound base overlay = count_merge_diff-le base (deep_merge_json base overlay)
