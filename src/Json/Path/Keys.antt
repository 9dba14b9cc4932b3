-- ===== src/Json/Path/Keys.antt =====
-- crates/clash-prism-core/src/json_path.rs, executor.rs: the keys of the maps outside of arrays stay
-- distinct under the operations on values.
use clash_prism_engine.Base.{
  String, false, some, List, [], ◌∷◌, ◌==◌, string_eq, ◌≡◌, refl, arith, eq_iff, subst,
  Option-cases, Bool-cases, inl, inr,
}
use clash_prism_engine.Json.{
  Value, Fields, null, bool, number, string, array, object, end, field, get_field, insert_field,
  contains_field, get_field_or,
}
use clash_prism_engine.Json.Path.{
  child, put_child, update, create, split, get_json_path_mut, get_or_create_json_path_mut,
  parse_usize, at_array,
}
use clash_prism_engine.Json.Merge.{deep_merge_json, merge_fields}
use clash_prism_engine.Json.Merge.Laws.{HasUniqueKeys, AreUnique}
use clash_prism_engine.Json.Entries.{get_field-insert_field, contains_field-get_field}

module _ {N : Type 0} where
  pub get_field-HasUniqueKeys :
      (k : String) (m : Fields N) (v : Value N)
      → AreUnique m
      → get_field k m ≡ some v
      → HasUniqueKeys v
  unfolding HasUniqueKeys get_field
  get_field-HasUniqueKeys k end v u h = absurd (ground arith)
  get_field-HasUniqueKeys k (field j w m) v (n, uw, um) h = elim (Bool-cases (j == k)) [
    | inl e ↦ let same : w ≡ v = ground (arith, e) in subst HasUniqueKeys same uw
    | inr e ↦ get_field-HasUniqueKeys k m v um (ground (arith, e))
  ]

  insert_field-AreUnique :
      (k : String) (v : Value N) (m : Fields N)
      → HasUniqueKeys v
      → AreUnique m
      → AreUnique (insert_field k v m)
  unfolding HasUniqueKeys insert_field contains_field
  insert_field-AreUnique k v end uv um = (refl, uv, tt)
  insert_field-AreUnique k v (field j w m) uv (n, uw, um) = elim (Bool-cases (j == k)) [
    | inl e ↦ rw e (n, uv, um)
    | inr e ↦
        let apart : contains_field j (insert_field k v m) ≡ false = ground (
          arith,
          e,
          contains_field-get_field j (insert_field k v m),
          contains_field-get_field j m,
          get_field-insert_field k j v m,
          eq_iff k j,
          eq_iff j k,
        ) in
        rw e (apart, uw, insert_field-AreUnique k v m uv um)
  ]

  pub object-HasUniqueKeys :
      (p : String) (m : Fields N) (w : Value N)
      → HasUniqueKeys (object m)
      → HasUniqueKeys w
      → HasUniqueKeys (object (insert_field p w m))
  unfolding HasUniqueKeys
  object-HasUniqueKeys p m w um uw = insert_field-AreUnique p w m uw um

  get_field_or-HasUniqueKeys :
      (p : String) (m : Fields N)
      → HasUniqueKeys (object m)
      → HasUniqueKeys (get_field_or (object end) p m)
  unfolding HasUniqueKeys
  get_field_or-HasUniqueKeys p m um = elim (Option-cases (get_field p m)) [
    | inl e ↦ rw (e, get_field_or) tt
    | inr (v, e) ↦ rw (e, get_field_or) (get_field-HasUniqueKeys p m v um e)
  ]

  -- A new value under a part, whose keys are distinct where those of the old one are.
  put_child_unique :
      (p : String) (v w w' : Value N)
      → HasUniqueKeys v
      → child p v ≡ some w
      → (HasUniqueKeys w → HasUniqueKeys w')
      → HasUniqueKeys (put_child p w' v)
  unfolding child put_child HasUniqueKeys
  put_child_unique p (object m) w w' u h k =
      insert_field-AreUnique p w' m (k (get_field-HasUniqueKeys p m w u h)) u
  put_child_unique p (array xs) w w' u h k = elim (Option-cases (parse_usize p)) [
    | inl e ↦ rw (e, put_child) tt
    | inr (i, e) ↦ rw (e, put_child) tt
  ]
  put_child_unique p null w w' u h k = tt
  put_child_unique p (bool b) w w' u h k = tt
  put_child_unique p (number n) w w' u h k = tt
  put_child_unique p (string s) w w' u h k = tt

  module _ {A : Type 0} (f : Value N → Value N × A) where
    -- What is done at a place keeps the keys of maps, outside of arrays, distinct.
    abbrev pub KeepsKeys : Type 0
    KeepsKeys = (v : Value N) → HasUniqueKeys v → HasUniqueKeys (f v).0

    update-HasUniqueKeys :
        (ps : List String) (v v' : Value N) (a : A)
        → KeepsKeys
        → HasUniqueKeys v
        → update f ps v ≡ some (v', a)
        → HasUniqueKeys v'
    unfolding update
    update-HasUniqueKeys [] v v' a keeps u h =
        let same : (f v).0 ≡ v' = ground arith in subst HasUniqueKeys same (keeps v u)
    update-HasUniqueKeys (p ∷ ps) v v' a keeps u h = elim (Option-cases (child p v)) [
      | inl e ↦ absurd (ground (arith, e))
      | inr (w, e) ↦ elim (Option-cases (update f ps w)) [
        | inl x ↦ absurd (ground (arith, e, x))
        | inr ((w', b), x) ↦
            let same : put_child p w' v ≡ v' = ground (arith, e, x) in
            subst HasUniqueKeys same
              (put_child_unique p v w w' u e (λ uw. update-HasUniqueKeys ps w w' b keeps uw x))
      ]
    ]

    create-HasUniqueKeys :
        (ps : List String) (v v' : Value N) (a : A)
        → KeepsKeys
        → HasUniqueKeys v
        → create f ps v ≡ some (v', a)
        → HasUniqueKeys v'
    unfolding create
    create-HasUniqueKeys [] v v' a keeps u h =
        let same : (f v).0 ≡ v' = ground arith in subst HasUniqueKeys same (keeps v u)
    create-HasUniqueKeys (p ∷ ps) (object m) v' a keeps u h =
        let d = get_field_or (object end) p m in
        elim (Option-cases (create f ps d)) [
          | inl x ↦ absurd (ground (arith, x))
          | inr ((w, b), x) ↦
              let same : object (insert_field p w m) ≡ v' = ground (arith, x) in
              subst HasUniqueKeys same (
                object-HasUniqueKeys p m w u
                  (create-HasUniqueKeys ps d w b keeps (get_field_or-HasUniqueKeys p m u) x))
        ]
    create-HasUniqueKeys (p ∷ ps) v v' a keeps u h = absurd (ground arith)

    pub get_json_path_mut-HasUniqueKeys :
        (v v' : Value N) (path : String) (a : A)
        → KeepsKeys
        → HasUniqueKeys v
        → get_json_path_mut f v path ≡ some (v', a)
        → HasUniqueKeys v'
    unfolding get_json_path_mut
    get_json_path_mut-HasUniqueKeys v v' path a keeps u h = elim (Bool-cases (path == "")) [
      | inl z ↦ let same : (f v).0 ≡ v' = ground (arith, z) in subst HasUniqueKeys same (keeps v u)
      | inr n ↦ update-HasUniqueKeys (split path) v v' a keeps u (ground (arith, n))
    ]

    pub get_or_create-HasUniqueKeys :
        (v v' : Value N) (path : String) (a : A)
        → KeepsKeys
        → HasUniqueKeys v
        → get_or_create_json_path_mut f v path ≡ some (v', a)
        → HasUniqueKeys v'
    unfolding get_or_create_json_path_mut
    get_or_create-HasUniqueKeys v v' path a keeps u h = elim (Bool-cases (path == "")) [
      | inl z ↦ let same : (f v).0 ≡ v' = ground (arith, z) in subst HasUniqueKeys same (keeps v u)
      | inr n ↦ create-HasUniqueKeys (split path) v v' a keeps u (ground (arith, n))
    ]

  pub at_array-KeepsKeys :
      {A : Type 0} (f : List (Value N) → List (Value N) × A) → KeepsKeys (at_array f)
  unfolding at_array HasUniqueKeys
  at_array-KeepsKeys f (array xs) u = tt
  at_array-KeepsKeys f (object m) u = u
  at_array-KeepsKeys f null u = tt
  at_array-KeepsKeys f (bool b) u = tt
  at_array-KeepsKeys f (number n) u = tt
  at_array-KeepsKeys f (string s) u = tt

  mutual
    unfolding deep_merge_json HasUniqueKeys get_field

    pub deep_merge_json-HasUniqueKeys :
        (b v : Value N) → HasUniqueKeys b → HasUniqueKeys v → HasUniqueKeys (deep_merge_json b v)
    deep_merge_json-HasUniqueKeys b null ub uv = tt
    deep_merge_json-HasUniqueKeys b (bool x) ub uv = tt
    deep_merge_json-HasUniqueKeys b (number x) ub uv = tt
    deep_merge_json-HasUniqueKeys b (string x) ub uv = tt
    deep_merge_json-HasUniqueKeys b (array x) ub uv = tt
    deep_merge_json-HasUniqueKeys (object m) (object fs) ub uv = merge_fields-AreUnique m fs ub uv
    deep_merge_json-HasUniqueKeys null (object fs) ub uv = uv
    deep_merge_json-HasUniqueKeys (bool x) (object fs) ub uv = uv
    deep_merge_json-HasUniqueKeys (number x) (object fs) ub uv = uv
    deep_merge_json-HasUniqueKeys (string x) (object fs) ub uv = uv
    deep_merge_json-HasUniqueKeys (array x) (object fs) ub uv = uv

    merge_fields-AreUnique :
        (m fs : Fields N) → AreUnique m → AreUnique fs → AreUnique (merge_fields m fs)
    merge_fields-AreUnique m end um uf = um
    merge_fields-AreUnique m (field k v fs) um (n, uv, us) = elim (Option-cases (get_field k m)) [
      | inl e ↦
          rw (e, merge_fields)
            (merge_fields-AreUnique (insert_field k v m) fs (insert_field-AreUnique k v m uv um) us)
      | inr (b, e) ↦
          let ub : HasUniqueKeys b = get_field-HasUniqueKeys k m b um e in
          let uw = deep_merge_json-HasUniqueKeys b v ub uv in
          let w = deep_merge_json b v in
          rw (e, merge_fields)
            (merge_fields-AreUnique (insert_field k w m) fs (insert_field-AreUnique k w m uw um) us)
    ]
