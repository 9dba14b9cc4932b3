-- ===== src/Json/Path/Update.antt =====
-- Reading behind a write at a path that is there.
use clash_prism_engine.Base.{
  ℕ, zero, suc, String, false, none, some, List, [], ◌∷◌, ◌==◌, string_eq, nat_eq, eq_iff, ◌≡◌, ◌≢◌,
  refl, arith, ap, ◌∙◌, sym, Option-cases, Bool-cases, inl, inr, ◌⊎◌, beq_false,
}
use clash_prism_engine.Json.{Value, array, object, to_list}
use clash_prism_engine.Json.Entries.{get_field-insert_field, to_list-from_list}
use clash_prism_engine.Json.Path.{
  split, parse_usize, get_elem?, set, child, put_child, follow, update, get_json_path,
  get_json_path_mut,
}

-- Two parts that lead to different places: other keys, and no two numbers for one index.
abbrev pub IsApart : String → String → Type 0
IsApart p q = (p ≢ q) × ((parse_usize p ≡ none) ⊎ (parse_usize p ≢ parse_usize q))

-- Two paths that part: behind the same parts, they go on to different places.
abbrev pub IsApartPath : List String → List String → Type 0
IsApartPath [] qs = ⊥
IsApartPath (p ∷ ps) [] = ⊥
IsApartPath (p ∷ ps) (q ∷ qs) = IsApart p q ⊎ ((p ≡ q) × IsApartPath ps qs)

module _ {N : Type 0} where
  get_elem?-set :
      (xs : List (Value N)) (i : ℕ) (v w : Value N)
      → get_elem? xs i ≡ some w
      → get_elem? (set xs i v) i ≡ some v
  unfolding get_elem? set
  get_elem?-set [] i v w h = cc
  get_elem?-set (x ∷ xs) zero v w h = refl
  get_elem?-set (x ∷ xs) (suc i) v w h = get_elem?-set xs i v w h

  get_elem?-set_other :
      (xs : List (Value N)) (i j : ℕ) (v : Value N)
      → i ≢ j
      → get_elem? (set xs i v) j ≡ get_elem? xs j
  unfolding get_elem? set
  get_elem?-set_other [] i j v n = refl
  get_elem?-set_other (x ∷ xs) zero zero v n = absurd (n refl)
  get_elem?-set_other (x ∷ xs) zero (suc j) v n = refl
  get_elem?-set_other (x ∷ xs) (suc i) zero v n = refl
  get_elem?-set_other (x ∷ xs) (suc i) (suc j) v n =
      get_elem?-set_other xs i j v (λ e. n (ap suc e))

  child-put_child :
      (p : String) (u v w : Value N) → child p v ≡ some w → child p (put_child p u v) ≡ some u
  unfolding child put_child
  child-put_child p u (object m) w h = ground (arith, get_field-insert_field p p u m, eq_iff p p)
  child-put_child p u (array xs) w h = elim (Option-cases (parse_usize p)) [
    | inl e ↦ absurd (ground (arith, e))
    | inr (i, e) ↦
        ground
          (arith, e, to_list-from_list (set (to_list xs) i u), get_elem?-set (to_list xs) i u w)
  ]
  child-put_child p u v w h = ground arith

  child-put_child_apart :
      (p q : String) (u v : Value N) → IsApart p q → child q (put_child p u v) ≡ child q v
  unfolding child put_child
  child-put_child_apart p q u (object m) (n, k) =
      ground (arith, get_field-insert_field p q u m, eq_iff p q)
  child-put_child_apart p q u (array xs) (n, k) = elim (Option-cases (parse_usize p)) [
    | inl e ↦ ground (arith, e)
    | inr (i, e) ↦ elim (Option-cases (parse_usize q)) [
      | inl e' ↦ ground (arith, e, e')
      | inr (j, e') ↦
          let other : i ≢ j = λ s. elim k [
            | inl z ↦ absurd (ground (arith, e, z))
            | inr z ↦ z (e ∙ ap some s ∙ sym e')
          ] in
          ground (
            arith,
            e,
            e',
            to_list-from_list (set (to_list xs) i u),
            get_elem?-set_other (to_list xs) i j u other,
          )
    ]
  ]
  child-put_child_apart p q u v h = ground arith

  module _ {A : Type 0} (f : Value N → Value N × A) where
    -- A write happens exactly where a read finds a value, and is read back there.
    pub update_lem :
        (ps : List String) (v w : Value N)
        → follow ps v ≡ some w
        → (v' : Value N) × (update f ps v ≡ some (v', (f w).1)) × (follow ps v' ≡ some (f w).0)
    unfolding follow update
    update_lem [] v w h = ((f v).0, ground arith, ground arith)
    update_lem (p ∷ ps) v w h = elim (Option-cases (child p v)) [
      | inl e ↦ absurd (ground (arith, e))
      | inr (u, e) ↦
          let (u', written, back) = update_lem ps u w (ground (arith, e)) in
          (
            put_child p u' v,
            ground (arith, e, written),
            ground (arith, child-put_child p u' v u e, back),
          )
    ]

    pub update_missing :
        (ps : List String) (v : Value N) → follow ps v ≡ none → update f ps v ≡ none
    unfolding follow update
    update_missing [] v h = cc
    update_missing (p ∷ ps) v h = elim (Option-cases (child p v)) [
      | inl e ↦ ground (arith, e)
      | inr (u, e) ↦ ground (arith, e, update_missing ps u)
    ]

    -- What a path that parts from the written one leads to is as before.
    pub update_apart :
        (ps qs : List String) (v v' : Value N) (a : A)
        → IsApartPath ps qs
        → update f ps v ≡ some (v', a)
        → follow qs v' ≡ follow qs v
    unfolding follow update
    update_apart [] qs v v' a d h = absurd d
    update_apart (p ∷ ps) [] v v' a d h = absurd d
    update_apart (p ∷ ps) (q ∷ qs) v v' a d h = elim (Option-cases (child p v)) [
      | inl e ↦ absurd (ground (arith, e))
      | inr (u, e) ↦ elim (Option-cases (update f ps u)) [
        | inl e' ↦ absurd (ground (arith, e, e'))
        | inr ((u', b), e') ↦
            let same : v' ≡ put_child p u' v = ground (arith, e, e') in
            elim d [
              | inl parts ↦ ground (arith, same, child-put_child_apart p q u' v parts)
              | inr (here, later) ↦ ground (
                arith,
                same,
                e,
                here,
                child-put_child p u' v u e,
                update_apart ps qs u u' b later e',
              )
            ]
      ]
    ]

    pub get_json_path_mut-found :
        (v w : Value N) (path : String)
        → get_json_path v path ≡ some w
        → (v' : Value N) × (get_json_path_mut f v path ≡ some (v', (f w).1))
          × (get_json_path v' path ≡ some (f w).0)
    unfolding get_json_path get_json_path_mut
    get_json_path_mut-found v w path h = elim (Bool-cases (path == "")) [
      | inl z ↦ ((f v).0, ground (arith, z), ground (arith, z))
      | inr n ↦
          let (v', written, back) = update_lem (split path) v w (ground (arith, n)) in
          (v', ground (arith, n, written), ground (arith, n, back))
    ]

    pub get_json_path_mut-missing :
        (v : Value N) (path : String)
        → get_json_path v path ≡ none
        → get_json_path_mut f v path ≡ none
    unfolding get_json_path get_json_path_mut
    get_json_path_mut-missing v path h = elim (Bool-cases (path == "")) [
      | inl z ↦ ground (arith, z)
      | inr n ↦ ground (arith, n, update_missing (split path) v)
    ]

    -- A place that a read finds is found for a write. The new value is read back there, and what a
    -- path leads to that parts from this one is as before; neither of the two paths is empty.
    pub get_json_path_mut_lem :
        (v w : Value N) (path other : String)
        → path ≢ ""
        → other ≢ ""
        → IsApartPath (split path) (split other)
        → get_json_path v path ≡ some w
        → (v' : Value N) × (get_json_path_mut f v path ≡ some (v', (f w).1))
          × (get_json_path v' path ≡ some (f w).0)
          × (get_json_path v' other ≡ get_json_path v other)
    unfolding get_json_path get_json_path_mut
    get_json_path_mut_lem v w path other n o d h =
        let plain : (path == "") ≡ false = beq_false path "" n in
        let plain_other : (other == "") ≡ false = beq_false other "" o in
        let (v', written, back) = update_lem (split path) v w (ground (arith, plain)) in
        (
          v',
          ground (arith, plain, written),
          ground (arith, plain, back),
          ground
              (arith, plain_other, update_apart (split path) (split other) v v' (f w).1 d written),
        )
