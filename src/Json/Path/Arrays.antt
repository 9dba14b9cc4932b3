-- ===== src/Json/Path/Arrays.antt =====
-- Writes at a path that have one result, that change nothing, and that go to an array.
use clash_prism_engine.Base.{
  ℕ, zero, suc, String, Option, none, some, List, [], ◌∷◌, ◌==◌, string_eq, ◌≡◌, refl, arith, ap,
  Option-cases, Bool-cases, inl, inr, length, ◌⊎◌,
}
use clash_prism_engine.Json.{Value, Items, nil, cons, array, object, to_list, from_list, as_array}
use clash_prism_engine.Json.Entries.{to_list-from_list, insert_field-get_field}
use clash_prism_engine.Json.Path.{
  split, parse_usize, get_elem?, set, child, put_child, follow, update, get_json_path,
  get_json_path_mut, at_array, get_array_at_path_mut, get_array_len,
}
use clash_prism_engine.Json.Path.Update.{get_json_path_mut-found, get_json_path_mut-missing}

-- The configuration of an outcome that comes with something else.
pub first_of :
    {V : Type 0} {A : Type 0} {B : Type 0} (config : V) (d : B) (h : A → B) (o : Option (V × A))
    → (elim o as (λ _. V × B) [ none ↦ (config, d) | some (c, a) ↦ (c, h a) ]).0
      ≡ elim o [ none ↦ config | some (c, _) ↦ c ]
first_of config d h none = refl
first_of config d h (some (c, a)) = refl

module _ {N : Type 0} where
  pub from_list-to_list : (xs : Items N) → from_list (to_list xs) ≡ xs
  from_list-to_list nil = refl
  from_list-to_list (cons x xs) = ap (cons x) (from_list-to_list xs)

  set-get_elem? :
      (xs : List (Value N)) (i : ℕ) (v : Value N) → get_elem? xs i ≡ some v → set xs i v ≡ xs
  unfolding get_elem? set
  set-get_elem? [] i v h = refl
  set-get_elem? (x ∷ xs) zero v h = ground arith
  set-get_elem? (x ∷ xs) (suc i) v h = ap (λ l. x ∷ l) (set-get_elem? xs i v h)

  put_child-child : (p : String) (v w : Value N) → child p v ≡ some w → put_child p w v ≡ v
  unfolding child put_child
  put_child-child p (object m) w h = ap object (insert_field-get_field p w m h)
  put_child-child p (array xs) w h = elim (Option-cases (parse_usize p)) [
    | inl e ↦ ground (arith, e)
    | inr (i, e) ↦
        let there : get_elem? (to_list xs) i ≡ some w = ground (arith, e) in
        ground (arith, e, set-get_elem? (to_list xs) i w there, from_list-to_list xs)
  ]
  put_child-child p v w h = refl

  module _ {A : Type 0} where
    -- A write of what is there changes nothing.
    update_same :
        (f : Value N → Value N × A) (ps : List String) (v w : Value N)
        → follow ps v ≡ some w
        → (f w).0 ≡ w
        → update f ps v ≡ some (v, (f w).1)
    unfolding follow update
    update_same f [] v w h s = ground (arith, s)
    update_same f (p ∷ ps) v w h s = elim (Option-cases (child p v)) [
      | inl e ↦ absurd (ground (arith, e))
      | inr (u, e) ↦
          let inner = update_same f ps u w (ground (arith, e)) s in
          ground (arith, e, inner, put_child-child p v u e)
    ]

    pub get_json_path_mut_same :
        (f : Value N → Value N × A) (config w : Value N) (path : String)
        → get_json_path config path ≡ some w
        → (f w).0 ≡ w
        → get_json_path_mut f config path ≡ some (config, (f w).1)
    unfolding get_json_path get_json_path_mut
    get_json_path_mut_same f config w path h s = elim (Bool-cases (path == "")) [
      | inl z ↦ ground (arith, z, s)
      | inr n ↦ ground (arith, n, update_same f (split path) config w (ground (arith, n)) s)
    ]

    -- The value of an outcome.
    abbrev pub written : Option (Value N × A) → Option (Value N)
    written none = none
    written (some (v, a)) = some v

  module _ {A : Type 0} {B : Type 0} where
    update_agree :
        (f : Value N → Value N × A) (g : Value N → Value N × B) (ps : List String) (v : Value N)
        → ((w : Value N) → (f w).0 ≡ (g w).0)
        → written (update f ps v) ≡ written (update g ps v)
    unfolding update
    update_agree f g [] v s = ap some (s v)
    update_agree f g (p ∷ ps) v s = elim (Option-cases (child p v)) [
      | inl e ↦ ground (arith, e)
      | inr (u, e) ↦
          let inner = update_agree f g ps u s in
          elim (Option-cases (update f ps u)) [
            | inl x ↦ elim (Option-cases (update g ps u)) [
              | inl y ↦ ground (arith, e, x, y)
              | inr (r, y) ↦ absurd (ground (arith, inner, x, y))
            ]
            | inr (q, x) ↦ elim (Option-cases (update g ps u)) [
              | inl y ↦ absurd (ground (arith, inner, x, y))
              | inr (r, y) ↦
                  let same : q.0 ≡ r.0 = ground (arith, inner, x, y) in
                  ground (arith, e, x, y, same)
            ]
          ]
    ]

    -- Two writes that give one value at the place give one value of the whole.
    pub get_json_path_mut_agree :
        (f : Value N → Value N × A) (g : Value N → Value N × B) (config : Value N) (path : String)
        → ((w : Value N) → (f w).0 ≡ (g w).0)
        → written (get_json_path_mut f config path) ≡ written (get_json_path_mut g config path)
    unfolding get_json_path_mut
    get_json_path_mut_agree f g config path s = elim (Bool-cases (path == "")) [
      | inl z ↦ ground (arith, z, s config)
      | inr n ↦ ground (arith, n, update_agree f g (split path) config s)
    ]

  -- The items of the array at a path.
  pub array_at : Value N → String → Option (List (Value N))
  array_at config path = elim (get_json_path config path) [ none ↦ none | some v ↦ as_array v ]

  as_array-cases : (v : Value N) → (as_array v ≡ none) ⊎ ((xs : Items N) × (v ≡ array xs))
  as_array-cases (array xs) = inr (xs, refl)
  as_array-cases v = inl refl

  array_at-found :
      (config : Value N) (path : String) (xs : List (Value N))
      → array_at config path ≡ some xs
      → (ys : Items N) × (get_json_path config path ≡ some (array ys)) × (to_list ys ≡ xs)
  unfolding array_at
  array_at-found config path xs h = elim (Option-cases (get_json_path config path)) [
    | inl e ↦ absurd (ground (arith, e))
    | inr (v, e) ↦ elim (as_array-cases v) [
      | inl n ↦ absurd (ground (arith, e, n))
      | inr (ys, a) ↦ (ys, ground (arith, e, a), ground (arith, e, a))
    ]
  ]

  pub get_array_len_lem :
      (config : Value N) (path : String)
      → get_array_len config path ≡ elim (array_at config path) [ none ↦ 0 | some xs ↦ length xs ]
  unfolding get_array_len array_at
  get_array_len_lem config path = elim (Option-cases (get_json_path config path)) [
    | inl e ↦ ground (arith, e)
    | inr (v, e) ↦ ground (arith, e)
  ]

  module _ {A : Type 0} (f : List (Value N) → List (Value N) × A) where
    pub array_write :
        (config : Value N) (path : String) (xs : List (Value N))
        → array_at config path ≡ some xs
        → (config' : Value N) × (get_array_at_path_mut f config path ≡ some (config', (f xs).1))
          × (array_at config' path ≡ some (f xs).0)
    unfolding get_array_at_path_mut at_array array_at
    array_write config path xs h =
        let (ys, there, same) = array_at-found config path xs h in
        let (config', wrote, back) =
          get_json_path_mut-found (at_array f) config (array ys) path there in
        (
          config',
          ground (arith, wrote, same),
          ground (arith, back, same, to_list-from_list (f xs).0),
        )

    pub array_missing :
        (config : Value N) (path : String)
        → array_at config path ≡ none
        → get_array_at_path_mut f config path ≡ none
    unfolding get_array_at_path_mut at_array array_at
    array_missing config path h = elim (Option-cases (get_json_path config path)) [
      | inl e ↦ ground (arith, get_json_path_mut-missing (at_array f) config path e)
      | inr (v, e) ↦
          let plain : as_array v ≡ none = ground (arith, e) in
          ground (
            arith,
            plain,
            get_json_path_mut_same (at_array f) config v path e (ground (arith, plain)),
          )
    ]
