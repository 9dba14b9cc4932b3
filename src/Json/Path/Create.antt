-- ===== src/Json/Path/Create.antt =====
-- Writes that create the objects on their way, and top-level keys that a write leaves alone.
use Prim.Native.Char.{code}
use clash_prism_engine.Base.{
  length, List-cases, String, false, none, some, List, [], ◌∷◌, ◌==◌, string_eq, nat_eq, eq_iff,
  ◌≡◌, ◌≢◌, refl, arith, ap, Option-cases, Bool-cases, inl, inr, beq_false,
}
use clash_prism_engine.Json.{
  Value, Fields, end, array, object, get_field, insert_field, get, get_field_or,
}
use clash_prism_engine.Json.Entries.{get_field-insert_field, insert_field-get_field}
use clash_prism_engine.Json.Path.{
  split_dots, get_json_path_mut, split, parse_usize, child, put_child, follow, update, create,
  get_json_path, get_or_create_json_path_mut, set_parts,
}

-- A path with one part is that part.
one_part : (path : String) → (split_dots path).1 ≡ [] → (split_dots path).0 ≡ path
unfolding split_dots
one_part String.[] h = refl
one_part (String.◌∷◌ c s) h = elim (Bool-cases (code c == b'.')) [
  | inl e ↦ absurd (ground (arith, e))
  | inr e ↦
      let rest : (split_dots s).1 ≡ [] = ground (arith, e) in
      rw e (ap (String.◌∷◌ c) (one_part s rest))
]

module _ {N : Type 0} where
  -- The value that a path leads to, an empty object where there is none.
  abbrev pub found : List String → Value N → Value N
  found ps v = elim (follow ps v) [ none ↦ object end | some w ↦ w ]

  found-end : (ps : List String) → found ps (object end) ≡ object end
  unfolding follow child get_field
  found-end [] = refl
  found-end (p ∷ ps) = refl

  found-field :
      (p : String) (ps : List String) (m : Fields N)
      → found (p ∷ ps) (object m) ≡ found ps (get_field_or (object end) p m)
  unfolding follow child
  found-field p ps m = elim (Option-cases (get_field p m)) [
    | inl e ↦ ground (arith, e, found-end ps)
    | inr (u, e) ↦ ground (arith, e)
  ]

  module _ {A : Type 0} (f : Value N → Value N × A) where
    -- In an empty object every path can be created.
    pub create-end :
        (ps : List String) → (v : Value N) × (a : A) × (create f ps (object end) ≡ some (v, a))
    unfolding create get_field
    create-end [] = ((f (object end)).0, (f (object end)).1, refl)
    create-end (p ∷ ps) =
        let (v, a, e) = create-end ps in (object (insert_field p v end), a, rw (e, create) refl)

    pub create_lem :
        (ps : List String) (v v' : Value N) (a : A)
        → create f ps v ≡ some (v', a)
        → (follow ps v' ≡ some (f (found ps v)).0) × (a ≡ (f (found ps v)).1)
    unfolding create follow child
    create_lem [] v v' a h = ground arith
    create_lem (p ∷ ps) (object m) v' a h =
        elim (Option-cases (create f ps (get_field_or (object end) p m))) [
          | inl e ↦ absurd (ground (arith, e))
          | inr ((w, b), e) ↦
              let target : found (p ∷ ps) (object m) ≡ found ps (get_field_or (object end) p m) =
                found-field p ps m in
              let (back, learned) = create_lem ps (get_field_or (object end) p m) w b e in
              let written : v' ≡ object (insert_field p w m) = ground (arith, e) in
              rw target (
                ground (arith, written, e, back, get_field-insert_field p p w m, eq_iff p p),
                ground (arith, e, learned),
              )
        ]
    create_lem (p ∷ ps) v v' a h = absurd (cc)

    pub create-get :
        (p g : String) (ps : List String) (v v' : Value N) (a : A)
        → p ≢ g
        → create f (p ∷ ps) v ≡ some (v', a)
        → get g v' ≡ get g v
    unfolding create get
    create-get p g ps (object m) v' a n h =
        elim (Option-cases (create f ps (get_field_or (object end) p m))) [
          | inl e ↦ absurd (ground (arith, e))
          | inr ((w, b), e) ↦ ground (arith, e, get_field-insert_field p g w m, eq_iff p g)
        ]
    create-get p g ps v v' a n h = absurd (ground arith)

    pub update-get :
        (p g : String) (ps : List String) (v v' : Value N) (a : A)
        → p ≢ g
        → update f (p ∷ ps) v ≡ some (v', a)
        → get g v' ≡ get g v
    unfolding update get child put_child
    update-get p g ps (object m) v' a n h = elim (Option-cases (get_field p m)) [
      | inl e ↦ absurd (ground (arith, e))
      | inr (u, e) ↦ elim (Option-cases (update f ps u)) [
        | inl e' ↦ absurd (ground (arith, e, e'))
        | inr ((w, b), e') ↦ ground (arith, e, e', get_field-insert_field p g w m, eq_iff p g)
      ]
    ]
    update-get p g ps (array xs) v' a n h = elim (Option-cases (parse_usize p)) [
      | inl e ↦ absurd (ground (arith, e))
      | inr (i, e) ↦ ground (arith, e)
    ]
    update-get p g ps v v' a n h = absurd (ground arith)

    pub get_json_path_mut-get :
        (g path : String) (v v' : Value N) (a : A)
        → path ≢ ""
        → (split_dots path).0 ≢ g
        → get_json_path_mut f v path ≡ some (v', a)
        → get g v' ≡ get g v
    unfolding get_json_path_mut split
    get_json_path_mut-get g path v v' a n other h =
        let plain : (path == "") ≡ false = beq_false path "" n in
        update-get (split_dots path).0 g (split_dots path).1 v v' a other (ground (arith, plain))

    pub get_or_create-get :
        (g path : String) (v v' : Value N) (a : A)
        → path ≢ ""
        → (split_dots path).0 ≢ g
        → get_or_create_json_path_mut f v path ≡ some (v', a)
        → get g v' ≡ get g v
    unfolding get_or_create_json_path_mut split
    get_or_create-get g path v v' a n other h =
        let plain : (path == "") ≡ false = beq_false path "" n in
        create-get (split_dots path).0 g (split_dots path).1 v v' a other (ground (arith, plain))

    -- What a write that creates its path puts there is read back.
    pub get_or_create-back :
        (path : String) (v v' : Value N) (a : A)
        → path ≢ ""
        → get_or_create_json_path_mut f v path ≡ some (v', a)
        → get_json_path v' path ≡ some (f (found (split path) v)).0
    unfolding get_or_create_json_path_mut get_json_path
    get_or_create-back path v v' a n h =
        let plain : (path == "") ≡ false = beq_false path "" n in
        let (back, _) = create_lem (split path) v v' a (ground (arith, plain)) in
        ground (arith, plain, back)

  pub get_json_path-one_part :
      (m : Fields N) (path : String)
      → path ≢ ""
      → length (split path) ≡ 1
      → get_json_path (object m) path ≡ get_field path m
  unfolding get_json_path split follow child
  get_json_path-one_part m path n h =
      let plain : (path == "") ≡ false = beq_false path "" n in
      elim (List-cases (split_dots path).1) [
        | inr (p, ps, e) ↦ absurd (ground (arith, e))
        | inl e ↦
            let same = one_part path e in
            elim (Option-cases (get_field path m)) [
              | inl x ↦ ground (arith, plain, e, same, x)
              | inr (v, x) ↦ ground (arith, plain, e, same, x)
            ]
      ]

  -- `set_json_path` is the write that creates its path, and does nothing where that fails.
  pub set_parts_lem :
      (p : String) (ps : List String) (value v : Value N)
      → set_parts (p ∷ ps) value v
        ≡ elim (create {A = Unit {0}} (λ _. (value, tt)) (p ∷ ps) v) [ none ↦ v | some (w, _) ↦ w ]
  unfolding set_parts create
  set_parts_lem p [] value (object m) = refl
  set_parts_lem p (q ∷ ps) value (object m) =
      let d = get_field_or (object end) p m in
      let put : Value N → Value N × Unit {0} = λ _. (value, tt) in
      let inner = set_parts_lem q ps value d in
      elim (Option-cases (create put (q ∷ ps) d)) [
        | inr ((w, u), e) ↦ ground (arith, inner, e)
        | inl e ↦
            let kept : insert_field p d m ≡ m = elim (Option-cases (get_field p m)) [
              | inl absent ↦
                  let (w, u, made) = create-end put (q ∷ ps) in
                  absurd (ground (arith, e, absent, made))
              | inr (x, there) ↦ insert_field-get_field p d m (ground (arith, there))
            ] in
            ground (arith, inner, e, kept)
      ]
  set_parts_lem p [] value v = ground arith
  set_parts_lem p (q ∷ ps) value v = ground arith
