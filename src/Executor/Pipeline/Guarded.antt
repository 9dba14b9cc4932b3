-- ===== src/Executor/Pipeline/Guarded.antt =====
-- Writes at paths that are not guarded leave the guarded fields of a configuration alone, and the
-- keys of its maps outside of arrays distinct.
use clash_prism_engine.Base.{
  String, Bool, true, false, none, some, List, Eq, string_eq, contains, ◌≡◌, ◌≢◌, refl, arith, sym,
  subst, Option-cases, Bool-cases, inl, inr, eq_iff,
}
use clash_prism_engine.Json.{Value, Fields, object, as_object, get, insert_field}
use clash_prism_engine.Json.Entries.{get_field-insert_field}
use clash_prism_engine.Json.Path.{
  split_dots, get_json_path_mut, get_or_create_json_path_mut, at_array, get_array_at_path_mut,
}
use clash_prism_engine.Json.Path.Create.{get_json_path_mut-get, get_or_create-get}
use clash_prism_engine.Json.Path.Arrays.{first_of}
use clash_prism_engine.Json.Path.Keys.{
  KeepsKeys, get_json_path_mut-HasUniqueKeys, get_or_create-HasUniqueKeys,
  deep_merge_json-HasUniqueKeys, object-HasUniqueKeys, at_array-KeepsKeys,
}
use clash_prism_engine.Json.Merge.Laws.{HasUniqueKeys}
use clash_prism_engine.Executor.Maps.{
  merge_target, assign, override_value, inject, is_null, field_exists, default_value,
}
use clash_prism_engine.Executor.Guard.{
  guarded_fields, is_guarded_path, is_guarded_path-split, is_guarded_path-field,
}

as_object-some : {N : Type 0} (v : Value N) (m : Fields N) → as_object v ≡ some m → v ≡ object m
as_object-some (object k) m h = ground arith
as_object-some v m h = absurd (ground arith)

not_first :
    (g path : String)
    → contains g guarded_fields ≡ true
    → is_guarded_path path ≡ false
    → (split_dots path).0 ≢ g
not_first g path is_field free e =
    let h : contains (split_dots path).0 guarded_fields ≡ true = rw e is_field in
    absurd (ground (arith, is_guarded_path-split path h))

module _ {N : Type 0} (g : String) (is_field : contains g guarded_fields ≡ true) where
  -- A configuration that keeps the field of another one, with distinct keys.
  abbrev pub IsSafe : Value N → Value N → Type 0
  IsSafe config config' = HasUniqueKeys config' × (get g config' ≡ get g config)

  module _ (config : Value N) (path : String) (u : HasUniqueKeys config) (n : path ≢ "")
      (free : is_guarded_path path ≡ false) where
    mut-IsSafe :
        {A : Type 0}
        → (f : Value N → Value N × A) (c : Value N) (a : A) → KeepsKeys f
        → get_json_path_mut f config path ≡ some (c, a)
        → IsSafe config c
    mut-IsSafe f c a k h = (
      get_json_path_mut-HasUniqueKeys f config c path a k u h,
      get_json_path_mut-get f g path config c a n (not_first g path is_field free) h,
    )

    pub create-IsSafe :
        {A : Type 0}
        → (f : Value N → Value N × A) (c : Value N) (a : A) → KeepsKeys f
        → get_or_create_json_path_mut f config path ≡ some (c, a)
        → IsSafe config c
    create-IsSafe f c a k h = (
      get_or_create-HasUniqueKeys f config c path a k u h,
      get_or_create-get f g path config c a n (not_first g path is_field free) h,
    )

    array-IsSafe :
        {A : Type 0}
        → (f : List (Value N) → List (Value N) × A)
        → IsSafe config
            (elim (get_array_at_path_mut f config path) [ none ↦ config | some (c, _) ↦ c ])
    unfolding get_array_at_path_mut
    array-IsSafe f = elim (Option-cases (get_json_path_mut (at_array f) config path)) [
      | inl e ↦ rw e (u, refl)
      | inr ((c, none), e) ↦ rw e (u, refl)
      | inr ((c, some b), e) ↦ rw e (mut-IsSafe (at_array f) c (some b) (at_array-KeepsKeys f) e)
    ]

    -- An outcome of a write to an array, whatever comes with it.
    pub outcome-IsSafe :
        {A : Type 0} {B : Type 0}
        → (f : List (Value N) → List (Value N) × A) (d : B) (h : A → B)
        → IsSafe config
            (elim (get_array_at_path_mut f config path) as (λ _. Value N × B) [
              | none ↦ (config, d)
              | some (c, a) ↦ (c, h a)
            ]).0
    outcome-IsSafe f d h =
        subst (IsSafe config) (sym (first_of config d h (get_array_at_path_mut f config path)))
          (array-IsSafe f)

    insert-IsSafe :
        (v : Value N) (m : Fields N)
        → HasUniqueKeys v
        → as_object config ≡ some m
        → IsSafe config (object (insert_field path v m))
    unfolding get
    insert-IsSafe v m uv h =
        let same : config ≡ object m = as_object-some config m h in
        let um : HasUniqueKeys (object m) = subst HasUniqueKeys same u in
        let other : path ≢ g = λ e.
          let guarded : contains path guarded_fields ≡ true = rw e is_field in
          absurd (ground (arith, is_guarded_path-field path guarded)) in
        (
          object-HasUniqueKeys path m v um uv,
          ground (arith, same, get_field-insert_field path g v m, eq_iff path g, other),
        )

    module _ (value : Value N) (uv : HasUniqueKeys value) where
      pub override-IsSafe : IsSafe config (override_value config path value).0
      unfolding override_value assign
      override-IsSafe =
          elim (Option-cases
            (get_or_create_json_path_mut {A = Unit {0}} (assign value) config path)) [
              | inr ((c, a), e) ↦
                  rw (e, override_value) (create-IsSafe (assign value) c a (λ _ _. uv) e)
              | inl e ↦ elim (Option-cases (as_object config)) [
                | inl o ↦ rw (e, o, override_value) (u, refl)
                | inr (m, o) ↦ rw (e, o, override_value) (insert-IsSafe value m uv o)
              ]
            ]

      inject-KeepsKeys : KeepsKeys (inject value)
      unfolding inject
      inject-KeepsKeys v u' = elim (Bool-cases (is_null v)) [ inl h ↦ rw h uv | inr h ↦ rw h u' ]

      pub default-IsSafe : IsSafe config (default_value config path value).0
      unfolding default_value assign
      default-IsSafe = elim (Bool-cases (field_exists config path)) [
        | inl x ↦ elim (Option-cases (get_json_path_mut (inject value) config path)) [
          | inl e ↦ rw (x, e) (u, refl)
          | inr ((c, a), e) ↦ rw (x, e) (mut-IsSafe (inject value) c a inject-KeepsKeys e)
        ]
        | inr x ↦
            elim (Option-cases
              (get_or_create_json_path_mut {A = Unit {0}} (assign value) config path)) [
                | inl e ↦ rw (x, e) (u, refl)
                | inr ((c, a), e) ↦ rw (x, e) (create-IsSafe (assign value) c a (λ _ _. uv) e)
              ]
      ]

      pub merge_target-KeepsKeys : ⦃eq : Eq N⦄ → (b : Bool) → KeepsKeys (merge_target b value)
      unfolding merge_target
      merge_target-KeepsKeys b v u' = deep_merge_json-HasUniqueKeys v value u' uv
