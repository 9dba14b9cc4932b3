-- ===== src/Executor/Maps/Default.antt =====
-- When a default value is injected.
use clash_prism_engine.Base.{
  String, true, false, none, some, if◌then◌else◌, length, eqb, string_eq, ◌≡◌, ◌≢◌, arith,
  Option-cases, Bool-cases, inl, inr, eqb_iff,
}
use clash_prism_engine.Json.{Value, Fields, object}
use clash_prism_engine.Json.Entries.{contains_field-get_field}
use clash_prism_engine.Json.Path.{split, get_json_path, get_or_create_json_path_mut}
use clash_prism_engine.Json.Path.Update.{get_json_path_mut-found}
use clash_prism_engine.Json.Path.Arrays.{get_json_path_mut_same}
use clash_prism_engine.Json.Path.Create.{get_or_create-back, get_json_path-one_part}
use clash_prism_engine.Executor.Maps.{assign, is_null, field_exists, inject, default_value}

module _ {N : Type 0} where
  field_exists_lem :
      (m : Fields N) (path : String)
      → path ≢ ""
      → field_exists (object m) path
        ≡ elim (get_json_path (object m) path) [ none ↦ false | some _ ↦ true ]
  unfolding field_exists
  field_exists_lem m path n = elim (Bool-cases (eqb (length (split path)) 1)) [
    | inr e ↦ ground (arith, e)
    | inl e ↦
        let one : length (split path) ≡ 1 = (eqb_iff (length (split path)) 1).0 e in
        ground (arith, e, get_json_path-one_part m path n one, contains_field-get_field path m)
  ]

  -- A default is injected into an object at a path that is not empty only where nothing or a null
  -- stands; there it is read back, and otherwise the object stays as it was.
  pub default_value_lem :
      (m : Fields N) (path : String) (value : Value N)
      → path ≢ ""
      → let old = get_json_path (object m) path in
        let r = default_value (object m) path value in
        (get_json_path r.0 path ≡ (if r.1 then some value else old))
        × (r.0 ≡ (if r.1 then r.0 else object m))
        × (r.1 ≡ elim old [ none ↦ r.1 | some w ↦ is_null w ])
  unfolding default_value inject assign
  default_value_lem m path value n =
      let config = object m in
      let there = field_exists_lem m path n in
      elim (Option-cases (get_json_path config path)) [
        | inr (w, e) ↦
            let (c, wrote, back) = get_json_path_mut-found (inject value) config w path e in
            elim (Bool-cases (is_null w)) [
              | inl z ↦ (
                ground (arith, there, e, wrote, back, z),
                ground (arith, there, e, wrote, z),
                ground (arith, there, e, wrote, z),
              )
              | inr z ↦
                  let same =
                    get_json_path_mut_same (inject value) config w path e (ground (arith, z)) in
                  (
                    ground (arith, there, e, same, z),
                    ground (arith, there, e, same, z),
                    ground (arith, there, e, same, z),
                  )
            ]
        | inl e ↦ elim (Option-cases (get_or_create_json_path_mut (assign value) config path)) [
          | inl x ↦ (
            ground (arith, there, e, x),
            ground (arith, there, e, x),
            ground (arith, there, e, x),
          )
          | inr ((c, a), x) ↦
              let back = get_or_create-back (assign value) path config c a n x in
              (
                ground (arith, there, e, x, back),
                ground (arith, there, e, x),
                ground (arith, there, e, x),
              )
        ]
      ]
