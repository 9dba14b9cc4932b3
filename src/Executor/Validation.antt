-- ===== src/Executor/Validation.antt =====
-- crates/clash-prism-core/src/executor.rs: the check of the results of a transformation.
use clash_prism_engine.Base.{
  ℕ, zero, suc, String, Option, none, some, List, [], ◌∷◌, ◌++◌, ◌≡◌, All,
}
use clash_prism_engine.Json.{Value, get}
use clash_prism_engine.Executor.{name_of, name_or}

pub record TransformWarning : Type 0 where
  pub node_index : ℕ
  pub node_name : String
  pub field : String
  pub hint : String

abbrev pub spread_hint : String
spread_hint =
    "Did you forget to spread the original proxy? Use ({...p, name: ...}) instead of ({name: ...})."

abbrev pub transform_validate_sample_size : ℕ
transform_validate_sample_size = 5

abbrev pub required_fields : List String
required_fields = "name" ∷ "type" ∷ "server" ∷ "port" ∷ []

module _ {N : Type 0} where
  -- The name for a warning: that of the original item, else of the result.
  pub node_name : Option (Value N) → Value N → String
  node_name none result = name_or "unknown" result
  node_name (some original) result = elim (name_of original) [
    | some s ↦ s
    | none ↦ name_or "unknown" result
  ]

  pub missing_fields : ℕ → Option (Value N) → Value N → List String → List TransformWarning
  missing_fields i original result [] = []
  missing_fields i original result (required ∷ rest) =
      let others = missing_fields i original result rest in
      elim (get required result) [
        | some _ ↦ others
        | none ↦
            record {
              node_index = i;
              node_name = node_name original result;
              field = required;
              hint = spread_hint;
            }
            ∷ others
      ]

  -- The loop over the first results, from an index on, with the original items from there.
  pub validate_from : ℕ → ℕ → List (Value N) → List (Value N) → List TransformWarning
  validate_from zero i original results = []
  validate_from (suc n) i original [] = []
  validate_from (suc n) i [] (r ∷ rs) =
      missing_fields i none r required_fields ++ validate_from n (suc i) [] rs
  validate_from (suc n) i (o ∷ os) (r ∷ rs) =
      missing_fields i (some o) r required_fields ++ validate_from n (suc i) os rs

  pub validate_transform_results : (original results : List (Value N)) → List TransformWarning
  validate_transform_results original results =
      validate_from transform_validate_sample_size 0 original results

  -- A value has all of some fields.
  abbrev pub HasFields : List String → Value N → Type 0
  HasFields fields v = All (λ f. (w : Value N) × (get f v ≡ some w)) fields
