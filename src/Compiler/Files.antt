-- ===== src/Compiler/Files.antt =====
-- crates/clash-prism-core/src/compiler.rs: the registered files, the table of their names, and
-- `resolve_dependencies`.
pub mod Names
pub mod Resolution
use Prim.Native.String
use Prim.Native.String.{[], ◌∷◌}
use mathlib.Core.Option
use clash_prism_engine.Base.{
  ℕ, suc, String, ◌≡◌, ◌≢◌, refl, ◌⊎◌, inl, inr, Bool, true, false, Option, none, some, List, [],
  ◌∷◌, ◌++◌, map, arith, if◌then◌else◌, ◌==◌, string_eq, eq_iff, contains, IsDistinct, beq_refl,
  Option-cases, Bool-cases, Outcome, ok, err,
}
use clash_prism_engine.Base.HashMap
use clash_prism_engine.Base.HashMap.{HashMap, get-insert}
use clash_prism_engine.Ir.{PatchId, Patch}
use clash_prism_engine.Compiler.{
  CompileError, ambiguous_short_name, NameTable, ids, topological_sort, ◌>>=◌, >>=-eq-ok,
}

pub record PatchCompiler {ℓ} (V : Type ℓ) : Type ℓ where
  pub patches : HashMap String (List (Patch V))
  pub file_to_ids : HashMap String (List PatchId)

-- `str::strip_suffix`.
unfoldable pub strip_suffix : String → String → Option String
strip_suffix suffix String.[] = if suffix == "" then some "" else none
strip_suffix suffix (String.◌∷◌ c s) =
    if suffix == String.◌∷◌ c s
    then some ""
    else Option.map (λ rest. String.◌∷◌ c rest) (strip_suffix suffix s)

unfoldable pub short_name : String → String
short_name file = elim (strip_suffix ".prism.yaml" file) [
  | some short ↦ short
  | none ↦ elim (strip_suffix ".prism.yml" file) [ some short ↦ short | none ↦ file ]
]

-- One round of the loop that fills `name_to_ids`.
unfoldable pub add_name : String → List PatchId → NameTable → Outcome NameTable CompileError
add_name file listed names =
    let names' = HashMap.insert file (file, listed) names in
    elim (HashMap.get (short_name file) names') [
      | some (owner, others) ↦
          if owner == file then ok names' else err (ambiguous_short_name (short_name file) file)
      | none ↦ ok (HashMap.insert (short_name file) (file, listed) names')
    ]

-- The loop, in the iteration order of `file_to_ids`.
unfoldable pub add_names :
    HashMap String (List PatchId) → NameTable → Outcome NameTable CompileError
add_names [] names = ok names
add_names ((file, listed) ∷ files) names = do
  names' ← add_name file listed names
  add_names files names'

module _ {ℓ} {V : Type ℓ} where
  unfoldable pub new : PatchCompiler V
  new = record { patches = []; file_to_ids = [] }

  unfoldable pub register_patches : PatchCompiler V → String → List (Patch V) → PatchCompiler V
  register_patches c file_name patches = record {
    patches = HashMap.insert file_name patches c.patches;
    file_to_ids = HashMap.insert file_name (ids patches) c.file_to_ids;
  }

  pub get_patch_ids_for_file : PatchCompiler V → String → Option (List PatchId)
  get_patch_ids_for_file c file_name = elim (HashMap.get file_name c.file_to_ids) [
    | some listed ↦ some listed
    | none ↦
        if short_name file_name == file_name
        then none
        else HashMap.get (short_name file_name) c.file_to_ids
  ]

  unfoldable pub flatten_values : HashMap String (List (Patch V)) → List (Patch V)
  flatten_values [] = []
  flatten_values ((file, patches) ∷ m) = patches ++ flatten_values m

  unfoldable pub get_all_patches : PatchCompiler V → List (Patch V)
  get_all_patches c = flatten_values c.patches

  pub get_file_patches : PatchCompiler V → String → Option (List (Patch V))
  get_file_patches c file_name = HashMap.get file_name c.patches

  unfoldable pub resolve_dependencies : PatchCompiler V → Outcome (List PatchId) CompileError
  resolve_dependencies c = do
    names ← add_names c.file_to_ids []
    sorted ← topological_sort (get_all_patches c) names
    ok (ids sorted)
