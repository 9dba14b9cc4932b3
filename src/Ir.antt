-- ===== src/Ir.antt =====
-- crates/clash-prism-core/src/ir.rs and source.rs: the intermediate representation of patches. The
-- JSON values that patches carry are those of a library, so their type is a parameter.
pub mod Composite
pub mod Fields
mod Examples
use clash_prism_engine.Base.{
  ℕ, String, Bool, true, false, not, ◌&&◌, Option, none, some, List, [], ◌∷◌, ◌++◌, ltb,
  if◌then◌else◌, length, Outcome, ok, err,
}
use clash_prism_engine.Base.Sorting.{sort_by_key}
use clash_prism_engine.Scope.{Scope}

-- `PatchId` wraps a `String`, and derives its equality and order.
abbrev pub PatchId : Type 0
PatchId = String

pub data SourceKind : Type 0 where
  yaml_file : SourceKind
  visual_editor script plugin : String → SourceKind
  builtin : SourceKind

pub record PatchSource : Type 0 where
  pub kind : SourceKind
  pub file : Option String
  pub line : Option ℕ
  pub plugin_id : Option String

pub data DependencyRef : Type 0 where
  file_name : String → DependencyRef
  patch_id : PatchId → DependencyRef

pub record CompiledPredicate : Type 0 where
  pub expr : String
  pub referenced_fields : List String

pub data PatchOp : Type 0 where
  deep_merge override prepend append set_default : PatchOp
  filter transform remove : CompiledPredicate → PatchOp

pub is_array_op : PatchOp → Bool
is_array_op prepend = true
is_array_op append = true
is_array_op (filter _) = true
is_array_op (transform _) = true
is_array_op (remove _) = true
is_array_op _ = false

pub is_map_op : PatchOp → Bool
is_map_op deep_merge = true
is_map_op override = true
is_map_op set_default = true
is_map_op _ = false

pub record SubOp {ℓ} (V : Type ℓ) : Type ℓ where
  pub op : PatchOp
  pub value : V

pub record Patch {ℓ} (V : Type ℓ) : Type ℓ where
  pub id : PatchId
  pub source : PatchSource
  pub scope : Scope
  pub path : String
  pub op : PatchOp
  pub value : V
  pub condition : Option CompiledPredicate
  pub after : List DependencyRef
  pub sub_ops : List (SubOp V)

pub display_name : PatchOp → String
display_name deep_merge = "DeepMerge"
display_name override = "Override"
display_name prepend = "Prepend"
display_name append = "Append"
display_name (filter _) = "Filter"
display_name (transform _) = "Transform"
display_name (remove _) = "Remove"
display_name set_default = "SetDefault"

pub execution_order : PatchOp → ℕ
execution_order (filter _) = 0
execution_order (remove _) = 1
execution_order (transform _) = 2
execution_order set_default = 3
execution_order prepend = 4
execution_order append = 5
execution_order deep_merge = 6
execution_order override = 7

-- The error of `with_sub_ops`.
pub data OverrideConflict : Type 0 where
  override_conflict : (field : String) → OverrideConflict

abbrev pub is_override : PatchOp → Bool
is_override override = true
is_override _ = false

module _ {ℓ} {V : Type ℓ} where
  -- The identifier is drawn at random.
  pub new : PatchId → PatchSource → Scope → String → PatchOp → V → Patch V
  new id source scope path op value = record {
    id = id;
    source = source;
    scope = scope;
    path = path;
    op = op;
    value = value;
    condition = none;
    after = [];
    sub_ops = [];
  }

  pub with_condition : Patch V → CompiledPredicate → Patch V
  with_condition p condition = record p { condition = some condition }

  pub with_after : Patch V → DependencyRef → Patch V
  with_after p dep = record p { after = p.after ++ dep ∷ [] }

  pub with_deps : Patch V → List DependencyRef → Patch V
  with_deps p deps = record p { after = deps }

  pub any_override : List (SubOp V) → Bool
  any_override [] = false
  any_override (s ∷ ss) = if is_override s.op then true else any_override ss

  pub with_sub_ops : Patch V → List (SubOp V) → Outcome (Patch V) OverrideConflict
  with_sub_ops p sub_ops =
      if any_override sub_ops && ltb 1 (length sub_ops)
      then err (override_conflict p.path)
      else ok (record p { sub_ops = sub_ops })

  unfoldable pub is_composite : Patch V → Bool
  is_composite p = elim p.sub_ops [ [] ↦ false | s ∷ ss ↦ true ]

  pub order_of : SubOp V → ℕ
  unfolding execution_order
  order_of s = execution_order s.op

  -- The two branches of `all_ops`: the primary operation alone, or the parts.
  pub ordered_parts : SubOp V → List (SubOp V) → List (SubOp V)
  ordered_parts primary [] = primary ∷ []
  ordered_parts primary (s ∷ ss) = sort_by_key order_of (s ∷ ss)

  pub all_ops : Patch V → List (SubOp V)
  unfolding ordered_parts
  all_ops p = ordered_parts (record { op = p.op; value = p.value }) p.sub_ops
