-- ===== src/Ir/Examples.antt =====
-- The theorems about patches and fields at concrete values.
use clash_prism_engine.Base.{ℕ, ◌≡◌, ◌≤◌, ◌↔◌, true, none, List, [], ◌∷◌, length, ok, err}
use clash_prism_engine.Scope.{global}
use clash_prism_engine.Ir.{
  PatchOp, SubOp, Patch, all_ops, with_sub_ops, any_override, override_conflict, builtin,
}
use clash_prism_engine.Ir.Composite.{with_sub_ops_lem}

abbrev plain : Patch ℕ
plain = record {
  id = "1";
  source = record { kind = builtin; file = none; line = none; plugin_id = none };
  scope = global;
  path = "rules";
  op = PatchOp.append;
  value = 0;
  condition = none;
  after = [];
  sub_ops = [];
}

abbrev parts : List (SubOp ℕ)
parts =
    record { op = PatchOp.append; value = 1 }
    ∷ record { op = PatchOp.filter (record { expr = "true"; referenced_fields = [] }); value = 2 }
    ∷ record { op = PatchOp.append; value = 3 }
    ∷ []

with_sub_ops_lem_example :
    ((q : Patch ℕ)
      → with_sub_ops plain parts ≡ ok q
      → (q.sub_ops ≡ parts) × (any_override (all_ops q) ≡ true → length (all_ops q) ≡ 1))
    × ((with_sub_ops plain parts ≡ err (override_conflict "rules"))
        ↔ ((any_override parts ≡ true) × (2 ≤ length parts)))
with_sub_ops_lem_example = with_sub_ops_lem plain parts
