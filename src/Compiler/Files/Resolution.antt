-- ===== src/Compiler/Files/Resolution.antt =====
-- `resolve_dependencies`: the order of the patch ids that it returns.
use mathlib.Core.List.{Memᴰ}
use clash_prism_engine.Base.{
  String, ◌≡◌, refl, true, some, List, [], ◌∷◌, string_eq, contains, IsDistinct, ok,
}
use clash_prism_engine.Base.HashMap
use clash_prism_engine.Base.HashMap.{HashMap, IsUnique, IsUnique-insert}
use clash_prism_engine.Ir.{PatchId, Patch, file_name, patch_id}
use clash_prism_engine.Compiler.{ids, topological_sort, >>=-eq-ok}
use clash_prism_engine.Compiler.Sorted.{before, topological_sort-IsSorted}
use clash_prism_engine.Compiler.Files.{
  PatchCompiler, new, register_patches, get_all_patches, add_names, resolve_dependencies,
}
use clash_prism_engine.Compiler.Files.Names.{add_names-get}

module _ {ℓ} {V : Type ℓ} where
  -- The compiler after the registrations of a list of files.
  abbrev pub register_all : PatchCompiler V → List (String × List (Patch V)) → PatchCompiler V
  register_all c [] = c
  register_all c ((file, ps) ∷ files) = register_all (register_patches c file ps) files

  register_all-IsUnique :
      (c : PatchCompiler V) (files : List (String × List (Patch V)))
      → IsUnique c.file_to_ids
      → IsUnique (register_all c files).file_to_ids
  register_all-IsUnique c [] u = u
  register_all-IsUnique c ((file, ps) ∷ files) u =
      register_all-IsUnique (register_patches c file ps) files
        (unfold register_patches in IsUnique-insert file (ids ps) c.file_to_ids u)

  -- After any registrations, an order that `resolve_dependencies` returns holds every registered
  -- patch, none twice, and each behind the patches that it refers to, be it by their ids or by the
  -- full name of a registered file.
  pub resolve_dependencies-before :
      (files : List (String × List (Patch V))) (order : List PatchId)
      → resolve_dependencies (register_all new files) ≡ ok order
      → IsDistinct order
        × ((p : Patch V)
            → Memᴰ p (get_all_patches (register_all new files))
            → (contains p.id order ≡ true)
              × ((d : PatchId) → Memᴰ (patch_id d) p.after → before d p.id order ≡ true)
              × ((f : String) (is : List PatchId) (d : PatchId)
                  → Memᴰ (file_name f) p.after
                  → HashMap.get f (register_all (new {V = V}) files).file_to_ids ≡ some is
                  → contains d is ≡ true
                  → before d p.id order ≡ true))
  unfolding resolve_dependencies
  resolve_dependencies-before files order e =
      let c = register_all new files in
      let unique = register_all-IsUnique new files (unfold new in tt) in
      let (names, named, rest) = >>=-eq-ok (add_names c.file_to_ids []) _ e in
      let (sorted, done, out) = >>=-eq-ok (topological_sort (get_all_patches c) names) _ rest in
      let same : ids sorted ≡ order = cc in
      let s = topological_sort-IsSorted (get_all_patches c) names sorted done in
      rw (← same) (
        s.distinct,
        λ p m. (
          s.complete p m,
          λ d r. s.ordered p (patch_id d) d m r refl,
          λ f is d r g h.
              s.ordered p (file_name f) d m r
                ((f, is), add_names-get c.file_to_ids f is [] names unique named g, h),
        ),
      )
