-- ===== src/Compiler/Files/Names.antt =====
-- The table of file names: what a full name and a short name stand for.
use clash_prism_engine.Base.{
  String, ◌≡◌, ◌≢◌, ◌⊎◌, inl, inr, false, none, some, List, [], ◌∷◌, arith, ◌==◌, string_eq, eq_iff,
  beq_refl, Bool-cases, ok, err,
}
use clash_prism_engine.Base.HashMap
use clash_prism_engine.Base.HashMap.{HashMap, IsUnique, get-insert, contains_key-get}
use clash_prism_engine.Ir.{PatchId}
use clash_prism_engine.Compiler.{ambiguous_short_name, NameTable, >>=-eq-ok}
use clash_prism_engine.Compiler.Files.{short_name, add_name, add_names}

-- The two ways in which a file can be added.
add_name_lem :
    (file : String) (listed : List PatchId) (names t : NameTable)
    → add_name file listed names ≡ ok t
    → (t ≡ HashMap.insert file (file, listed) names)
      ⊎ ((HashMap.get (short_name file) (HashMap.insert file (file, listed) names) ≡ none)
          × (t
              ≡ HashMap.insert
                  (short_name file)
                  (file, listed)
                  (HashMap.insert file (file, listed) names)))
unfolding add_name
add_name_lem file listed names t e = ground arith

add_name-keeps :
    (file f : String) (listed is : List PatchId) (names t : NameTable)
    → add_name file listed names ≡ ok t
    → file ≢ f
    → HashMap.get f names ≡ some (f, is)
    → HashMap.get f t ≡ some (f, is)
add_name-keeps file f listed is names t e n g =
    let names' = HashMap.insert file (file, listed) names in
    elim (add_name_lem file listed names t e) [
      | inl same ↦ rw same (ground (arith, get-insert file f (file, listed) names, eq_iff file f))
      | inr (free, same) ↦ rw same (
          ground (
            arith,
            get-insert file f (file, listed) names,
            eq_iff file f,
            get-insert (short_name file) f (file, listed) names',
            eq_iff (short_name file) f,
          ))
    ]

add_name_self :
    (file : String) (listed : List PatchId) (names t : NameTable)
    → add_name file listed names ≡ ok t
    → HashMap.get file t ≡ some (file, listed)
add_name_self file listed names t e =
    let names' = HashMap.insert file (file, listed) names in
    elim (add_name_lem file listed names t e) [
      | inl same ↦
          rw same (ground (arith, get-insert file file (file, listed) names, beq_refl file))
      | inr (free, same) ↦ rw same (
          ground (
            arith,
            get-insert file file (file, listed) names,
            beq_refl file,
            get-insert (short_name file) file (file, listed) names',
          ))
    ]

add_names-keeps :
    (files : HashMap String (List PatchId)) (f : String) (is : List PatchId) (names t : NameTable)
    → add_names files names ≡ ok t
    → HashMap.contains_key f files ≡ false
    → HashMap.get f names ≡ some (f, is)
    → HashMap.get f t ≡ some (f, is)
unfolding add_names HashMap.contains_key
add_names-keeps [] f is names t e c g = ground arith
add_names-keeps ((file, listed) ∷ files) f is names t e c g =
    let (mid, first, rest) = >>=-eq-ok (add_name file listed names) _ e in
    add_names-keeps files f is mid t rest (ground arith)
      (add_name-keeps file f listed is names mid first (ground (arith, eq_iff file f)) g)

-- In a table that was built without an ambiguity, the full name of a file stands for the patches of
-- this file, whatever the order in which the files were taken.
pub add_names-get :
    (files : HashMap String (List PatchId)) (f : String) (is : List PatchId) (names t : NameTable)
    → IsUnique files
    → add_names files names ≡ ok t
    → HashMap.get f files ≡ some is
    → HashMap.get f t ≡ some (f, is)
unfolding add_names HashMap.get
add_names-get [] f is names t u e g = cc
add_names-get ((file, listed) ∷ files) f is names t (u, us) e g =
    let (mid, first, rest) = >>=-eq-ok (add_name file listed names) _ e in
    elim (Bool-cases (file == f)) [
      | inl same ↦
          let at : file ≡ f = (eq_iff file f).0 same in
          let here : listed ≡ is = ground arith in
          rw (← at) (
            rw (← here) (
              add_names-keeps files file listed mid t rest u
                (add_name_self file listed names mid first)))
      | inr other ↦ add_names-get files f is mid t us rest (rw other at g)
    ]

-- Two files where the full name of the first is the short name of the second: whether this counts
-- as an ambiguity depends on the order in which the table takes them.
pub add_names_order :
    (f g : String) (is js : List PatchId)
    → f ≢ g
    → short_name f ≡ f
    → short_name g ≡ f
    → ((t : NameTable) × (add_names ((g, js) ∷ (f, is) ∷ []) [] ≡ ok t))
      × (add_names ((f, is) ∷ (g, js) ∷ []) [] ≡ err (ambiguous_short_name f g))
unfolding add_names add_name HashMap.get HashMap.insert
add_names_order f g is js n sf sg = (
  (
    HashMap.insert f (f, is) (HashMap.insert f (g, js) (HashMap.insert g (g, js) [])),
    ground (arith, eq_iff f g, eq_iff g f, beq_refl f, beq_refl g),
  ),
  ground (arith, eq_iff f g, eq_iff g f, beq_refl f, beq_refl g),
)
