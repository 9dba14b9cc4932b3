-- ===== src/Executor/Guard.antt =====
-- crates/clash-prism-core/src/executor.rs: the fields that no patch may touch.
use Prim.Native.Char.{code, Char}
use Prim.Native.String
use text.Mathlib.Text.{starts_with}
use text.Mathlib.TextEquality.{Char-path}
use text.Mathlib.TextLemmas.{nil-append, cons-append}
use text.Mathlib.TextPositions.{starts_with-append}
use clash_prism_engine.Base.{
  String, Bool, true, false, ◌||◌, List, [], ◌∷◌, ◌==◌, string_eq, nat_eq, contains, ◌≡◌, refl,
  arith, eq_iff, ap, Bool-cases, inl, inr, ◌⊎◌,
}
use clash_prism_engine.Json.Path.{split_dots}

abbrev pub guarded_fields : List String
guarded_fields =
    "external-controller" ∷ "secret" ∷ "mixed-port" ∷ "external-ui" ∷ "external-ui-url"
    ∷ "api-secret" ∷ "authentication" ∷ []

-- `GUARDED_PREFIXES.iter().any(..)`, over the fields that the prefixes are made of.
pub any_prefix : List String → String → Bool
any_prefix [] path = false
any_prefix (guarded ∷ fields) path =
    starts_with path (String.◌++◌ guarded ".") || any_prefix fields path

pub is_guarded_path : String → Bool
unfolding any_prefix
is_guarded_path path = contains path guarded_fields || any_prefix guarded_fields path

pub is_guarded_path-field :
    (path : String) → contains path guarded_fields ≡ true → is_guarded_path path ≡ true
unfolding is_guarded_path
is_guarded_path-field path h = ground (arith, h)

-- A path is its first part alone, or its first part, a dot and more.
abbrev FirstPart : String → String → Type 0
FirstPart path first =
    (path ≡ first) ⊎ ((t : String) × (path ≡ String.◌++◌ (String.◌++◌ first ".") t))

add_first :
    (c : Char) (s first : String)
    → FirstPart s first
    → FirstPart (String.◌∷◌ c s) (String.◌∷◌ c first)
add_first c s first h = elim h [
  | inl e ↦ inl (ap (String.◌∷◌ c) e)
  | inr (t, e) ↦ inr (
    t,
    rw (cons-append c first ".", cons-append c (String.◌++◌ first ".") t) (ap (String.◌∷◌ c) e),
  )
]

split_first : (path : String) → FirstPart path (split_dots path).0
unfolding split_dots
split_first String.[] = inl refl
split_first (String.◌∷◌ c s) = elim (Bool-cases (code c == b'.')) [
  | inl dot ↦
      let first : (split_dots (String.◌∷◌ c s)).0 ≡ "" = rw dot refl in
      let mark : Char = "." in
      let same : c ≡ mark = Char-path c mark (ground (arith, dot)) in
      inr (s, rw (first, same, nil-append ".", cons-append mark "" s, nil-append s) refl)
  | inr other ↦ rw other (add_first c s (split_dots s).0 (split_first s))
]

any_prefix-contains :
    (g t : String) (fields : List String)
    → contains g fields ≡ true
    → any_prefix fields (String.◌++◌ (String.◌++◌ g ".") t) ≡ true
unfolding any_prefix contains
any_prefix-contains g t [] h = absurd (ground arith)
any_prefix-contains g t (x ∷ fields) h =
    ground
      (arith, eq_iff x g, starts_with-append (String.◌++◌ g ".") t, any_prefix-contains g t fields)

-- A path whose first part is a guarded field is a guarded path.
pub is_guarded_path-split :
    (path : String)
    → contains (split_dots path).0 guarded_fields ≡ true
    → is_guarded_path path ≡ true
unfolding is_guarded_path
is_guarded_path-split path h = elim (split_first path) [
  | inl e ↦ rw e (ground (arith, h))
  | inr (t, e) ↦ ground (arith, e, any_prefix-contains (split_dots path).0 t guarded_fields h)
]
