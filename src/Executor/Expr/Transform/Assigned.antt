-- ===== src/Executor/Expr/Transform/Assigned.antt =====
-- crates/clash-prism-core/src/executor/expr.rs: the fields of a transformed object.
use Prim.Native.Char.{Char}
use clash_prism_engine.Base.{
  String, Bool, true, false, ◌&&◌, Option, none, some, List, [], ◌∷◌, ◌≡◌, refl, sym, ◌∙◌, ap, inl,
  inr, arith, Bool-cases, ok, and_then-ok, if◌then◌else◌, ◌==◌, string_eq,
}
use clash_prism_engine.Base.Text.{of_chars, trim, starts_with_char, ends_with_char}
use clash_prism_engine.Json.{Value, Fields, object, end, get, insert_field}
use clash_prism_engine.Json.Entries.{get_field-insert_field}
use clash_prism_engine.Executor.Expr.{Packages}
use clash_prism_engine.Executor.Expr.Pieces.{split_object_pairs}
use clash_prism_engine.Executor.Expr.Transform.{
  has_spread, insert_into, resolve_transform_value, assign, transform_body, body_of,
  transform_trimmed, evaluate_transform_expr,
}

-- The expression of the last pair with a key.
abbrev later_or : Option (List Char) → Bool → List Char → Option (List Char)
later_or (some later) same value_expr = some later
later_or none true value_expr = some value_expr
later_or none false value_expr = none

unfoldable pub assigned : String → List (List Char × List Char) → Option (List Char)
assigned k [] = none
assigned k ((key, value_expr) ∷ pairs) = later_or (assigned k pairs) (of_chars key == k) value_expr

module _ {N F I R : Type 0} (pk : Packages N F I R) where
  -- A field holds the value of its last pair, and without one it is as it was.
  abbrev pub HoldsField : String → Option (List Char) → (item result base : Value N) → Type 0
  HoldsField k none item result base = get k result ≡ get k base
  HoldsField k (some value_expr) item result base =
      (v : Value N) × (resolve_transform_value pk value_expr item ≡ ok v) × (get k result ≡ some v)

  later_or-HoldsField :
      (k j : String) (o : Option (List Char)) (same : Bool) (value_expr : List Char)
      (item result v : Value N) (m : Fields N)
      → (j == k) ≡ same
      → resolve_transform_value pk value_expr item ≡ ok v
      → HoldsField k o item result (object (insert_field j v m))
      → HoldsField k (later_or o same value_expr) item result (object m)
  unfolding get
  later_or-HoldsField k j (some later) same value_expr item result v m e r h = h
  later_or-HoldsField k j none true value_expr item result v m e r h =
      (v, r, ground (arith, h, e, get_field-insert_field j k v m))
  later_or-HoldsField k j none false value_expr item result v m e r h =
      ground (arith, h, e, get_field-insert_field j k v m)

  assign-HoldsField :
      (pairs : List (List Char × List Char)) (item result : Value N) (m : Fields N) (k : String)
      → assign pk pairs item (object m) ≡ ok result
      → HoldsField k (assigned k pairs) item result (object m)
  unfolding assign assigned insert_into
  assign-HoldsField [] item result m k h =
      let same : result ≡ object m = ground (arith, h) in ap (get k) same
  assign-HoldsField ((key, value_expr) ∷ pairs) item result m k h =
      let j = of_chars key in
      let (v, r, rest) =
        and_then-ok (resolve_transform_value pk value_expr item)
          (λ resolved. assign pk pairs item (insert_into j resolved (object m))) result h in
      later_or-HoldsField k j (assigned k pairs) (j == k) value_expr item result v m refl r
        (assign-HoldsField pairs item result (insert_field j v m) k rest)

  spread_object :
      (b : Bool) (m : Fields N)
      → (if b then object m else object end) ≡ object (if b then m else end)
  spread_object true m = refl
  spread_object false m = refl

  -- A transformation that succeeds on an object reads its body as pairs of a key and an expression.
  -- In the result each key has the value of the expression in its last pair, evaluated on the old
  -- object. Every other field is the old one if the body holds `...p`, and absent if not.
  pub evaluate_transform_expr_lem :
      (expr : List Char) (m : Fields N) (result : Value N)
      → evaluate_transform_expr pk expr (object m) ≡ ok result
      → (pairs : List (List Char × List Char)) × (split_object_pairs (body_of (trim expr))
          ≡ ok pairs)
        × ((k : String)
            → HoldsField k
                (assigned k pairs)
                (object m)
                result
                (object (if has_spread none (body_of (trim expr)) then m else end)))
  unfolding evaluate_transform_expr transform_trimmed transform_body
  evaluate_transform_expr_lem expr m result h =
      let body = body_of (trim expr) in
      let rest : transform_body pk body (object m) ≡ ok result =
        elim (Bool-cases (starts_with_char 123 (trim expr) && ends_with_char 125 (trim expr))) [
          | inl t ↦ ground (arith, h, t)
          | inr f ↦ absurd (ground (arith, h, f))
        ] in
      let spread = has_spread none body in
      let from = λ (pairs : List (List Char × List Char)) (base : Value N).
        assign pk pairs (object m) base in
      let (pairs, parsed, done) =
        and_then-ok (split_object_pairs body)
          (λ pairs. from pairs (if spread then object m else object end)) result rest in
      let built = ap (from pairs) (sym (spread_object spread m)) ∙ done in
      (
        pairs,
        parsed,
        λ k. assign-HoldsField pairs (object m) result (if spread then m else end) k built,
      )
