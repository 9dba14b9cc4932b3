-- ===== src/Json/Entries.antt =====
-- The laws of maps that the other modules use.
use clash_prism_engine.Base.{
  String, true, false, none, some, List, [], ◌∷◌, if◌then◌else◌, ◌==◌, string_eq, ◌≡◌, refl, arith,
  eq_iff, ap,
}
use clash_prism_engine.Json.{
  Value, Fields, end, field, get_field, insert_field, contains_field, to_list, from_list,
}

module _ {N : Type 0} where
  pub get_field-insert_field :
      (k j : String) (v : Value N) (m : Fields N)
      → get_field j (insert_field k v m) ≡ (if k == j then some v else get_field j m)
  unfolding get_field insert_field
  get_field-insert_field k j v end = refl
  get_field-insert_field k j v (field i w m) =
      ground (arith, eq_iff k j, eq_iff i k, eq_iff i j, get_field-insert_field k j v m)

  pub contains_field-get_field :
      (k : String) (m : Fields N)
      → contains_field k m ≡ elim (get_field k m) [ none ↦ false | some _ ↦ true ]
  unfolding contains_field get_field
  contains_field-get_field k end = refl
  contains_field-get_field k (field j v m) = ground (arith, contains_field-get_field k m)

  -- To write what a map holds changes nothing.
  pub insert_field-get_field :
      (k : String) (v : Value N) (m : Fields N) → get_field k m ≡ some v → insert_field k v m ≡ m
  unfolding get_field insert_field
  insert_field-get_field k v end h = ground arith
  insert_field-get_field k v (field j w m) h = ground (arith, insert_field-get_field k v m)

  pub insert_field_twice :
      (k : String) (v w : Value N) (m : Fields N)
      → insert_field k w (insert_field k v m) ≡ insert_field k w m
  unfolding insert_field
  insert_field_twice k v w end = ground (arith, eq_iff k k)
  insert_field_twice k v w (field j u m) = ground (arith, insert_field_twice k v w m)

  pub to_list-from_list : (xs : List (Value N)) → to_list (from_list xs) ≡ xs
  to_list-from_list [] = refl
  to_list-from_list (x ∷ xs) = ap (λ l. x ∷ l) (to_list-from_list xs)
