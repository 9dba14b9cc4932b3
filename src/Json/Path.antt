-- ===== src/Json/Path.antt =====
-- crates/clash-prism-core/src/json_path.rs: values at dotted paths. A mutable reference to a place in
-- a value is modelled by what is done with it: a function from the value there to its new value and
-- to what was learned of it.
pub mod Update
pub mod Create
pub mod Arrays
pub mod Keys
use Prim.Native.Char.{code}
use Prim.Native.String
use clash_prism_engine.Base.{
  ℕ, zero, suc, ◌+◌, ◌-◌, ◌*◌, ◌^◌, String, Bool, true, false, ◌&&◌, Option, none, some, List, [],
  ◌∷◌, if◌then◌else◌, ◌==◌, string_eq, nat_eq, ltb, leb, length,
}
use clash_prism_engine.Json.{
  Value, Items, Fields, null, array, object, end, to_list, from_list, as_array, is_array, get_field,
  insert_field, get_field_or,
}

-- `str::split('.')`: the first part and the others.
unfoldable pub split_dots : String → String × List String
split_dots String.[] = ("", [])
split_dots (String.◌∷◌ c s) =
    let rest = split_dots s in
    if code c == b'.' then ("", rest.0 ∷ rest.1) else (String.◌∷◌ c rest.0, rest.1)

unfoldable pub split : String → List String
split path = (split_dots path).0 ∷ (split_dots path).1

-- The digits of `str::parse::<usize>`, which refuses a number of 2 ^ 64 or more.
unfoldable pub parse_digits : ℕ → String → Option ℕ
parse_digits n String.[] = some n
parse_digits n (String.◌∷◌ c s) =
    let m = n * 10 + (code c - b'0') in
    let rest = parse_digits m s in
    if leb b'0' (code c) && leb (code c) b'9' && ltb m (2 ^ 64) then rest else none

-- `str::parse::<usize>`: digits, behind at most one plus sign.
unfoldable pub parse_usize : String → Option ℕ
parse_usize String.[] = none
parse_usize (String.◌∷◌ c String.[]) = parse_digits 0 (String.◌∷◌ c String.[])
parse_usize (String.◌∷◌ c (String.◌∷◌ d s)) =
    if code c == b'+'
    then parse_digits 0 (String.◌∷◌ d s)
    else parse_digits 0 (String.◌∷◌ c (String.◌∷◌ d s))

module _ {N : Type 0} where
  unfoldable pub get_elem? : List (Value N) → ℕ → Option (Value N)
  get_elem? [] i = none
  get_elem? (x ∷ xs) zero = some x
  get_elem? (x ∷ xs) (suc i) = get_elem? xs i

  unfoldable pub set : List (Value N) → ℕ → Value N → List (Value N)
  set [] i v = []
  set (x ∷ xs) zero v = v ∷ xs
  set (x ∷ xs) (suc i) v = x ∷ set xs i v

  -- One round of the loops that read: the value that a part of a path leads to.
  unfoldable pub child : String → Value N → Option (Value N)
  child part (object m) = get_field part m
  child part (array xs) = elim (parse_usize part) [
    | none ↦ none
    | some i ↦ get_elem? (to_list xs) i
  ]
  child part _ = none

  -- A value with another value at the place that a part leads to.
  pub put_child : String → Value N → Value N → Value N
  put_child part w (object m) = object (insert_field part w m)
  put_child part w (array xs) = elim (parse_usize part) [
    | none ↦ array xs
    | some i ↦ array (from_list (set (to_list xs) i w))
  ]
  put_child part w v = v

  unfoldable pub follow : List String → Value N → Option (Value N)
  follow [] v = some v
  follow (p ∷ ps) v = elim (child p v) [ none ↦ none | some w ↦ follow ps w ]

  unfoldable pub get_json_path : Value N → String → Option (Value N)
  get_json_path value path = if path == "" then some value else follow (split path) value

  module _ {A : Type 0} where
    pub update : (Value N → Value N × A) → List String → Value N → Option (Value N × A)
    update f [] v = some (f v)
    update f (p ∷ ps) v = elim (child p v) [
      | none ↦ none
      | some w ↦ elim (update f ps w) [ none ↦ none | some (w', a) ↦ some (put_child p w' v, a) ]
    ]

    -- `get_json_path_mut`, and what is done with the reference.
    pub get_json_path_mut : (Value N → Value N × A) → Value N → String → Option (Value N × A)
    get_json_path_mut f value path =
        if path == "" then some (f value) else update f (split path) value

    pub create : (Value N → Value N × A) → List String → Value N → Option (Value N × A)
    create f [] v = some (f v)
    create f (p ∷ ps) (object m) = elim (create f ps (get_field_or (object end) p m)) [
      | none ↦ none
      | some (w, a) ↦ some (object (insert_field p w m), a)
    ]
    create f (p ∷ ps) _ = none

    pub get_or_create_json_path_mut :
        (Value N → Value N × A) → Value N → String → Option (Value N × A)
    get_or_create_json_path_mut f value path =
        if path == "" then some (f value) else create f (split path) value

  module _ {A : Type 0} (f : List (Value N) → List (Value N) × A) where
    -- What is done with a value that may be an array.
    unfoldable pub at_array : Value N → Value N × Option A
    at_array v = elim (as_array v) [
      | none ↦ (v, none)
      | some xs ↦ (array (from_list (f xs).0), some (f xs).1)
    ]

    -- `get_array_at_path_mut`, for what is done with the items of the array.
    unfoldable pub get_array_at_path_mut : Value N → String → Option (Value N × A)
    get_array_at_path_mut value path = elim (get_json_path_mut at_array value path) [
      | none ↦ none
      | some (w, a) ↦ elim a [ none ↦ none | some b ↦ some (w, b) ]
    ]

  pub get_array_len : Value N → String → ℕ
  get_array_len config path = elim (get_json_path config path) [
    | none ↦ 0
    | some v ↦ elim (as_array v) [ none ↦ 0 | some xs ↦ length xs ]
  ]

  -- The loop of `set_json_path` that walks to the last part and the insertion there.
  pub set_parts : List String → Value N → Value N → Value N
  set_parts [] value config = config
  set_parts (p ∷ []) value (object m) = object (insert_field p value m)
  set_parts (p ∷ q ∷ ps) value (object m) =
      object (insert_field p (set_parts (q ∷ ps) value (get_field_or (object end) p m)) m)
  set_parts (p ∷ ps) value config = config

  pub set_json_path : Value N → String → Value N → Value N
  set_json_path config path value = set_parts (split path) value config
