-- ===== src/Json.antt =====
-- The JSON values of the package serde_json, by the constructors of its `Value` that the source
-- matches on, and the methods of its values and maps that the source calls. The type `N` of numbers
-- stays a parameter. A map is the list of its entries in the order of iteration.
pub mod Entries
pub mod Path
pub mod Merge
mod Examples
use clash_prism_engine.Base.{
  String, Bool, true, false, ◌&&◌, Option, none, some, List, [], ◌∷◌, if◌then◌else◌, Eq, ◌==◌,
  string_eq,
}

mutual
  pub data Value (N : Type 0) : Type 0 where
    null : Value N
    bool : Bool → Value N
    number : N → Value N
    string : String → Value N
    array : Items N → Value N
    object : Fields N → Value N

  -- The items of an array, as the checker wants a list inside a type declared.
  pub data Items (N : Type 0) : Type 0 where
    nil : Items N
    cons : Value N → Items N → Items N

  -- The entries of a map.
  pub data Fields (N : Type 0) : Type 0 where
    end : Fields N
    field : String → Value N → Fields N → Fields N

module _ {N : Type 0} where
  abbrev pub to_list : Items N → List (Value N)
  to_list nil = []
  to_list (cons x xs) = x ∷ to_list xs

  abbrev pub from_list : List (Value N) → Items N
  from_list [] = nil
  from_list (x ∷ xs) = cons x (from_list xs)

  abbrev pub is_object : Value N → Bool
  is_object (object _) = true
  is_object _ = false

  abbrev pub is_array : Value N → Bool
  is_array (array _) = true
  is_array _ = false

  abbrev pub as_array : Value N → Option (List (Value N))
  as_array (array xs) = some (to_list xs)
  as_array _ = none

  abbrev pub as_object : Value N → Option (Fields N)
  as_object (object m) = some m
  as_object _ = none

  abbrev pub as_str : Value N → Option String
  as_str (string s) = some s
  as_str _ = none

  -- `Map::get`.
  unfoldable pub get_field : String → Fields N → Option (Value N)
  get_field k end = none
  get_field k (field j v m) = if j == k then some v else get_field k m

  -- `Map::insert`, which keeps the place of a key that is there.
  unfoldable pub insert_field : String → Value N → Fields N → Fields N
  insert_field k v end = field k v end
  insert_field k v (field j w m) = if j == k then field j v m else field j w (insert_field k v m)

  -- `Map::contains_key`.
  unfoldable pub contains_field : String → Fields N → Bool
  contains_field k end = false
  contains_field k (field j v m) = if j == k then true else contains_field k m

  -- `entry(k).or_insert_with(..)`, read.
  abbrev pub get_field_or : Value N → String → Fields N → Value N
  get_field_or d k m = elim (get_field k m) [ none ↦ d | some v ↦ v ]

  -- `Value::get` with a text.
  unfoldable pub get : String → Value N → Option (Value N)
  get k (object m) = get_field k m
  get k _ = none
