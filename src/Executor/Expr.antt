-- ===== src/Executor/Expr.antt =====
-- crates/clash-prism-core/src/executor/expr.rs: the expressions of `$filter`, `$remove` and
-- `$transform`. A text is the list of its characters; a byte offset of the source is a number of
-- characters here, since every offset stands between two characters. The texts of errors are left
-- out. What the source calls of std, serde_json and regex is the record `Packages`.
pub mod Scan
pub mod Pieces
pub mod Literal
pub mod Functions
pub mod Pipe
pub mod Predicate
pub mod Transform
pub mod Evaluation
mod Examples
use Prim.Native.Char.{Char}
use clash_prism_engine.Base.{
  ℕ, String, Bool, Option, none, some, List, if◌then◌else◌, ◌==◌, string_eq,
}
use clash_prism_engine.Json.{Value}

pub data ExprError : Type 0 where
  parse_error : ExprError
  field_not_found : ExprError
  type_mismatch : ExprError
  regex_error : ExprError
  unsupported : ExprError

-- A value of an expression; `F` stands for f64.
pub data ExprValue (N F : Type 0) : Type 0 where
  expr_bool : Bool → ExprValue N F
  expr_number : F → ExprValue N F
  expr_string : List Char → ExprValue N F
  expr_array : List (Value N) → ExprValue N F
  expr_null : ExprValue N F

pub data BuiltinFunction : Type 0 where
  regex : BuiltinFunction
  len : BuiltinFunction
  lower : BuiltinFunction
  upper : BuiltinFunction
  contains : BuiltinFunction
  starts_with : BuiltinFunction
  ends_with : BuiltinFunction
  abs : BuiltinFunction
  type_of : BuiltinFunction

unfoldable pub from_name : String → Option BuiltinFunction
from_name name =
    if name == "regex"
    then some regex
    else if name == "len"
    then some len
    else if name == "lower"
    then some lower
    else if name == "upper"
    then some upper
    else if name == "contains"
    then some contains
    else if name == "starts_with"
    then some starts_with
    else if name == "ends_with"
    then some ends_with
    else if name == "abs"
    then some abs
    else if name == "type_of"
    then some type_of
    else none

-- What the source takes of other code, for numbers `N` of JSON, f64 as `F`, i64 as `I` and compiled
-- regular expressions `R`. `compile` has no result for a pattern that does not compile; a cached
-- expression is one compiled anew. `includes_captures` gives the two groups of `INCLUDES_RE`, and
-- `value_eq` is the equality of serde_json's values.
pub record Packages (N F I R : Type 0) : Type 0 where
  pub parse_f64 : List Char → Option F
  pub of_usize : ℕ → F
  pub abs_f64 : F → F
  pub fract : F → F
  pub max : F → F → F
  pub sub : F → F → F
  pub mul : F → F → F
  pub eq_f64 : F → F → Bool
  pub lt_f64 : F → F → Bool
  pub le_f64 : F → F → Bool
  pub zero_f64 : F
  pub one_f64 : F
  pub float_epsilon : F
  pub as_i64 : N → Option I
  pub as_f64 : N → Option F
  pub of_i64 : I → F
  pub parse_i64 : List Char → Option I
  pub number_of_i64 : I → N
  pub number_of_f64 : F → Option N
  pub number_zero : N
  pub number_text : N → List Char
  pub value_eq : Value N → Value N → Bool
  pub compile : List Char → Option R
  pub is_match : R → List Char → Bool
  pub replace_all : R → (text replacement : List Char) → List Char
  pub includes_captures : List Char → Option (List Char × List Char)
  pub to_lowercase : List Char → List Char
  pub to_uppercase : List Char → List Char
