-- ===== src/Plugin/Cron/Parse/Examples.antt =====
-- The theorems about cron expressions at a concrete expression.
use Prim.Native.Char.{Char}
use clash_prism_engine.Base.Sorting.{sort_by_key, insert_by_key}
use clash_prism_engine.Base.{and_then, ℕ, ◌≡◌, refl, List, [], ◌∷◌, contains, ok, nat_eq}
use clash_prism_engine.Base.Text.{chars, trim, drop_while, is_char, is_whitespace}
use clash_prism_engine.Plugin.Cron.{
  FieldMatcher, CronExpr, stepped, parse_u32, parse_digits, split_once, split_on, split_whitespace,
  step_by,
}
use clash_prism_engine.Plugin.Cron.Parse.{
  parse_cron, parse_parts, parse_field, collect_parts, parse_field_part, parse_plain, parse_range,
  parse_value, has_dash, range_and_step, checked_range, parse_step, add_values, value_key,
  finish_field,
}
use clash_prism_engine.Plugin.Cron.Parse.Fields.{AreFields, parse_cron-AreFields}

abbrev unchanged : (min max : ℕ) → List Char → List Char
unchanged min max cs = cs

abbrev field_of : ℕ → ℕ → List ℕ → FieldMatcher
field_of lo hi vs = record { allowed = vs; allowed_set = vs; range = (lo, hi) }

abbrev noon_on_new_year : CronExpr
noon_on_new_year = record {
  minutes = field_of 0 59 (0 ∷ 30 ∷ []);
  hours = field_of 0 23 (12 ∷ []);
  days_of_month = field_of 1 31 (1 ∷ []);
  months = field_of 1 12 (1 ∷ []);
  days_of_week = field_of 0 6 (0 ∷ 1 ∷ 2 ∷ []);
}

noon_parsed : parse_cron unchanged (chars "30,0 12 1 1 0-2") ≡ ok noon_on_new_year
unfolding parse_cron parse_parts parse_field collect_parts parse_field_part parse_plain parse_range
    parse_value has_dash range_and_step checked_range parse_step add_values value_key finish_field
    parse_u32 parse_digits split_once split_on split_whitespace stepped step_by trim drop_while
    is_char is_whitespace contains sort_by_key insert_by_key and_then
noon_parsed = refl

parse_cron-AreFields_example : AreFields noon_on_new_year
parse_cron-AreFields_example =
    parse_cron-AreFields unchanged (chars "30,0 12 1 1 0-2") noon_on_new_year noon_parsed
