-- ===== src/Plugin/Cron/Parse.antt =====
-- crates/clash-prism-plugin/src/cron_scheduler.rs: the parser of cron expressions.
pub mod Fields
mod Examples
use Prim.Native.Char.{Char}
use clash_prism_engine.Base.{
  ℕ, zero, suc, ◌+◌, ◌-◌, Bool, true, false, not, ◌&&◌, ◌||◌, Option, none, some, List, [], ◌∷◌,
  ◌++◌, if◌then◌else◌, ltb, leb, eqb, length, contains, Outcome, ok, err, nat_eq, and_then,
}
use clash_prism_engine.Base.Text.{is_char, trim}
use clash_prism_engine.Base.Sorting.{sort_by_key}
use clash_prism_engine.Plugin.Cron.{
  CronError, wrong_number_of_fields, not_a_number, step_is_zero, step_too_large, no_range,
  no_values, out_of_range, start_behind_end, FieldMatcher, CronExpr, split_once, split_on,
  split_whitespace, parse_u32, stepped,
}

-- A step, which is a number but zero.
pub parse_step : List Char → Outcome ℕ CronError
parse_step cs = and_then (parse_u32 cs) (λ step. if eqb step 0 then err step_is_zero else ok step)

-- The range and the step of a part with a dash.
pub range_and_step : List Char → Outcome (List Char × ℕ) CronError
range_and_step part = elim (split_once b'/' part) [
  | none ↦ ok (part, 1)
  | some (range_part, step_str) ↦ and_then (parse_step step_str) (λ step. ok (range_part, step))
]

pub checked_range : (min max start end step : ℕ) → Outcome (List ℕ) CronError
checked_range min max start end step =
    if ltb start min
    then err (out_of_range start)
    else if ltb max end
    then err (out_of_range end)
    else if ltb end start
    then err start_behind_end
    else if ltb (end - start + 1) step
    then err step_too_large
    else ok (stepped start end step)

pub parse_range : (min max : ℕ) → List Char → Outcome (List ℕ) CronError
parse_range min max part = and_then (range_and_step part) (λ r. elim (split_once b'-' r.0) [
  | none ↦ err no_range
  | some (start_str, end_str) ↦
      and_then (parse_u32 start_str)
        (λ start. and_then (parse_u32 end_str) (λ end. checked_range min max start end r.1))
])

pub parse_value : (min max : ℕ) → List Char → Outcome (List ℕ) CronError
parse_value min max part =
    and_then (parse_u32 part) (λ value.
      if ltb value min || ltb max value then err (out_of_range value) else ok (value ∷ []))

pub has_dash : List Char → Bool
has_dash part = elim (split_once b'-' part) [ none ↦ false | some _ ↦ true ]

-- A part that is neither a star nor a star with a step.
pub parse_plain : (min max : ℕ) → List Char → Outcome (List ℕ) CronError
parse_plain min max part =
    if has_dash part then parse_range min max part else parse_value min max part

pub parse_field_part : (min max : ℕ) → List Char → Outcome (List ℕ) CronError
parse_field_part min max [] = parse_plain min max []
parse_field_part min max (c ∷ []) =
    if is_char b'*' c then ok (stepped min max 1) else parse_plain min max (c ∷ [])
parse_field_part min max (c ∷ d ∷ cs) =
    if is_char b'*' c && is_char b'/' d
    then and_then (parse_step cs) (λ step. ok (stepped min max step))
    else parse_plain min max (c ∷ d ∷ cs)

-- The loop over the values of a part, which keeps each value once.
pub add_values : List ℕ → List ℕ → List ℕ
add_values [] allowed = allowed
add_values (v ∷ vs) allowed =
    add_values vs (if contains v allowed then allowed else allowed ++ v ∷ [])

-- The loop over the parts of a field.
pub collect_parts : (min max : ℕ) → List (List Char) → List ℕ → Outcome (List ℕ) CronError
collect_parts min max [] allowed = ok allowed
collect_parts min max (part ∷ parts) allowed = elim (trim part) [
  | [] ↦ collect_parts min max parts allowed
  | c ∷ cs ↦
      and_then (parse_field_part min max (c ∷ cs))
        (λ values. collect_parts min max parts (add_values values allowed))
]

pub value_key : ℕ → ℕ
value_key v = v

-- The values sorted, or an error where there are none.
pub finish_field : (min max : ℕ) → List ℕ → Outcome FieldMatcher CronError
finish_field min max [] = err no_values
finish_field min max (v ∷ vs) =
    let sorted = sort_by_key value_key (v ∷ vs) in
    ok (record { allowed = sorted; allowed_set = sorted; range = (min, max) })

module _ (normalize : (min max : ℕ) → List Char → List Char) where
  pub parse_field : List Char → (min max : ℕ) → Outcome FieldMatcher CronError
  parse_field expr min max =
      let (first, rest) = split_on b',' (normalize min max expr) in
      and_then (collect_parts min max (first ∷ rest) []) (finish_field min max)

  pub parse_parts : List (List Char) → Outcome CronExpr CronError
  parse_parts (a ∷ b ∷ c ∷ d ∷ e ∷ []) = and_then (parse_field a 0 59) (λ minutes.
      and_then (parse_field b 0 23) (λ hours. and_then (parse_field c 1 31) (λ days_of_month.
        and_then (parse_field d 1 12) (λ months. and_then (parse_field e 0 6) (λ days_of_week.
          ok (record {
            minutes = minutes;
            hours = hours;
            days_of_month = days_of_month;
            months = months;
            days_of_week = days_of_week;
          }))))))
  parse_parts parts = err (wrong_number_of_fields (length parts))

  pub parse_cron : List Char → Outcome CronExpr CronError
  parse_cron expr = parse_parts (split_whitespace [] expr)
