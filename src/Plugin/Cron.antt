-- ===== src/Plugin/Cron.antt =====
-- crates/clash-prism-plugin/src/cron_scheduler.rs: cron expressions, their fields and which days they
-- match. Texts are lists of characters. The replacement of the names of months and days
-- (`normalize_cron_field_name`) is an argument, and the texts of the errors are left out.
pub mod Parse
pub mod Steps
use Prim.Native.Char.{Char, code}
use clash_prism_engine.Base.{
  ℕ, zero, suc, ◌+◌, ◌-◌, ◌*◌, ◌^◌, Bool, true, false, not, ◌&&◌, ◌||◌, Option, none, some, List,
  [], ◌∷◌, ◌++◌, if◌then◌else◌, ltb, leb, eqb, length, contains, Outcome, ok, err, nat_eq,
}
use clash_prism_engine.Base.Text.{is_char, is_whitespace, trim}
use clash_prism_engine.Base.Sorting.{sort_by_key}

-- `CronError::InvalidExpression`, by its reason.
pub data CronError : Type 0 where
  wrong_number_of_fields : ℕ → CronError
  not_a_number step_is_zero step_too_large no_range no_values : CronError
  out_of_range : ℕ → CronError
  start_behind_end : CronError

pub record FieldMatcher : Type 0 where
  pub allowed : List ℕ
  pub allowed_set : List ℕ
  pub range : ℕ × ℕ

pub record CronExpr : Type 0 where
  pub minutes : FieldMatcher
  pub hours : FieldMatcher
  pub days_of_month : FieldMatcher
  pub months : FieldMatcher
  pub days_of_week : FieldMatcher

pub matches : FieldMatcher → ℕ → Bool
matches m value = contains value m.allowed_set

pub is_unconstrained : FieldMatcher → Bool
is_unconstrained m = eqb (length m.allowed) (m.range.1 - m.range.0 + 1)

pub min_value : FieldMatcher → ℕ
min_value m = elim m.allowed [ [] ↦ m.range.0 | v ∷ vs ↦ v ]

pub day_matches : CronExpr → (day dow : ℕ) → Bool
day_matches c day dow =
    if is_unconstrained c.days_of_month
    then (if is_unconstrained c.days_of_week then true else matches c.days_of_week dow)
    else if is_unconstrained c.days_of_week
    then matches c.days_of_month day
    else matches c.days_of_month day || matches c.days_of_week dow

-- The parts of an instant that a cron expression reads.
pub record Instant : Type 0 where
  pub minute : ℕ
  pub hour : ℕ
  pub day : ℕ
  pub month : ℕ
  pub num_days_from_monday : ℕ

pub cron_matches : CronExpr → Instant → Bool
cron_matches c dt =
    matches c.minutes dt.minute
    && matches c.hours dt.hour
    && matches c.months dt.month
    && day_matches c dt.day dt.num_days_from_monday

-- The text in front of the first occurrence of a character, and the text behind it.
pub split_once : ℕ → List Char → Option (List Char × List Char)
split_once n [] = none
split_once n (c ∷ cs) =
    let rest = split_once n cs in
    if is_char n c then some ([], cs) else elim rest [ none ↦ none | some (a, b) ↦ some (c ∷ a, b) ]

-- The parts between the occurrences of a character.
pub split_on : ℕ → List Char → List Char × List (List Char)
split_on n [] = ([], [])
split_on n (c ∷ cs) =
    let (first, rest) = split_on n cs in
    if is_char n c then ([], first ∷ rest) else (c ∷ first, rest)

-- The parts between white space, from the letters read since the last of it.
pub split_whitespace : List Char → List Char → List (List Char)
split_whitespace [] [] = []
split_whitespace (w ∷ word) [] = (w ∷ word) ∷ []
split_whitespace word (c ∷ cs) =
    let stop = split_whitespace [] cs in
    let go = split_whitespace (word ++ c ∷ []) cs in
    if is_whitespace c then (elim word [ [] ↦ stop | w ∷ ws ↦ (w ∷ ws) ∷ stop ]) else go

-- The digits of `str::parse::<u32>`, which refuses a number of 2 ^ 32 or more.
pub parse_digits : ℕ → List Char → Option ℕ
parse_digits n [] = some n
parse_digits n (c ∷ cs) =
    let m = n * 10 + (code c - b'0') in
    let rest = parse_digits m cs in
    if leb b'0' (code c) && leb (code c) b'9' && ltb m (2 ^ 32) then rest else none

-- `str::parse::<u32>`: digits, behind at most one plus sign.
pub parse_u32 : List Char → Outcome ℕ CronError
parse_u32 cs =
    let digits : List Char = elim cs [
      | [] ↦ []
      | c ∷ [] ↦ c ∷ []
      | c ∷ d ∷ ds ↦ if is_char b'+' c then d ∷ ds else c ∷ d ∷ ds
    ] in
    elim digits [
      | [] ↦ err not_a_number
      | d ∷ ds ↦ elim (parse_digits 0 (d ∷ ds)) [ none ↦ err not_a_number | some n ↦ ok n ]
    ]

-- `(start..=end).step_by(step)`, on fuel.
pub step_by : ℕ → (start end step : ℕ) → List ℕ
step_by zero start end step = []
step_by (suc fuel) start end step =
    let rest = step_by fuel (start + step) end step in if leb start end then start ∷ rest else []

-- The fuel is one more than the end, and each step is at least one.
pub stepped : (start end step : ℕ) → List ℕ
stepped start end step = step_by (suc end) start end step
