-- ===== src/Plugin/Cron/Parse/Fields.antt =====
-- What the parser of cron expressions guarantees of the fields that it gives.
use Prim.Native.Char.{Char}
use clash_prism_engine.Base.{
  ℕ, suc, ◌≤◌, ◌&&◌, List, [], ◌∷◌, ◌++◌, length, contains, Outcome, ok, nat_eq, and_then-ok, ◌≡◌,
  ◌≢◌, refl, arith, subst, All, Bool-cases, Option-cases, List-cases, inl, inr,
}
use clash_prism_engine.Base.Text.{is_char, trim}
use clash_prism_engine.Base.Sorting.{
  sort_by_key, IsOrdered, sort_by_key-IsOrdered, All-sort_by_key, length-sort_by_key,
}
use clash_prism_engine.Plugin.Cron.{
  CronError, FieldMatcher, CronExpr, step_by, stepped, split_once, split_on, split_whitespace,
  parse_u32,
}
use clash_prism_engine.Plugin.Cron.Steps.{IsWithin, All-IsWithin, step_by-IsWithin}
use clash_prism_engine.Plugin.Cron.Parse.{
  parse_step, range_and_step, checked_range, parse_range, parse_value, has_dash, parse_plain,
  parse_field_part, add_values, collect_parts, value_key, finish_field, parse_field, parse_parts,
  parse_cron,
}

module _ (lo hi : ℕ) where
  -- The values of an outcome, if any, are between the bounds.
  abbrev AreWithin : Outcome (List ℕ) CronError → Type 0
  AreWithin r = (vs : List ℕ) → r ≡ ok vs → All (IsWithin lo hi) vs

  checked_range-AreWithin : (start end step : ℕ) → AreWithin (checked_range lo hi start end step)
  unfolding checked_range stepped
  checked_range-AreWithin start end step vs h =
      let low : lo ≤ start = ground arith in
      let high : end ≤ hi = ground arith in
      let same : step_by (suc end) start end step ≡ vs = ground arith in
      subst (All (IsWithin lo hi)) same (
        All-IsWithin start lo end hi (step_by (suc end) start end step) low high
          (step_by-IsWithin (suc end) start end step))

  parse_range-AreWithin : (part : List Char) → AreWithin (parse_range lo hi part)
  unfolding parse_range
  parse_range-AreWithin part vs h =
      let (r, _, ranged) = and_then-ok (range_and_step part) _ vs h in
      elim (Option-cases (split_once b'-' r.0)) [
        | inl e ↦ absurd (ground (arith, e, ranged))
        | inr ((a, b), e) ↦
            let (start, _, started) = and_then-ok (parse_u32 a) _ vs (rw e at ranged) in
            let (end, _, ended) = and_then-ok (parse_u32 b) _ vs started in
            checked_range-AreWithin start end r.1 vs ended
      ]

  parse_value-AreWithin : (part : List Char) → AreWithin (parse_value lo hi part)
  unfolding parse_value
  parse_value-AreWithin part vs h =
      let (value, _, tested) = and_then-ok (parse_u32 part) _ vs h in
      let same : value ∷ [] ≡ vs = ground arith in
      let inside : IsWithin lo hi value = (ground arith, ground arith) in
      subst (All (IsWithin lo hi)) same (inside, tt)

  parse_plain-AreWithin : (part : List Char) → AreWithin (parse_plain lo hi part)
  unfolding parse_plain
  parse_plain-AreWithin part vs h = elim (Bool-cases (has_dash part)) [
    | inl e ↦ parse_range-AreWithin part vs (rw e at h)
    | inr e ↦ parse_value-AreWithin part vs (rw e at h)
  ]

  stepped-AreWithin : (step : ℕ) (vs : List ℕ) → stepped lo hi step ≡ vs → All (IsWithin lo hi) vs
  unfolding stepped
  stepped-AreWithin step vs same =
      subst (All (IsWithin lo hi)) same (step_by-IsWithin (suc hi) lo hi step)

  parse_field_part-AreWithin : (part : List Char) → AreWithin (parse_field_part lo hi part)
  unfolding parse_field_part
  parse_field_part-AreWithin [] vs h = parse_plain-AreWithin [] vs h
  parse_field_part-AreWithin (c ∷ []) vs h = elim (Bool-cases (is_char b'*' c)) [
    | inl e ↦ stepped-AreWithin 1 vs (ground (arith, e))
    | inr e ↦ parse_plain-AreWithin (c ∷ []) vs (rw e at h)
  ]
  parse_field_part-AreWithin (c ∷ d ∷ cs) vs h =
      elim (Bool-cases (is_char b'*' c && is_char b'/' d)) [
        | inl e ↦
            let (step, _, made) = and_then-ok (parse_step cs) _ vs (rw e at h) in
            stepped-AreWithin step vs (ground arith)
        | inr e ↦ parse_plain-AreWithin (c ∷ d ∷ cs) vs (rw e at h)
      ]

  All-append :
      (xs ys : List ℕ)
      → All (IsWithin lo hi) xs
      → All (IsWithin lo hi) ys
      → All (IsWithin lo hi) (xs ++ ys)
  All-append [] ys h k = k
  All-append (x ∷ xs) ys (h, hs) k = (h, All-append xs ys hs k)

  add_values-All :
      (vs allowed : List ℕ)
      → All (IsWithin lo hi) vs
      → All (IsWithin lo hi) allowed
      → All (IsWithin lo hi) (add_values vs allowed)
  unfolding add_values
  add_values-All [] allowed h k = k
  add_values-All (v ∷ vs) allowed (h, hs) k = elim (Bool-cases (contains v allowed)) [
    | inl e ↦ rw e (add_values-All vs allowed hs k)
    | inr e ↦
        rw e (add_values-All vs (allowed ++ v ∷ []) hs (All-append allowed (v ∷ []) k (h, tt)))
  ]

  collect_parts-AreWithin :
      (parts : List (List Char)) (allowed : List ℕ)
      → All (IsWithin lo hi) allowed
      → AreWithin (collect_parts lo hi parts allowed)
  unfolding collect_parts
  collect_parts-AreWithin [] allowed k vs h =
      let same : allowed ≡ vs = ground arith in subst (All (IsWithin lo hi)) same k
  collect_parts-AreWithin (part ∷ parts) allowed k vs h = elim (List-cases (trim part)) [
    | inl e ↦ collect_parts-AreWithin parts allowed k vs (rw (e, collect_parts) at h)
    | inr (c, cs, e) ↦
        let (values, parsed, rest) =
          and_then-ok (parse_field_part lo hi (c ∷ cs)) _ vs (rw (e, collect_parts) at h) in
        collect_parts-AreWithin parts (add_values values allowed)
          (add_values-All values allowed (parse_field_part-AreWithin (c ∷ cs) values parsed) k) vs
          rest
  ]

  -- A field with its range: sorted values inside it, at least one, which are the ones that it
  -- matches.
  abbrev pub IsField : FieldMatcher → Type 0
  IsField m =
      (m.range ≡ (lo, hi))
      × (m.allowed_set ≡ m.allowed)
      × (m.allowed ≢ [])
      × IsOrdered value_key m.allowed
      × All (IsWithin lo hi) m.allowed

  finish_field-IsField :
      (vs : List ℕ) (m : FieldMatcher)
      → All (IsWithin lo hi) vs
      → finish_field lo hi vs ≡ ok m
      → IsField m
  unfolding finish_field
  finish_field-IsField [] m k h = absurd (ground arith)
  finish_field-IsField (v ∷ vs) m k h =
      let sorted = sort_by_key value_key (v ∷ vs) in
      let built : FieldMatcher = record {
        allowed = sorted;
        allowed_set = sorted;
        range = (lo, hi);
      } in
      let same : built ≡ m = ground arith in
      let filled : sorted ≢ [] = λ e.
        let size : length sorted ≡ suc (length vs) = length-sort_by_key value_key (v ∷ vs) in
        absurd (ground (arith, size, e)) in
      subst IsField same (
        refl,
        refl,
        filled,
        sort_by_key-IsOrdered value_key (v ∷ vs),
        All-sort_by_key value_key (IsWithin lo hi) (v ∷ vs) k,
      )

  parse_field-IsField :
      (normalize : (min max : ℕ) → List Char → List Char) (expr : List Char) (m : FieldMatcher)
      → parse_field normalize expr lo hi ≡ ok m
      → IsField m
  unfolding parse_field
  parse_field-IsField normalize expr m h =
      let parts = split_on b',' (normalize lo hi expr) in
      let (vs, collected, finished) =
        and_then-ok (collect_parts lo hi (parts.0 ∷ parts.1) []) (finish_field lo hi) m h in
      finish_field-IsField vs m (collect_parts-AreWithin (parts.0 ∷ parts.1) [] tt vs collected)
        finished

-- The fields of an expression, each with the range of its unit.
abbrev pub AreFields : CronExpr → Type 0
AreFields c =
    IsField 0 59 c.minutes
    × IsField 0 23 c.hours
    × IsField 1 31 c.days_of_month
    × IsField 1 12 c.months
    × IsField 0 6 c.days_of_week

module _ (normalize : (min max : ℕ) → List Char → List Char) where
  parse_parts-AreFields :
      (parts : List (List Char)) (c : CronExpr) → parse_parts normalize parts ≡ ok c → AreFields c
  unfolding parse_parts
  parse_parts-AreFields [] c h = absurd (ground arith)
  parse_parts-AreFields (x ∷ []) c h = absurd (ground arith)
  parse_parts-AreFields (x ∷ y ∷ []) c h = absurd (ground arith)
  parse_parts-AreFields (x ∷ y ∷ z ∷ []) c h = absurd (ground arith)
  parse_parts-AreFields (x ∷ y ∷ z ∷ u ∷ []) c h = absurd (ground arith)
  parse_parts-AreFields (x ∷ y ∷ z ∷ u ∷ v ∷ w ∷ ws) c h = absurd (ground arith)
  parse_parts-AreFields (x ∷ y ∷ z ∷ u ∷ v ∷ []) c h =
      let (a, fa, ha) = and_then-ok (parse_field normalize x 0 59) _ c h in
      let (b, fb, hb) = and_then-ok (parse_field normalize y 0 23) _ c ha in
      let (d, fd, hd) = and_then-ok (parse_field normalize z 1 31) _ c hb in
      let (m, fm, hm) = and_then-ok (parse_field normalize u 1 12) _ c hd in
      let (w, fw, hw) = and_then-ok (parse_field normalize v 0 6) _ c hm in
      let built : CronExpr = record {
        minutes = a;
        hours = b;
        days_of_month = d;
        months = m;
        days_of_week = w;
      } in
      let same : built ≡ c = ground arith in
      subst AreFields same (
        parse_field-IsField 0 59 normalize x a fa,
        parse_field-IsField 0 23 normalize y b fb,
        parse_field-IsField 1 31 normalize z d fd,
        parse_field-IsField 1 12 normalize u m fm,
        parse_field-IsField 0 6 normalize v w fw,
      )

  -- Each field of a parsed expression has at least one value, its values are sorted and inside the
  -- range of its unit, and they are the ones that it matches.
  pub parse_cron-AreFields :
      (expr : List Char) (c : CronExpr) → parse_cron normalize expr ≡ ok c → AreFields c
  unfolding parse_cron
  parse_cron-AreFields expr c h = parse_parts-AreFields (split_whitespace [] expr) c h
