-- ===== src/Executor/Arrays/Steps.antt =====
-- A change of the array at a path, as a configuration and a summary show it.
use clash_prism_engine.Base.{
  ◌+◌, String, Option, none, some, List, length, ◌≡◌, sym, subst, Option-cases, inl, inr,
}
use clash_prism_engine.Json.{Value}
use clash_prism_engine.Json.Path.Arrays.{array_at}
use clash_prism_engine.Trace.{ExecutionTrace}

module _ {N : Type 0} where
  -- The new array and its counts.
  abbrev pub IsCounted :
      String → List (Value N) → List (Value N) → Value N × ExecutionTrace → Type 0
  IsCounted path before after r =
      (array_at r.0 path ≡ some after)
      × (r.1.summary.total_before ≡ length before)
      × (r.1.summary.total_after ≡ length after)
      × (r.1.summary.total_before + r.1.summary.added
          ≡ r.1.summary.total_after + r.1.summary.removed)

  abbrev pub StepFrom :
      Value N
      → String
      → (List (Value N) → List (Value N))
      → Value N × ExecutionTrace
      → Option (List (Value N))
      → Type 0
  StepFrom config path f r none = r.0 ≡ config
  StepFrom config path f r (some xs) = IsCounted path xs (f xs) r

  -- The array at a path is changed by a function, and the summary counts it; without an array the
  -- configuration stays.
  abbrev pub IsArrayStep :
      Value N → String → (List (Value N) → List (Value N)) → Value N × ExecutionTrace → Type 0
  IsArrayStep config path f r = StepFrom config path f r (array_at config path)

  pub array_step :
      (config : Value N) (path : String) (f : List (Value N) → List (Value N))
      (r : Value N × ExecutionTrace)
      → (array_at config path ≡ none → r.0 ≡ config)
      → ((xs : List (Value N)) → array_at config path ≡ some xs → IsCounted path xs (f xs) r)
      → IsArrayStep config path f r
  array_step config path f r missing found = elim (Option-cases (array_at config path)) [
    | inl e ↦ subst (StepFrom config path f r) (sym e) (missing e)
    | inr (xs, e) ↦ subst (StepFrom config path f r) (sym e) (found xs e)
  ]
