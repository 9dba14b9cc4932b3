-- ===== src/Plugin/Cron/Steps.antt =====
-- The steps through a range of values: which values they reach, and that the loop ends.
use clash_prism_engine.Base.{
  ℕ, zero, suc, ◌+◌, ◌≤◌, ◌<◌, true, List, [], ◌∷◌, leb, contains, nat_eq, ◌≡◌, arith, All,
  Bool-cases, inl, inr, eqb_iff,
}
use clash_prism_engine.Plugin.Cron.{step_by, stepped}

-- A value between two bounds.
abbrev pub IsWithin : ℕ → ℕ → ℕ → Type 0
IsWithin lo hi v = (lo ≤ v) × (v ≤ hi)

pub All-IsWithin :
    (lo lo' hi hi' : ℕ) (vs : List ℕ)
    → lo' ≤ lo
    → hi ≤ hi'
    → All (IsWithin lo hi) vs
    → All (IsWithin lo' hi') vs
All-IsWithin lo lo' hi hi' [] l h a = tt
All-IsWithin lo lo' hi hi' (v ∷ vs) l h ((a, b), rest) =
    ((omega arith, omega arith), All-IsWithin lo lo' hi hi' vs l h rest)

pub step_by-IsWithin :
    (fuel start end step : ℕ) → All (IsWithin start end) (step_by fuel start end step)
unfolding step_by
step_by-IsWithin zero start end step = tt
step_by-IsWithin (suc fuel) start end step = elim (Bool-cases (leb start end)) [
  | inr e ↦ rw e tt
  | inl e ↦
      let rest = step_by-IsWithin fuel (start + step) end step in
      rw e (
        (omega arith, ground (arith, e)),
        All-IsWithin (start + step) start end end (step_by fuel (start + step) end step)
            (omega arith) (omega arith) rest,
      )
]

-- The value that some steps lead to.
abbrev pub after_steps : ℕ → ℕ → ℕ → ℕ
after_steps zero start step = start
after_steps (suc k) start step = after_steps k (start + step) step

after_steps-le : (k start step : ℕ) → start ≤ after_steps k start step
after_steps-le zero start step = omega arith
after_steps-le (suc k) start step = omega (arith, after_steps-le k (start + step) step)

step_by_complete :
    (fuel k start end step : ℕ)
    → 1 ≤ step
    → end < fuel + start
    → after_steps k start step ≤ end
    → contains (after_steps k start step) (step_by fuel start end step) ≡ true
unfolding step_by contains
step_by_complete zero k start end step s f h = absurd (omega (arith, after_steps-le k start step))
step_by_complete (suc fuel) zero start end step s f h = ground (arith, eqb_iff start start)
step_by_complete (suc fuel) (suc k) start end step s f h =
    let low : start ≤ end = omega (arith, after_steps-le k (start + step) step) in
    let rest = step_by_complete fuel k (start + step) end step s (omega arith) h in
    ground (arith, low, rest)

-- A step through a range of numbers reaches each value that some steps lead to, up to the end: the
-- fuel of the loop is enough. The step is at least one.
pub stepped_lem :
    (k start end step : ℕ)
    → 1 ≤ step
    → after_steps k start step ≤ end
    → (contains (after_steps k start step) (stepped start end step) ≡ true)
      × All (IsWithin start end) (stepped start end step)
unfolding stepped
stepped_lem k start end step s h = (
  step_by_complete (suc end) k start end step s (omega arith) h,
  step_by-IsWithin (suc end) start end step,
)
