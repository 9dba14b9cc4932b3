-- ===== src/Trace/Statistics.antt =====
-- The sums of the statistics.
use clash_prism_engine.Base.{ℕ, ◌+◌, List, [], ◌∷◌}
use clash_prism_engine.Trace.{ExecutionTrace}

-- The sum of a count over traces.
abbrev pub sum_of : (ExecutionTrace → ℕ) → List ExecutionTrace → ℕ
sum_of f [] = 0
sum_of f (t ∷ ts) = f t + sum_of f ts
