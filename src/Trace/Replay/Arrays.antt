-- ===== src/Trace/Replay/Arrays.antt =====
-- Both ways of writing to an array at a path, that of the executor and that of a replay.
use clash_prism_engine.Base.{String, none, some, List, ◌≡◌, arith, Option-cases, inl, inr}
use clash_prism_engine.Json.{Value, as_array}
use clash_prism_engine.Json.Path.{get_json_path, at_array, get_array_at_path_mut}
use clash_prism_engine.Json.Path.Update.{get_json_path_mut-found, get_json_path_mut-missing}
use clash_prism_engine.Json.Path.Arrays.{get_json_path_mut_same, get_json_path_mut_agree}
use clash_prism_engine.Trace.Replay.{with_array, on_array}

module _ {N : Type 0} where
  module _ {A : Type 0} (g : List (Value N) → List (Value N) × A)
      (f : List (Value N) → List (Value N)) where
    -- Both ways of writing to an array at a path give one configuration.
    pub with_array_lem :
        (config : Value N) (path : String)
        → ((xs : List (Value N)) → (g xs).0 ≡ f xs)
        → with_array f config path
          ≡ elim (get_array_at_path_mut g config path) [ none ↦ config | some (c, _) ↦ c ]
    unfolding with_array get_array_at_path_mut at_array on_array
    with_array_lem config path s = elim (Option-cases (get_json_path config path)) [
      | inl e ↦
          let a = get_json_path_mut-missing (at_array g) config path e in
          let b = get_json_path_mut-missing (on_array f) config path e in ground (arith, a, b)
      | inr (v, e) ↦ elim (Option-cases (as_array v)) [
        | inl n ↦
            let a = get_json_path_mut_same (at_array g) config v path e (ground (arith, n)) in
            let b = get_json_path_mut_same (on_array f) config v path e (ground (arith, n)) in
            ground (arith, n, a, b)
        | inr (xs, n) ↦
            let (c, wrote, _) = get_json_path_mut-found (at_array g) config v path e in
            let (d, also, _) = get_json_path_mut-found (on_array f) config v path e in
            let one : (w : Value N) → (at_array g w).0 ≡ (on_array f w).0 = λ w.
              elim (Option-cases (as_array w)) [
                | inl m ↦ ground (arith, m)
                | inr (ys, m) ↦ ground (arith, m, s ys)
              ] in
            let same = get_json_path_mut_agree (at_array g) (on_array f) config path one in
            ground (arith, n, wrote, also, same)
      ]
    ]
