-- ===== src/Json/Examples.antt =====
-- The theorems about JSON values at concrete values.
use clash_prism_engine.Base.{[], ◌∷◌, ℕ, ◌≡◌, refl, true, some, arith, inl, eq_iff, nat_eq}
use clash_prism_engine.Json.{
  Value, Fields, bool, number, string, object, end, field, get_field, contains_field,
}
use clash_prism_engine.Json.Path.{
  split, split_dots, parse_usize, parse_digits, get_json_path, get_json_path_mut, follow, child,
}
use clash_prism_engine.Json.Path.Update.{IsApartPath, get_json_path_mut_lem}
use clash_prism_engine.Json.Merge.{deep_merge_json}
use clash_prism_engine.Json.Merge.Laws.{HasUniqueKeys}
use clash_prism_engine.Json.Merge.Paths.{reach, effect, HasEffect, deep_merge_json_lem}

abbrev dns : Fields ℕ
dns = field "enable" (bool true) (field "port" (number 53) end)

abbrev config_fields : Fields ℕ
config_fields = field "dns" (object dns) (field "mode" (string "rule") end)

abbrev overlay_fields : Fields ℕ
overlay_fields = field "dns" (object (field "port" (number 1053) end)) end

abbrev put_seven : Value ℕ → Value ℕ × Unit {0}
put_seven v = (number 7, tt)

config_has_port : get_json_path (object config_fields) "dns.port" ≡ some (number 53)
unfolding get_json_path split split_dots follow child get_field
config_has_port = refl

port_apart_from_mode : IsApartPath (split "dns.port") (split "mode")
unfolding split split_dots parse_usize parse_digits
port_apart_from_mode = inl (λ e. absurd (ground (arith, eq_iff "dns" "mode", e)), inl refl)

get_json_path_mut_lem_example :
    (v' : Value ℕ) × (get_json_path_mut put_seven (object config_fields) "dns.port" ≡ some (v', tt))
    × (get_json_path v' "dns.port" ≡ some (number 7))
    × (get_json_path v' "mode" ≡ get_json_path (object config_fields) "mode")
get_json_path_mut_lem_example =
    get_json_path_mut_lem put_seven (object config_fields) (number 53) "dns.port" "mode"
      (λ e. absurd (ground (arith, eq_iff "dns.port" "", e)))
      (λ e. absurd (ground (arith, eq_iff "mode" "", e))) port_apart_from_mode config_has_port

overlay_keys : HasUniqueKeys (object overlay_fields)
unfolding HasUniqueKeys contains_field
overlay_keys = (refl, (refl, tt, tt), tt)

deep_merge_json_lem_example :
    HasEffect
      (effect ("dns" ∷ "port" ∷ []) (object overlay_fields))
      (reach ("dns" ∷ "port" ∷ []) (object config_fields))
      (reach ("dns" ∷ "port" ∷ []) (deep_merge_json (object config_fields) (object overlay_fields)))
    × (deep_merge_json (object overlay_fields) (object overlay_fields) ≡ object overlay_fields)
deep_merge_json_lem_example =
    deep_merge_json_lem ("dns" ∷ "port" ∷ []) (object config_fields) (object overlay_fields)
      overlay_keys
