-- ===== src/Plugin/Permission/Examples.antt =====
-- The theorems about permissions at concrete sets.
use mathlib.Core.List.{Memᴰ}
use clash_prism_engine.Base.{◌≡◌, ◌↔◌, true, List, [], ◌∷◌}
use clash_prism_engine.Plugin.Permission.{
  Permission, config_read, store_read_write, store_read, is_permitted,
}
use clash_prism_engine.Plugin.Permission.Coverage.{required, is_permitted_iff}

abbrev held : List Permission
held = config_read ∷ store_read_write ∷ []

is_permitted_iff_example : (is_permitted held store_read ≡ true) ↔ Memᴰ (required store_read) held
is_permitted_iff_example = is_permitted_iff held store_read
