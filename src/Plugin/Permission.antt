-- ===== src/Plugin/Permission.antt =====
-- crates/clash-prism-plugin/src/permission.rs: permissions and the API actions they cover.
pub mod Coverage
mod Examples
use clash_prism_engine.Base.{Bool, true, false, ◌||◌, List, [], ◌∷◌}

pub data Permission : Type 0 where
  config_read config_write proxy_test proxy_select store_read_write : Permission
  network_outbound ui_notify ui_dialog ui_page ui_tray : Permission

pub data PermissionAction : Type 0 where
  config_read config_write proxy_test proxy_select store_read store_write : PermissionAction
  network_outbound ui_notify ui_dialog ui_page ui_tray : PermissionAction

pub all : List Permission
all =
    config_read ∷ config_write ∷ proxy_test ∷ proxy_select ∷ store_read_write ∷ network_outbound
    ∷ ui_notify ∷ ui_dialog ∷ ui_page ∷ ui_tray ∷ []

pub allowed_for_config_plugin : Permission → Bool
allowed_for_config_plugin network_outbound = false
allowed_for_config_plugin ui_dialog = false
allowed_for_config_plugin ui_page = false
allowed_for_config_plugin ui_tray = false
allowed_for_config_plugin _ = true

pub allowed_for_ui_extension : Permission → Bool
allowed_for_ui_extension config_write = false
allowed_for_ui_extension proxy_test = false
allowed_for_ui_extension _ = true

pub matches_action : Permission → PermissionAction → Bool
matches_action config_read config_read = true
matches_action config_write config_write = true
matches_action proxy_test proxy_test = true
matches_action proxy_select proxy_select = true
matches_action store_read_write store_read = true
matches_action store_read_write store_write = true
matches_action network_outbound network_outbound = true
matches_action ui_notify ui_notify = true
matches_action ui_dialog ui_dialog = true
matches_action ui_page ui_page = true
matches_action ui_tray ui_tray = true
matches_action _ _ = false

-- `permissions.iter().any(..)`.
pub is_permitted : List Permission → PermissionAction → Bool
is_permitted [] action = false
is_permitted (p ∷ ps) action = matches_action p action || is_permitted ps action
