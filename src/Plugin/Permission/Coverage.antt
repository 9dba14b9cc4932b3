-- ===== src/Plugin/Permission/Coverage.antt =====
-- Which permission covers which API action, and what config plugins and UI extensions can be
-- permitted.
use mathlib.Core.List.Memᴰ
use mathlib.Core.List.{Memᴰ}
use clash_prism_engine.Base.{
  ◌≡◌, ◌↔◌, refl, true, false, List, [], ◌∷◌, arith, All, Bool-cases, inl, inr,
}
use clash_prism_engine.Plugin.Permission.{
  Permission, PermissionAction, config_read, config_write, proxy_test, proxy_select,
  store_read_write, network_outbound, ui_notify, ui_dialog, ui_page, ui_tray, store_read,
  store_write, allowed_for_config_plugin, allowed_for_ui_extension, matches_action, is_permitted,
}

-- The permission that an action asks for.
abbrev pub required : PermissionAction → Permission
required config_read = config_read
required config_write = config_write
required proxy_test = proxy_test
required proxy_select = proxy_select
required store_read = store_read_write
required store_write = store_read_write
required network_outbound = network_outbound
required ui_notify = ui_notify
required ui_dialog = ui_dialog
required ui_page = ui_page
required ui_tray = ui_tray

matches_action_iff :
    (p : Permission) (a : PermissionAction) → (matches_action p a ≡ true) ↔ (required a ≡ p)
unfolding matches_action
matches_action_iff config_read config_read = ground arith
matches_action_iff p a = ground arith

-- A set of permissions allows an action exactly when the one permission that the action asks for
-- is among them.
pub is_permitted_iff :
    (ps : List Permission) (a : PermissionAction)
    → (is_permitted ps a ≡ true) ↔ Memᴰ (required a) ps
unfolding is_permitted
is_permitted_iff [] a = (λ e. cc, λ m. elim m [ ])
is_permitted_iff (p ∷ ps) a = (
  λ e. elim (Bool-cases (matches_action p a)) [
    | inl here ↦ Memᴰ.head ((matches_action_iff p a).0 here)
    | inr other ↦ Memᴰ.tail ((is_permitted_iff ps a).0 (rw other at e))
  ],
  λ m. elim (Memᴰ.cases_cons m) [
    | inl here ↦ rw ((matches_action_iff p a).1 here)
    | inr later ↦ ground (arith, (is_permitted_iff ps a).1 later)
  ],
)

-- Whatever permissions a plugin holds, if all are allowed for config plugins then no network access
-- and no dialog, page or tray action is permitted; if all are allowed for UI extensions then neither
-- writing the configuration nor testing proxies is.
pub is_permitted_confined :
    (ps : List Permission)
    → (All (λ p. allowed_for_config_plugin p ≡ true) ps
        → (is_permitted ps network_outbound ≡ false)
          × (is_permitted ps ui_dialog ≡ false)
          × (is_permitted ps ui_page ≡ false)
          × (is_permitted ps ui_tray ≡ false))
      × (All (λ p. allowed_for_ui_extension p ≡ true) ps
          → (is_permitted ps config_write ≡ false) × (is_permitted ps proxy_test ≡ false))
unfolding is_permitted allowed_for_config_plugin allowed_for_ui_extension matches_action
is_permitted_confined [] = (λ h. (refl, refl, refl, refl), λ h. (refl, refl))
is_permitted_confined (p ∷ ps) =
    let (config, ui) = is_permitted_confined ps in
    (λ (h, hs). ground (arith, config hs), λ (h, hs). ground (arith, ui hs))
