-- ===== src/Plugin/Manifest.antt =====
-- crates/clash-prism-plugin/src/manifest.rs: the plugin manifest.
use clash_prism_engine.Base.{ℕ, String, Option, List}
use clash_prism_engine.Plugin.Permission.{Permission}
use clash_prism_engine.Plugin.Hook.{Hook}

pub data PluginType : Type 0 where
  config ui : PluginType

pub record PluginManifest : Type 0 where
  pub id : String
  pub name : String
  pub version : String
  pub plugin_type : PluginType
  pub permissions : List Permission
  pub hooks : List Hook
  pub entry : String
  pub scope : String
  pub timeout : ℕ
  pub author : Option String
  pub description : Option String
  pub min_engine_version : Option String
  pub checksum : Option String
