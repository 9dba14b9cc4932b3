-- ===== src/Scope.antt =====
-- crates/clash-prism-core/src/scope.rs: the scopes of patches, their builder and time ranges.
pub mod Window
mod Examples
use clash_prism_engine.Base.{
  ℕ, ◌+◌, ◌*◌, String, Bool, true, false, ◌&&◌, ◌||◌, Option, List, ltb, leb, eqb, if◌then◌else◌,
}

pub data Platform : Type 0 where
  windows macos linux android ios : Platform

-- Hours and minutes are `u8`.
pub record TimeRange : Type 0 where
  pub start : ℕ × ℕ
  pub end : ℕ × ℕ

pub data Scope : Type 0 where
  global : Scope
  profile : String → Scope
  scoped :
      (profile : Option (List String)) (platform : Option (List Platform)) (core : Option String)
      (time_range : Option TimeRange) (enabled : Option Bool) (ssid : Option String)
      → Scope
  runtime : Scope

pub is_global : Scope → Bool
is_global global = true
is_global _ = false

pub priority : Scope → ℕ
priority global = 1
priority (profile _) = 0
priority (scoped _ _ _ _ _ _) = 2
priority runtime = 3

-- `u16` values; they stay below 2 ^ 16 since hours and minutes are bytes.
pub contains : TimeRange → ℕ → Bool
contains r total_minutes =
    let start_minutes = r.start.0 * 60 + r.start.1 in
    let end_minutes = r.end.0 * 60 + r.end.1 in
    if eqb start_minutes end_minutes
    then true
    else if ltb start_minutes end_minutes
    then leb start_minutes total_minutes && leb total_minutes end_minutes
    else leb start_minutes total_minutes || leb total_minutes end_minutes
