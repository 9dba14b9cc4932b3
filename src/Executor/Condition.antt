-- ===== src/Executor/Condition.antt =====
-- crates/clash-prism-core/src/executor.rs: whether a patch applies in an execution context. The
-- package regex and `str::to_lowercase` are parameters; a cached expression is one compiled again.
use Prim.Native.Char.{Char}
use mathlib.Core.List.{drop_last}
use clash_prism_engine.Base.{
  ℕ, String, Bool, true, false, ◌&&◌, ◌||◌, Option, none, some, List, [], ◌∷◌, ◌++◌, if◌then◌else◌,
  ◌==◌, string_eq, ltb, length,
}
use clash_prism_engine.Base.Text.{
  chars, of_chars, is_char, trim, replace_pair, any_char, starts_with_char, ends_with_char,
}
use clash_prism_engine.Scope.{
  Platform, windows, macos, linux, android, ios, TimeRange, Scope, global, profile, scoped, runtime,
  contains,
}
use clash_prism_engine.Ir.{Patch}

-- What the source takes of other code: `Regex::is_match` behind the compilation of a pattern, which
-- gives nothing for a pattern that does not compile, and `regex::escape`.
pub record Texts : Type 0 where
  pub is_match : (pattern text : String) → Option Bool
  pub escape : String → String
  pub to_lowercase : String → String

pub record ExecutionContext : Type 0 where
  pub core_type : Option String
  pub platform : Option String
  pub profile_name : Option String
  pub ssid : Option String

pub empty_context : ExecutionContext
empty_context = record { core_type = none; platform = none; profile_name = none; ssid = none }

pub platform_name : Platform → String
platform_name windows = "windows"
platform_name macos = "macos"
platform_name linux = "linux"
platform_name android = "android"
platform_name ios = "ios"

module _ (texts : Texts) where
  -- `get_exec_cached_regex` and `is_match`, false where the pattern does not compile.
  pub matches : String → String → Bool
  matches pattern text = elim (texts.is_match pattern text) [ none ↦ false | some b ↦ b ]

  -- The slice `[1..len - 1]` of a text.
  pub inner : List Char → List Char
  inner [] = []
  inner (c ∷ cs) = drop_last cs

  -- A text matched against a regular expression between slashes.
  pub regex_matches : String → List Char → Bool
  regex_matches profile_name pattern = matches (of_chars (inner pattern)) profile_name

  -- A text matched against a pattern with stars and question marks.
  pub wildcard_matches : String → List Char → Bool
  wildcard_matches profile_name pattern =
      let escaped = chars (texts.escape (of_chars pattern)) in
      let stars = replace_pair 92 42 ("." ∷ "*" ∷ []) escaped in
      let marks = replace_pair 92 63 ("." ∷ []) stars in
      matches (of_chars ("^" ∷ marks ++ "$" ∷ [])) profile_name

  pub profile_matches : (profile_name scope_profile : String) → Bool
  profile_matches profile_name scope_profile =
      let pattern = trim (chars scope_profile) in
      if profile_name == scope_profile
      then true
      else if starts_with_char 47 pattern && ends_with_char 47 pattern && ltb 2 (length pattern)
      then regex_matches profile_name pattern
      else if any_char (is_char 42) pattern || any_char (is_char 63) pattern
      then wildcard_matches profile_name pattern
      else false

  pub any_profile : String → List String → Bool
  any_profile ctx_profile [] = false
  any_profile ctx_profile (sp ∷ sps) = profile_matches ctx_profile sp || any_profile ctx_profile sps

  pub any_platform : String → List Platform → Bool
  any_platform ctx_platform [] = false
  any_platform ctx_platform (p ∷ ps) =
      let name = texts.to_lowercase (platform_name p) in
      (name == ctx_platform || name == "all" || ctx_platform == "all")
      || any_platform ctx_platform ps

  -- The conditions of a `Scope::Scoped`, one for each of its early returns.
  pub ssid_matches : Option String → Option String → Bool
  ssid_matches none current = true
  ssid_matches (some expected) none = false
  ssid_matches (some expected) (some current) = current == expected

  -- The minute of the day stands for the clock that `is_active_now` reads.
  pub time_matches : Option TimeRange → ℕ → Bool
  time_matches none now = true
  time_matches (some range) now = contains range now

  pub core_matches : Option String → Option String → Bool
  core_matches (some scope_core) (some ctx_core) = scope_core == ctx_core
  core_matches _ _ = true

  pub platform_matches : Option (List Platform) → Option String → Bool
  platform_matches (some platforms) (some ctx) = any_platform (texts.to_lowercase ctx) platforms
  platform_matches _ _ = true

  pub profiles_match : Option (List String) → Option String → Bool
  profiles_match none ctx = true
  profiles_match (some profiles) none = false
  profiles_match (some profiles) (some ctx) = any_profile ctx profiles

  pub is_enabled : Option Bool → Bool
  is_enabled (some false) = false
  is_enabled _ = true

  pub check_scope : ℕ → Scope → ExecutionContext → Bool
  check_scope now global context = true
  check_scope now (profile scope_profile) context = elim context.profile_name [
    | none ↦ false
    | some pname ↦ profile_matches pname scope_profile
  ]
  check_scope now (scoped profiles platforms core time_range enabled ssid) context =
      is_enabled enabled
      && ssid_matches ssid context.ssid
      && time_matches time_range now
      && core_matches core context.core_type
      && platform_matches platforms context.platform
      && profiles_match profiles context.profile_name
  check_scope now runtime context = true

  unfoldable pub check_patch_condition : {V : Type 0} → ℕ → Patch V → ExecutionContext → Bool
  check_patch_condition now patch context = check_scope now patch.scope context
