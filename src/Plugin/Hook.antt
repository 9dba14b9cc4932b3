-- ===== src/Plugin/Hook.antt =====
-- crates/clash-prism-plugin/src/hook.rs: the lifecycle hooks a plugin can listen to.
use text.Mathlib.Text.{◌==◌ as str_eq}
use text.Mathlib.TextEquality.{eq_iff}
use clash_prism_engine.Base.{ℕ, String, Bool, ◌≡◌, ◌↔◌, true, arith, Eq, eqb, List, [], ◌∷◌}

pub data Hook : Type 0 where
  on_subscribe_fetch on_subscribe_parsed on_merged on_before_write : Hook
  on_before_core_start on_core_stopped on_app_ready on_shutdown : Hook
  on_schedule : String → Hook

-- The position of the variant, as the derived `PartialEq` compares it first.
abbrev tag : Hook → ℕ
tag on_subscribe_fetch = 0
tag on_subscribe_parsed = 1
tag on_merged = 2
tag on_before_write = 3
tag on_before_core_start = 4
tag on_core_stopped = 5
tag on_app_ready = 6
tag on_shutdown = 7
tag (on_schedule _) = 8

unfoldable pub hook_beq : Hook → Hook → Bool
hook_beq (on_schedule a) (on_schedule b) = str_eq a b
hook_beq a b = eqb (tag a) (tag b)

pub hook_beq_iff : (a b : Hook) → (hook_beq a b ≡ true) ↔ (a ≡ b)
unfolding hook_beq
hook_beq_iff (on_schedule a) (on_schedule b) = ground (arith, eq_iff a b)
hook_beq_iff a b = ground arith

instance abbrev pub hook_eq : Eq Hook
hook_eq = record { test = hook_beq; test_iff = hook_beq_iff }

unfoldable pub builtin_hooks : List Hook
builtin_hooks =
    on_subscribe_fetch ∷ on_subscribe_parsed ∷ on_merged ∷ on_before_write ∷ on_before_core_start
    ∷ on_core_stopped ∷ on_app_ready ∷ on_shutdown ∷ []
