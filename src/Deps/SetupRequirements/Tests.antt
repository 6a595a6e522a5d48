-- ===== src/Deps/SetupRequirements/Tests.antt =====
-- A bench whose verification fails.
use frappe_nix.Prelude.{ℕ, ◌≡◌, refl, true, false, [], ◌∷◌, string_eq, number_eq, all}
use frappe_nix.Deps.SetupRequirements.{
  Config, Command, verify, install, requirements, parse_from, body,
}
use frappe_nix.Deps.SetupRequirements.Checks.{is_checked, check_attempts}

abbrev bench : Config
bench = record { has_apps_with_node = true; is_app_mode = false }

abbrev damaged : Command → ℕ
damaged (verify check) = 1
damaged _ = 0

ran : body bench damaged [] ≡ (1, verify false ∷ install ∷ requirements ∷ [])
unfolding body parse_from
ran = refl

unknown_first : body bench damaged ("--node" ∷ "--nod" ∷ "--help" ∷ []) ≡ (2, [])
unfolding body parse_from
unknown_first = refl

check_attempts_example : all is_checked (body bench damaged ("--node" ∷ "--check" ∷ [])).1 ≡ true
check_attempts_example = check_attempts bench damaged ("--node" ∷ "--check" ∷ []) refl
