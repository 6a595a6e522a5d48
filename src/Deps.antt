-- ===== src/Deps.antt =====
-- py/frappe_nix_tools/frappe_nix_tools/deps: what a bench has of its dependencies.
pub mod BenchPatches
pub mod SetupRequirements
