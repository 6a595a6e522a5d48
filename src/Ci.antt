-- ===== src/Ci.antt =====
-- py/frappe_nix_tools/frappe_nix_tools/ci: the decisions of the workflows.
pub mod Verdict
pub mod Automerge
pub mod Release
pub mod Branches
pub mod Drift
