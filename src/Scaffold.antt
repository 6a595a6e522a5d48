-- ===== src/Scaffold.antt =====
-- py/frappe_nix_tools/frappe_nix_tools/scaffold: the parts of a file that sync leaves to the app.
pub mod Regions
pub mod Globs
pub mod Blocks
mod Tests
