-- ===== src/Pins.antt =====
-- py/frappe_nix_tools/frappe_nix_tools/common/pins.py: locked trees on disk.
pub mod Token
pub mod Tree
mod Tests
