-- ===== src/DevGuard.antt =====
-- lib/devguard: the guards that keep a development bench away from production.
pub mod ObjectStore
pub mod Frappe
pub mod Mail
