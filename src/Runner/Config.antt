-- ===== src/Runner/Config.antt =====
-- `Config` of runner.py: the options that the model reads. 0 switches a limit off.
use frappe_nix.Prelude.{ℕ, Bool, ltb, ◌||◌}

pub record Config : Type 0 where
  pub job_threads : ℕ
  pub restart_after_requests : ℕ
  pub restart_after_jobs : ℕ
  pub restart_idle_seconds : ℕ
  pub job_drain_seconds : ℕ
  pub dev : Bool

-- `bool(n)`
abbrev pub is_set : ℕ → Bool
is_set n = ltb 0 n

unfoldable pub has_restart_limit : Config → Bool
has_restart_limit c =
    is_set c.restart_after_requests || is_set c.restart_after_jobs || is_set c.restart_idle_seconds
