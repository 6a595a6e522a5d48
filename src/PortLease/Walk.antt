-- ===== src/PortLease/Walk.antt =====
-- The walk of `hold` in lib/port-lease.py: from the preferred port of one wanted listener to the
-- end of its span, the first port that can be claimed and that nothing outside has bound.
pub mod Search
pub mod FirstFit
use frappe_nix.Prelude.{
  ℕ, zero, suc, ◌+◌, ◌-◌, String, Bool, true, false, Option, none, some, List, contains, number_eq,
  if◌then◌else◌, ltb,
}
use frappe_nix.PortLease.Claims.{
  Env, Backend, Identity, Claims, Claimed, claimed, in_use, raised, claim, release, tcp_free,
  Reason, unsaid, outside, or_reason, describe,
}

-- `Want`, as `parse_want` reads it from the command line.
pub record Want : Type 0 where
  pub key : String
  pub label : String
  pub host : String
  pub port : ℕ

-- One round of the loop over the ports: the port is won, the walk goes on, or `claim` raised.
pub data Attempt : Type 0 where
  won : Claims → Attempt
  next : Reason → Claims → Attempt
  broke : Attempt

-- The whole walk: a port, none (the loop's `else`), or an exception at a port.
pub data Walked : Type 0 where
  found : ℕ → Reason → Claims → Walked
  exhausted : Reason → Claims → Walked
  failed : ℕ → Claims → Walked

module _ (env : Env) (backend : Backend) (me : Identity) where
  abbrev check_claim : String → ℕ → Reason → Claims → Claimed → Attempt
  check_claim host port first claims (claimed mine) =
      if tcp_free env host port
      then won mine
      else next (or_reason first outside) (release port mine)
  check_claim host port first claims in_use =
      next (or_reason first (describe env port host claims)) claims
  check_claim host port first claims raised = broke

  unfoldable pub attempt : String → List ℕ → ℕ → Reason → Claims → Attempt
  attempt host got port first claims =
      if contains got port
      then next first claims
      else check_claim host port first claims (claim env backend me port claims)

  -- `count` is the number of ports left in the range.
  unfoldable pub walk : String → List ℕ → ℕ → ℕ → Reason → Claims → Walked
  walk host got zero port first claims = exhausted first claims
  walk host got (suc count) port first claims = elim (attempt host got port first claims) [
    | won mine ↦ found port first mine
    | next first' claims' ↦ walk host got count (suc port) first' claims'
    | broke ↦ failed port claims
  ]

abbrev pub max_port : ℕ
max_port = 65535

abbrev pub least : ℕ → ℕ → ℕ
least a b = if ltb b a then b else a

-- `last`, and the length of `range(want.port, last + 1)`
abbrev pub last_port : Bool → ℕ → ℕ → ℕ
last_port strict span port = if strict then port else least (port + span - 1) max_port

abbrev pub range_length : Bool → ℕ → ℕ → ℕ
range_length strict span port = last_port strict span port + 1 - port
