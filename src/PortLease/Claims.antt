-- ===== src/PortLease/Claims.antt =====
-- lib/port-lease.py: a claim on one port, who holds it, and the description of a taken port.
-- The kernel and the network are an `Env`: whether a claim's system call fails with an error other
-- than "in use", whether an address resolves, and whether something has it bound.
pub mod Laws
use frappe_nix.Prelude.{
  ℕ, String, ◌≡◌, Bool, true, false, not, ◌&&◌, Option, none, some, ◌==◌, number_eq, if◌then◌else◌,
}

pub record Env : Type 0 where
  pub fails : ℕ → Bool
  pub resolves : String → ℕ → Bool
  pub bound : String → ℕ → Bool

pub data Backend : Type 0 where
  abstract flock : Backend

pub record Identity : Type 0 where
  pub bench_id : String
  pub name : String
  pub root : String
  pub pid : ℕ

-- What a claim answers to `holder`: nothing (a connection that times out), no JSON object, or
-- the bench's identity.
pub data Reply : Type 0 where
  silent garbled : Reply
  named : Identity → Reply

pub record Holding : Type 0 where
  pub owner : Identity
  pub reply : Reply

-- The claims on the host, by port. The kernel drops a claim with the process that holds it.
abbrev pub Claims : Type 0
Claims = ℕ → Option Holding

-- A socket is not served before `serve`; the lock file has the identity at once.
abbrev pub first_reply : Backend → Identity → Reply
first_reply abstract me = silent
first_reply flock me = named me

abbrev pub holding : Backend → Identity → Holding
holding backend me = record { owner = me; reply = first_reply backend me }

abbrev pub set_claim : ℕ → Option Holding → Claims → Claims
set_claim port value claims q = if port == q then value else claims q

pub data Claimed : Type 0 where
  claimed : Claims → Claimed
  in_use raised : Claimed

-- `claim`: `in_use` is its `None`, `raised` an `OSError` that it passes on.
abbrev pub claim_free : Backend → Identity → ℕ → Claims → Option Holding → Claimed
claim_free backend me port claims (some other) = in_use
claim_free backend me port claims none = claimed (set_claim port (some (holding backend me)) claims)

unfoldable pub claim : Env → Backend → Identity → ℕ → Claims → Claimed
claim env backend me port claims =
    if env.fails port then raised else claim_free backend me port claims (claims port)

-- `Claim.release`
unfoldable pub release : ℕ → Claims → Claims
release port = set_claim port none

-- The identity that `holder` reads; every field is missing from an object that is no identity.
pub data Who : Type 0 where
  unknown : Who
  bench : Identity → Who

abbrev pub who_replies : Reply → Option Who
who_replies silent = none
who_replies garbled = some unknown
who_replies (named i) = some (bench i)

unfoldable pub holder : ℕ → Claims → Option Who
holder port claims = elim (claims port) [ none ↦ none | some h ↦ who_replies h.reply ]

unfoldable pub tcp_free : Env → String → ℕ → Bool
tcp_free env host port = env.resolves host port && not (env.bound host port)

-- The texts of `describe`, and the empty text that stands before the first one.
pub data Reason : Type 0 where
  unsaid outside is_free : Reason
  held_by : Who → Reason

unfoldable pub describe : Env → ℕ → String → Claims → Reason
unfolding holder tcp_free
describe env port host claims = elim (holder port claims) [
  | some w ↦ held_by w
  | none ↦ if not (tcp_free env host port) then outside else is_free
]

-- `first_holder or reason`
abbrev pub or_reason : Reason → Reason → Reason
or_reason unsaid new = new
or_reason old new = old
