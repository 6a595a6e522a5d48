-- ===== src/PortLease/Walk/Search.antt =====
-- The walk against a plain search for the first port that settles it.
use frappe_nix.Prelude.{
  ℕ, zero, suc, ◌+◌, ◌≤◌, ◌<◌, String, ◌≡◌, refl, Bool, true, false, not, ◌&&◌, ◌||◌, Option, none,
  some, List, contains, number_eq, if◌then◌else◌, arith, Bool-cases, inl, inr, Option-cases,
  eq_or_lt,
}
use frappe_nix.PortLease.Claims.{
  Env, Backend, Identity, Claims, claim, tcp_free, Reason, set_claim, holding, outside, or_reason,
  describe,
}
use frappe_nix.PortLease.Claims.Laws.{release-set_claim}
use frappe_nix.PortLease.Walk.{
  Walked, found, exhausted, failed, Attempt, won, next, broke, attempt, walk,
}

-- The first of `count` numbers from `port` on that passes the test.
unfoldable pub first_from : (ℕ → Bool) → ℕ → ℕ → Option ℕ
first_from test zero port = none
first_from test (suc count) port =
    let rest = first_from test count (suc port) in if test port then some port else rest

-- What it finds lies in the range, passes, and nothing before it passes.
pub first_from_sound :
    (test : ℕ → Bool) (count port : ℕ) {p : ℕ}
    → first_from test count port ≡ some p
    → (port ≤ p) × (p < port + count) × (test p ≡ true)
unfolding first_from
first_from_sound test zero port h = cc
first_from_sound test (suc count) port {p} h = elim (Bool-cases (test port)) [
  | inl hit ↦ ground (arith, hit)
  | inr miss ↦ ground (arith, miss, first_from_sound test count (suc port) {p = p})
]

pub first_from_least :
    (test : ℕ → Bool) (count port : ℕ) {p : ℕ}
    → first_from test count port ≡ some p
    → (q : ℕ) → port ≤ q
    → q < p
    → test q ≡ false
unfolding first_from
first_from_least test zero port h q le lt = cc
first_from_least test (suc count) port {p} h q le lt = elim (Bool-cases (test port)) [
  | inl hit ↦ absurd (ground (arith, hit))
  | inr miss ↦ elim (eq_or_lt port q le) [
    | inl e ↦ rw e miss
    | inr past ↦ first_from_least test count (suc port) {p = p} (rw (miss) at h) q past lt
  ]
]

pub first_from-none :
    (test : ℕ → Bool) (count port : ℕ)
    → first_from test count port ≡ none
    → (q : ℕ) → port ≤ q
    → q < port + count
    → test q ≡ false
unfolding first_from
first_from-none test zero port h q le lt = absurd (omega arith)
first_from-none test (suc count) port h q le lt = elim (Bool-cases (test port)) [
  | inl hit ↦ cc (rw hit at h)
  | inr miss ↦ elim (eq_or_lt port q le) [
    | inl e ↦ rw e miss
    | inr past ↦ first_from-none test count (suc port) (rw miss at h) q past (omega arith)
  ]
]

abbrev is_none {ℓ} : {A : Type ℓ} → Option A → Bool
is_none none = true
is_none (some x) = false

module _ (env : Env) (backend : Backend) (me : Identity) (host : String) (got : List ℕ) where
  -- Nobody has the port: not this bench, no other bench, no process outside frappe-nix.
  abbrev pub available : Claims → ℕ → Bool
  available claims q =
      not (contains got q) && not (env.fails q) && is_none (claims q) && tcp_free env host q

  -- The port ends the walk: it is available, or its claim raises.
  abbrev pub settles : Claims → ℕ → Bool
  settles claims q =
      not (contains got q) && (env.fails q || is_none (claims q) && tcp_free env host q)

  abbrev pub end_of : Walked → Option ℕ
  end_of (found p first claims) = some p
  end_of (exhausted first claims) = none
  end_of (failed p claims) = some p

  abbrev pub claims_of : Walked → Claims
  claims_of (found p first claims) = claims
  claims_of (exhausted first claims) = claims
  claims_of (failed p claims) = claims

  -- What the first taken port was called, after one more port that the walk passed over.
  abbrev reason_at : ℕ → Reason → Claims → Reason
  reason_at port first claims =
      if contains got port
      then first
      else if is_none (claims port)
      then or_reason first outside
      else or_reason first (describe env port host claims)

  abbrev round : ℕ → Reason → Claims → Attempt
  round port first claims =
      if settles claims port
      then if env.fails port then broke else won (set_claim port (some (holding backend me)) claims)
      else next (reason_at port first claims) claims

  attempt_lem :
      (port : ℕ) (first : Reason) (claims : Claims)
      → attempt env backend me host got port first claims ≡ round port first claims
  unfolding attempt claim
  attempt_lem port first claims = elim (Option-cases (claims port)) [
    | inl free ↦ ground (arith, free, release-set_claim port (holding backend me) claims free)
    | inr (h, held) ↦ ground (arith, held)
  ]

  -- After the walk the host's claims are what they were, with the port that was found added.
  abbrev pub claims_after : Claims → Walked → Claims
  claims_after claims (found p first _) = set_claim p (some (holding backend me)) claims
  claims_after claims (exhausted first _) = claims
  claims_after claims (failed p _) = claims

  -- A port is found only where it is available, and the walk fails only where its claim raises.
  abbrev pub EndsRight : Claims → Walked → Type 0
  EndsRight claims (found p first _) = available claims p ≡ true
  EndsRight claims (exhausted first _) = Unit
  EndsRight claims (failed p _) = (env.fails p ≡ true) × (contains got p ≡ false)

  -- The whole walk against the search: where it ends, what it claimed, and why.
  pub walk_lem :
      (count port : ℕ) (first : Reason) (claims : Claims)
      → let w = walk env backend me host got count port first claims in
        (end_of w ≡ first_from (settles claims) count port)
        × (claims_of w ≡ claims_after claims w)
        × EndsRight claims w
  unfolding walk first_from
  walk_lem zero port first claims = (refl, refl, tt)
  walk_lem (suc count) port first claims = ground (
    arith,
    attempt_lem port first claims,
    walk_lem count (suc port) (reason_at port first claims) claims,
  )
