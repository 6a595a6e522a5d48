-- ===== src/PortLease/Claims/Laws.antt =====
-- What a claim and its release do to the host's claims.
use mathlib.Core.Path.{fun_ext}
use frappe_nix.Prelude.{ℕ, ◌≡◌, none, some, number_eq, arith}
use frappe_nix.PortLease.Claims.{Holding, Claims, set_claim, release}

-- Releasing a claim that was just made puts the claims back.
pub release-set_claim :
    (port : ℕ) (h : Holding) (claims : Claims)
    → claims port ≡ none
    → release port (set_claim port (some h) claims) ≡ claims
unfolding release
release-set_claim port h claims free = fun_ext λ q. ground arith

-- Giving a port that nobody held back changes nothing.
pub release_free : (port : ℕ) (claims : Claims) → claims port ≡ none → release port claims ≡ claims
unfolding release
release_free port claims free = fun_ext λ q. ground arith
