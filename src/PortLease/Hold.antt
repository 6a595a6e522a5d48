-- ===== src/PortLease/Hold.antt =====
-- `hold` of lib/port-lease.py up to the point where it writes anything: the loop over the wanted
-- ports, and what becomes of the claims. The texts that it prints are not modelled, but for the
-- listing of the ports that it refuses.
pub mod Laws
pub mod Exclusive
pub mod Assigned
pub mod Served
pub mod Ports
use frappe_nix.Prelude.{
  ℕ, String, Bool, true, false, not, ◌||◌, List, [], ◌∷◌, ◌++◌, map, contains, keep, string_eq,
  number_eq, ◌==◌, if◌then◌else◌,
}
use frappe_nix.Prelude.Dict.{Dict, insert}
use frappe_nix.PortLease.Claims.{Env, Backend, Identity, Claims, Reason, unsaid, release}
use frappe_nix.PortLease.Walk.{
  Want, Walked, found, exhausted, failed, walk, last_port, range_length,
}

-- The command line of `hold`.
pub record Args : Type 0 where
  pub strict : Bool
  pub pin : List String
  pub span : ℕ
  pub dry_run : Bool
  pub want : List Want

-- The variables `claims` (their ports), `got`, `moved` and `taken`.
pub record Lease : Type 0 where
  pub ports : List ℕ
  pub got : Dict String ℕ
  pub moved : Dict String ℕ
  pub taken : List (Want × Reason)

abbrev pub no_lease : Lease
no_lease = record { ports = []; got = []; moved = []; taken = [] }

abbrev pub values : Dict String ℕ → List ℕ
values = map (λ (_, p). p)

abbrev pub is_strict : Args → Want → Bool
is_strict args w = args.strict || contains args.pin w.key

-- `crashed`: an exception passes through, and ends the process.
pub data Progress : Type 0 where
  going crashed : Lease → Claims → Progress

abbrev pub settle : Want → Lease → Walked → Progress
settle w lease (found port first claims) =
    going
      (record lease {
        ports = lease.ports ++ port ∷ [];
        got = insert w.key port lease.got;
        moved = if port == w.port then lease.moved else insert w.key w.port lease.moved;
      })
      claims
settle w lease (exhausted first claims) =
    going (record lease { taken = lease.taken ++ (w, first) ∷ [] }) claims
settle w lease (failed port claims) = crashed lease claims

-- `for c in claims: c.release()`
unfoldable pub release_all : List ℕ → Claims → Claims
unfolding release
release_all [] claims = claims
release_all (port ∷ ports) claims = release_all ports (release port claims)

-- Exit 1 with the refused wants and those whose walk found nothing, exit 0 of a dry run, the end
-- by an exception, or the lease that is up.
pub data Outcome : Type 0 where
  refused : List (Want × Reason) → List (Want × Reason) → Outcome
  checked died : Outcome
  leased : Lease → Outcome

module _ (env : Env) (backend : Backend) (me : Identity) (args : Args) where
  unfoldable pub lease_one : Want → Lease → Claims → Progress
  lease_one w lease claims =
      let strict = is_strict args w in
      settle w lease (
        walk env backend me w.host (values lease.got) (range_length strict args.span w.port) w.port
          unsaid claims)

  unfoldable pub lease_all : List Want → Lease → Claims → Progress
  lease_all [] lease claims = going lease claims
  lease_all (w ∷ ws) lease claims = elim (lease_one w lease claims) [
    | going lease' claims' ↦ lease_all ws lease' claims'
    | crashed lease' claims' ↦ crashed lease' claims'
  ]

  abbrev pub finish_taken : List (Want × Reason) → Lease → Claims → Outcome × Claims
  finish_taken [] lease claims =
      if args.dry_run then (checked, release_all lease.ports claims) else (leased lease, claims)
  finish_taken (t ∷ ts) lease claims = (
    refused (keep (λ (w, _). is_strict args w) (t ∷ ts))
        (keep (λ (w, _). not (is_strict args w)) (t ∷ ts)),
    release_all lease.ports claims,
  )

  -- After the loop: a refusal and a dry run release every claim, and so does the kernel when an
  -- exception ends the process.
  abbrev pub finish : Progress → Outcome × Claims
  finish (crashed lease claims) = (died, release_all lease.ports claims)
  finish (going lease claims) = finish_taken lease.taken lease claims

  unfoldable pub hold_ports : Claims → Outcome × Claims
  unfolding lease_all
  hold_ports claims = finish (lease_all args.want no_lease claims)
