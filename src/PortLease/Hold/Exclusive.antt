-- ===== src/PortLease/Hold/Exclusive.antt =====
-- lib/port-lease.py: what `hold` does to the claims of the whole host.
use frappe_nix.Prelude.{
  ℕ, ◌≡◌, ◌≢◌, refl, ap, ◌∙◌, subst, true, false, none, some, List, [], ◌∷◌, contains, number_eq,
  if◌then◌else◌, arith,
}
use frappe_nix.PortLease.Claims.{Env, Backend, Identity, Claims, Reason, holding}
use frappe_nix.PortLease.Walk.{Want}
use frappe_nix.PortLease.Hold.{
  Args, Lease, no_lease, Progress, going, crashed, release_all, Outcome, refused, checked, died,
  leased, lease_all, finish_taken, finish, hold_ports,
}
use frappe_nix.PortLease.Hold.Laws.{
  release_all-with_ports, Owns, OwnsAfter, lease_all-Owns, no_lease-Owns,
}

module _ (env : Env) (backend : Backend) (me : Identity) (args : Args) (before : Claims) where
  abbrev Settled : Outcome × Claims → Type 0
  Settled (leased lease, after) = Owns env backend me args before lease after
  Settled (_, after) = after ≡ before

  released :
      (lease : Lease) (claims : Claims)
      → Owns env backend me args before lease claims
      → release_all lease.ports claims ≡ before
  released lease claims o =
      ap (release_all lease.ports) o.added
      ∙ release_all-with_ports backend me lease.ports before o.free

  finish_taken-Settled :
      (taken : List (Want × Reason)) (lease : Lease) (claims : Claims)
      → Owns env backend me args before lease claims
      → Settled (finish_taken env backend me args taken lease claims)
  finish_taken-Settled [] lease claims o =
      elim args.dry_run
        as (λ dry.
          Settled
            (if dry then (checked, release_all lease.ports claims) else (leased lease, claims))) [
              | true ↦ released lease claims o
              | false ↦ o
            ]
  finish_taken-Settled (t ∷ ts) lease claims o = released lease claims o

  finish-Settled :
      (p : Progress)
      → OwnsAfter env backend me args before p
      → Settled (finish env backend me args p)
  finish-Settled (going lease claims) o = finish_taken-Settled lease.taken lease claims o
  finish-Settled (crashed lease claims) o = released lease claims o

  hold_ports-Settled : Settled (hold_ports env backend me args before)
  unfolding hold_ports
  hold_ports-Settled = finish-Settled (lease_all env backend me args args.want no_lease before) (
      lease_all-Owns env backend me args before args.want no_lease before
        (no_lease-Owns env backend me args before))

  -- When `hold` gets its ports, each of them was claimed by nobody before, all of them are claimed
  -- by this bench now, and no other claim of the host has changed.
  pub hold_leased :
      {lease : Lease} {after : Claims}
      → hold_ports env backend me args before ≡ (leased lease, after)
      → ((q : ℕ) → contains lease.ports q ≡ true → before q ≡ none)
        × ((q : ℕ)
            → after q ≡ (if contains lease.ports q then some (holding backend me) else before q))
  hold_leased {lease} {after} h =
      let o : Owns env backend me args before lease after = subst Settled h hold_ports-Settled in
      (o.free, λ q. ap (λ (c : Claims). c q) o.added)

  unchanged :
      (outcome : Outcome) (after : Claims)
      → ((lease : Lease) → outcome ≢ leased lease)
      → Settled (outcome, after)
      → after ≡ before
  unchanged (leased lease) after n s = absurd (n lease refl)
  unchanged (refused a b) after n s = s
  unchanged checked after n s = s
  unchanged died after n s = s

  -- A refusal, a dry run and an end by an exception leave every claim of the host as it was.
  pub hold_not_leased :
      (outcome : Outcome) (after : Claims)
      → hold_ports env backend me args before ≡ (outcome, after)
      → ((lease : Lease) → outcome ≢ leased lease)
      → after ≡ before
  hold_not_leased outcome after h n = unchanged outcome after n (subst Settled h hold_ports-Settled)

module _ (env : Env) (backend : Backend) (me : Identity) (args : Args) where
  abbrev pub Wet : Outcome → Type 0
  Wet o = (lease : Lease) → o ≡ leased lease → args.dry_run ≡ false

  finish_taken-Wet :
      (taken : List (Want × Reason)) (lease : Lease) (claims : Claims)
      → Wet (finish_taken env backend me args taken lease claims).0
  finish_taken-Wet [] lease claims found e = ground (arith, e)
  finish_taken-Wet (t ∷ ts) lease claims found e = cc

  finish-Wet : (p : Progress) → Wet (finish env backend me args p).0
  finish-Wet (going lease claims) = finish_taken-Wet lease.taken lease claims
  finish-Wet (crashed lease claims) = λ found e. cc

  -- A dry run leases nothing.
  pub hold_ports-Wet : (claims : Claims) → Wet (hold_ports env backend me args claims).0
  unfolding hold_ports
  hold_ports-Wet claims = finish-Wet (lease_all env backend me args args.want no_lease claims)

module _ (env env' : Env) (backend : Backend) (a b : Identity) (args args' : Args) where
  -- Two benches that start one after the other on one host never lease the same port.
  pub hold_disjoint :
      {lease lease' : Lease} (before : Claims) {between after : Claims}
      → hold_ports env backend a args before ≡ (leased lease, between)
      → hold_ports env' backend b args' between ≡ (leased lease', after)
      → (q : ℕ) → contains lease.ports q ≡ true
      → contains lease'.ports q ≡ false
  hold_disjoint {lease} {lease'} before {between} {after} h h' q mine = ground (
    arith,
    (hold_leased env backend a args before h).1 q,
    (hold_leased env' backend b args' between h').0 q,
  )
