-- ===== src/PortLease/Hold/Ports.antt =====
-- lib/port-lease.py: the ports that `hold` ends up with.
use frappe_nix.Prelude.{
  ℕ, String, ◌≡◌, ◌≢◌, refl, ap, subst, true, false, none, some, List, [], ◌∷◌, number_eq,
  string_eq, if◌then◌else◌, arith,
}
use frappe_nix.Prelude.Dict.{lookup}
use frappe_nix.PortLease.Claims.{Env, Backend, Identity, Claims, Reason}
use frappe_nix.PortLease.Walk.{Want}
use frappe_nix.PortLease.Hold.{
  Args, Lease, no_lease, Progress, going, crashed, Outcome, checked, leased, lease_all, release_all,
  finish, finish_taken, hold_ports,
}
use frappe_nix.PortLease.Hold.Assigned.{
  wanted, has_key, Assigned, AssignedAfter, lease_all-Assigned,
}
use frappe_nix.PortLease.Hold.Served.{some_taken, is_served, ServedAfter, lease_all-Served}

module _ (env : Env) (backend : Backend) (me : Identity) (args : Args) where
  abbrev LeasedRight : Outcome → Type 0
  LeasedRight (leased lease) =
      Assigned args args.want lease
      × ((k : String) → has_key k args.want ≡ true → lookup k lease.got ≢ none)
  LeasedRight _ = Unit

  finish_taken-LeasedRight :
      (taken : List (Want × Reason)) (lease : Lease) (claims : Claims)
      → lease.taken ≡ taken
      → Assigned args args.want lease
      → ((k : String) → has_key k args.want ≡ true → is_served lease k ≡ true)
      → LeasedRight (finish_taken env backend me args taken lease claims).0
  finish_taken-LeasedRight [] lease claims e a s =
      elim args.dry_run
        as (λ dry. LeasedRight (
          let r : Outcome × Claims =
            if dry then (checked, release_all lease.ports claims) else (leased lease, claims) in
          r.0)) [ true ↦ tt | false ↦ (a, λ k h n. ground (arith, s k h, ap some_taken e, n)) ]
  finish_taken-LeasedRight (t ∷ ts) lease claims e a s = tt

  finish-LeasedRight :
      (p : Progress)
      → AssignedAfter args args.want p
      → ServedAfter env backend me args args.want no_lease p
      → LeasedRight (finish env backend me args p).0
  finish-LeasedRight (going lease claims) a s =
      finish_taken-LeasedRight lease.taken lease claims refl a (λ k h. s k (ground (arith, h)))
  finish-LeasedRight (crashed lease claims) a s = tt

  hold_ports-LeasedRight : (claims : Claims) → LeasedRight (hold_ports env backend me args claims).0
  unfolding hold_ports
  hold_ports-LeasedRight claims =
      finish-LeasedRight (lease_all env backend me args args.want no_lease claims)
        (lease_all-Assigned args args.want env backend me args.want no_lease claims
          (record { distinct = λ j k p h. cc; ranged = λ k p h. cc }) (λ k p h. h))
        (lease_all-Served env backend me args args.want no_lease claims)

  -- When `hold` gets its ports, every wanted key has a port; no two keys have the same port; and
  -- the port of a key lies in the range of a want with that key: the preferred port alone if the
  -- want is strict or pinned, and otherwise the `span` ports from it on, none above 65535.
  pub hold_assigns :
      (claims : Claims) {lease : Lease} {after : Claims}
      → hold_ports env backend me args claims ≡ (leased lease, after)
      → ((k : String) → has_key k args.want ≡ true → lookup k lease.got ≢ none)
        × ((j k : String) (p : ℕ)
            → lookup j lease.got ≡ some p
            → lookup k lease.got ≡ some p
            → j ≡ k)
        × ((k : String) (p : ℕ) → lookup k lease.got ≡ some p → wanted args k p args.want ≡ true)
  hold_assigns claims {lease} h =
      let r : LeasedRight (leased lease) =
        subst (λ (o : Outcome × Claims). LeasedRight o.0) h (hold_ports-LeasedRight claims) in
      (r.1, r.0.distinct, r.0.ranged)
