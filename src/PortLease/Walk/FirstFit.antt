-- ===== src/PortLease/Walk/FirstFit.antt =====
-- lib/port-lease.py, the loop over the ports in `hold`: the walk takes the first available port.
use frappe_nix.Prelude.{ℕ, ◌+◌, ◌≤◌, ◌<◌, String, ◌≡◌, sym, subst, true, false, some, List, arith}
use frappe_nix.PortLease.Claims.{Env, Backend, Identity, Claims, Reason, set_claim, holding}
use frappe_nix.PortLease.Walk.{Walked, found, exhausted, walk}
use frappe_nix.PortLease.Walk.Search.{
  first_from, first_from_sound, first_from_least, first_from-none, available, settles, end_of,
  claims_of, claims_after, EndsRight, walk_lem,
}

module _ (env : Env) (backend : Backend) (me : Identity) (host : String) (got : List ℕ)
    (count port : ℕ) (first : Reason) (claims : Claims) where
  unsettled :
      (q : ℕ)
      → settles env backend me host got claims q ≡ false
      → available env backend me host got claims q ≡ false
  unsettled q h = ground (arith, h)

  abbrev Right : Walked → Type 0
  Right w =
      (end_of env backend me host got w
        ≡ first_from (settles env backend me host got claims) count port)
      × (claims_of env backend me host got w ≡ claims_after env backend me host got claims w)
      × EndsRight env backend me host got claims w

  -- When the walk finds a port, it is the first available one of the range: nobody had it, it is
  -- claimed now, no other claim has changed, and no port before it was available.
  pub walk_found :
      {p : ℕ} {why : Reason} {after : Claims}
      → walk env backend me host got count port first claims ≡ found p why after
      → (port ≤ p)
        × (p < port + count)
        × (available env backend me host got claims p ≡ true)
        × (after ≡ set_claim p (some (holding backend me)) claims)
        × ((q : ℕ) → port ≤ q → q < p → available env backend me host got claims q ≡ false)
  walk_found {p} {why} {after} h =
      let (ends, same, right) : Right (found p why after) =
        subst Right h (walk_lem env backend me host got count port first claims) in
      let test = settles env backend me host got claims in
      let (low, high, _) = first_from_sound test count port {p = p} (sym ends) in
      (
        low,
        high,
        right,
        same,
        λ q le lt. unsettled q (first_from_least test count port {p = p} (sym ends) q le lt),
      )

  -- When the walk ends with no port, none of the range was available, and no claim has changed.
  pub walk_exhausted :
      {why : Reason} {after : Claims}
      → walk env backend me host got count port first claims ≡ exhausted why after
      → (after ≡ claims)
        × ((q : ℕ)
            → port ≤ q
            → q < port + count
            → available env backend me host got claims q ≡ false)
  walk_exhausted {why} {after} h =
      let (ends, same, right) : Right (exhausted why after) =
        subst Right h (walk_lem env backend me host got count port first claims) in
      (
        same,
        λ q le lt. unsettled q (
            first_from-none (settles env backend me host got claims) count port (sym ends) q le lt),
      )
