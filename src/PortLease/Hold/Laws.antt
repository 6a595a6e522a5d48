-- ===== src/PortLease/Hold/Laws.antt =====
-- The invariant of the loop over the wanted ports: the claims are those before the loop with this
-- bench's ports added, and none of these was claimed before.
use mathlib.Core.Path.{fun_ext}
use frappe_nix.Prelude.{
  ℕ, ◌≡◌, refl, sym, ap, Bool-cases, inl, inr, ◌∙◌, true, none, some, List, [], ◌∷◌, ◌++◌, contains,
  contains-append, number_eq, string_eq, ◌==◌, if◌then◌else◌, arith,
}
use frappe_nix.PortLease.Claims.{
  Env, Backend, Identity, Claims, unsaid, release, holding, set_claim,
}
use frappe_nix.PortLease.Walk.{Want, Walked, found, exhausted, failed, range_length}
use frappe_nix.PortLease.Walk.Search.{walk_lem, claims_of, claims_after, EndsRight}
use frappe_nix.Prelude.Dict.{insert}
use frappe_nix.PortLease.Hold.{
  Args, Lease, no_lease, values, is_strict, Progress, going, crashed, settle, release_all,
  lease_one, lease_all,
}

-- Nobody's claim stands in the list.
abbrev pub Unclaimed : Claims → List ℕ → Type 0
Unclaimed claims ports = (q : ℕ) → contains ports q ≡ true → claims q ≡ none

-- The claims with some ports added for one bench.
abbrev pub with_ports : Backend → Identity → List ℕ → Claims → Claims
with_ports backend me ports claims q =
    if contains ports q then some (holding backend me) else claims q

pub release_all_lem :
    (ports : List ℕ) (claims : Claims) (q : ℕ)
    → release_all ports claims q ≡ (if contains ports q then none else claims q)
unfolding release_all
release_all_lem [] claims q = refl
release_all_lem (p ∷ ports) claims q = ground (arith, release_all_lem ports (release p claims) q)

-- Releasing what was added gives the claims back.
pub release_all-with_ports :
    (backend : Backend) (me : Identity) (ports : List ℕ) (claims : Claims)
    → Unclaimed claims ports
    → release_all ports (with_ports backend me ports claims) ≡ claims
release_all-with_ports backend me ports claims free =
    fun_ext
      λ q. ground (arith, release_all_lem ports (with_ports backend me ports claims) q, free q)

module _ (env : Env) (backend : Backend) (me : Identity) (args : Args) (before : Claims) where
  pub record Owns (lease : Lease) (claims : Claims) : Type 0 where
    pub added : claims ≡ with_ports backend me lease.ports before
    pub free : Unclaimed before lease.ports

  abbrev pub OwnsAfter : Progress → Type 0
  OwnsAfter (going lease claims) = Owns lease claims
  OwnsAfter (crashed lease claims) = Owns lease claims

  with_ports-append :
      (ports : List ℕ) (p : ℕ)
      → set_claim p (some (holding backend me)) (with_ports backend me ports before)
        ≡ with_ports backend me (ports ++ p ∷ []) before
  with_ports-append ports p = fun_ext λ q. ground (arith, contains-append ports (p ∷ []) q)

  Owns-found :
      (lease lease' : Lease) (claims : Claims) (p : ℕ)
      → Owns lease claims
      → claims p ≡ none
      → lease'.ports ≡ lease.ports ++ p ∷ []
      → Owns lease' (set_claim p (some (holding backend me)) claims)
  Owns-found lease lease' claims p o unheld e = record {
    added =
        ap (set_claim p (some (holding backend me))) o.added
        ∙ with_ports-append lease.ports p
        ∙ ap (λ (ports : List ℕ). with_ports backend me ports before) (sym e);
    free = λ q m. elim (Bool-cases (contains lease.ports q)) [
      | inl old ↦ o.free q old
      | inr new ↦ ground (
        arith,
        contains-append lease.ports (p ∷ []) q,
        ap (λ (ports : List ℕ). contains ports q) e,
        ap (λ (c : Claims). c q) o.added,
      )
    ];
  }

  settle-Owns :
      (w : Want) (lease : Lease) (claims : Claims) (walked : Walked)
      → Owns lease claims
      → claims_of env backend me w.host (values lease.got) walked
        ≡ claims_after env backend me w.host (values lease.got) claims walked
      → EndsRight env backend me w.host (values lease.got) claims walked
      → OwnsAfter (settle w lease walked)
  settle-Owns w lease claims (found p first after) o same ends = rw same (
      Owns-found lease
        (record lease {
          ports = lease.ports ++ p ∷ [];
          got = insert w.key p lease.got;
          moved = if p == w.port then lease.moved else insert w.key w.port lease.moved;
        })
        claims p o (ground arith) refl)
  settle-Owns w lease claims (exhausted first after) o same ends =
      rw same (record { added = o.added; free = o.free })
  settle-Owns w lease claims (failed p after) o same ends =
      rw same (record { added = o.added; free = o.free })

  pub lease_one-Owns :
      (w : Want) (lease : Lease) (claims : Claims)
      → Owns lease claims
      → OwnsAfter (lease_one env backend me args w lease claims)
  unfolding lease_one
  lease_one-Owns w lease claims o =
      let (ends, same, right) =
        walk_lem env backend me w.host (values lease.got)
          (range_length (is_strict args w) args.span w.port) w.port unsaid claims in
      settle-Owns w lease claims _ o same right

  pub lease_all-Owns :
      (ws : List Want) (lease : Lease) (claims : Claims)
      → Owns lease claims
      → OwnsAfter (lease_all env backend me args ws lease claims)
  unfolding lease_all
  lease_all-Owns [] lease claims o = o
  lease_all-Owns (w ∷ ws) lease claims o =
      go (lease_one env backend me args w lease claims) (lease_one-Owns w lease claims o)
        (λ lease' claims'. lease_all-Owns ws lease' claims')
    where
      go :
          (p : Progress)
          → OwnsAfter p
          → ((lease' : Lease) (claims' : Claims)
              → Owns lease' claims'
              → OwnsAfter (lease_all env backend me args ws lease' claims'))
          → OwnsAfter (elim p [
            | going lease' claims' ↦ lease_all env backend me args ws lease' claims'
            | crashed lease' claims' ↦ crashed lease' claims'
          ])
      go (going lease' claims') o' rest = rest lease' claims' o'
      go (crashed lease' claims') o' rest = o'

  pub no_lease-Owns : Owns no_lease before
  no_lease-Owns = record { added = refl; free = λ q m. cc }
