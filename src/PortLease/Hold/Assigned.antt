-- ===== src/PortLease/Hold/Assigned.antt =====
-- lib/port-lease.py: the ports that `hold` ends up with are distinct and in their ranges.
use frappe_nix.Prelude.{
  ℕ, ◌+◌, ◌-◌, ◌≤◌, ◌<◌, String, ◌≡◌, refl, sym, ◌∙◌, ap, Bool, true, false, ◌&&◌, some, List, [],
  ◌∷◌, ◌++◌, any, contains, leb, number_eq, string_eq, ◌==◌, if◌then◌else◌, arith, eq_iff,
}
use frappe_nix.Prelude.Dict.{Dict, lookup, insert, lookup-insert}
use frappe_nix.PortLease.Claims.{Env, Backend, Identity, Claims, unsaid}
use frappe_nix.PortLease.Walk.{Want, Walked, found, exhausted, failed, last_port, range_length}
use frappe_nix.PortLease.Walk.Search.{walk_lem, EndsRight, end_of, settles, first_from_sound}
use frappe_nix.PortLease.Hold.{
  Args, Lease, values, is_strict, Progress, going, crashed, settle, lease_one, lease_all,
}

-- The port lies in the range that `hold` may walk for the want: the preferred port alone when the
-- want is strict or pinned, `span` ports from it, and none above 65535, otherwise.
abbrev pub in_range : Args → Want → ℕ → Bool
in_range args w p = leb w.port p && leb p (last_port (is_strict args w) args.span w.port)

-- Some want of the list has the key, and the port in its range.
abbrev pub wanted : Args → String → ℕ → List Want → Bool
wanted args k p = any (λ w. w.key == k && in_range args w p)

abbrev pub has_key : String → List Want → Bool
has_key k = any (λ w. w.key == k)

in_range_of :
    (port last p : ℕ) → port ≤ p → p < port + (last + 1 - port) → (leb port p && leb p last) ≡ true
in_range_of port last p h k = ground arith

lookup-values :
    (got : Dict String ℕ) (k : String) (p : ℕ)
    → lookup k got ≡ some p
    → contains (values got) p ≡ true
lookup-values [] k p h = cc
lookup-values ((j, q) ∷ got) k p h = ground (arith, lookup-values got k p)

module _ (args : Args) (all : List Want) where
  -- The invariant of the loop. Each key has one port, in the range of a want with that key.
  pub record Assigned (lease : Lease) : Type 0 where
    pub distinct :
        (j k : String) (p : ℕ) → lookup j lease.got ≡ some p → lookup k lease.got ≡ some p → j ≡ k
    pub ranged : (k : String) (p : ℕ) → lookup k lease.got ≡ some p → wanted args k p all ≡ true

  abbrev pub AssignedAfter : Progress → Type 0
  AssignedAfter (going lease claims) = Assigned lease
  AssignedAfter (crashed lease claims) = Assigned lease

  Assigned-insert :
      (w : Want) (lease lease' : Lease) (p : ℕ)
      → Assigned lease
      → contains (values lease.got) p ≡ false
      → wanted args w.key p all ≡ true
      → lease'.got ≡ insert w.key p lease.got
      → Assigned lease'
  Assigned-insert w lease lease' p a fresh ok e = record {
    distinct = λ j k q hj hk. ground (
      arith,
      ap (λ (d : Dict String ℕ). lookup j d) e,
      ap (λ (d : Dict String ℕ). lookup k d) e,
      lookup-insert w.key j p lease.got,
      lookup-insert w.key k p lease.got,
      lookup-values lease.got j p,
      lookup-values lease.got k p,
      a.distinct j k q,
      eq_iff w.key j,
      eq_iff w.key k,
    );
    ranged = λ k q h. ground (
      arith,
      ap (λ (d : Dict String ℕ). lookup k d) e,
      lookup-insert w.key k p lease.got,
      a.ranged k q,
      eq_iff w.key k,
      ok,
    );
  }

  module _ (env : Env) (backend : Backend) (me : Identity) where
    settle-Assigned :
        (w : Want) (lease : Lease) (claims : Claims) (walked : Walked)
        → Assigned lease
        → ((p : ℕ)
            → end_of env backend me w.host (values lease.got) walked ≡ some p
            → wanted args w.key p all ≡ true)
        → EndsRight env backend me w.host (values lease.got) claims walked
        → AssignedAfter (settle w lease walked)
    settle-Assigned w lease claims (found p first after) a range ends =
        Assigned-insert w lease
          (record lease {
            ports = lease.ports ++ p ∷ [];
            got = insert w.key p lease.got;
            moved = if p == w.port then lease.moved else insert w.key w.port lease.moved;
          })
          p a (ground arith) (range p refl) refl
    settle-Assigned w lease claims (exhausted first after) a range ends = record {
      distinct = a.distinct;
      ranged = a.ranged;
    }
    settle-Assigned w lease claims (failed p after) a range ends = a

    lease_one-Assigned :
        (w : Want) (lease : Lease) (claims : Claims)
        → Assigned lease
        → ((p : ℕ) → in_range args w p ≡ true → wanted args w.key p all ≡ true)
        → AssignedAfter (lease_one env backend me args w lease claims)
    unfolding lease_one
    lease_one-Assigned w lease claims a known =
        let strict = is_strict args w in
        let count = range_length strict args.span w.port in
        let test = settles env backend me w.host (values lease.got) claims in
        let (ends, same, right) =
          walk_lem env backend me w.host (values lease.got) count w.port unsaid claims in
        settle-Assigned w lease claims _ a
          (λ p e.
            let (low, high, _) = first_from_sound test count w.port {p = p} (sym ends ∙ e) in
            known p (in_range_of w.port (last_port strict args.span w.port) p low high))
          right

    pub lease_all-Assigned :
        (ws : List Want) (lease : Lease) (claims : Claims)
        → Assigned lease
        → ((k : String) (p : ℕ) → wanted args k p ws ≡ true → wanted args k p all ≡ true)
        → AssignedAfter (lease_all env backend me args ws lease claims)
    unfolding lease_all
    lease_all-Assigned [] lease claims a known = a
    lease_all-Assigned (w ∷ ws) lease claims a known =
        go (lease_one env backend me args w lease claims)
          (lease_one-Assigned w lease claims a
            (λ p h. known w.key p (ground (arith, h, eq_iff w.key w.key))))
          (λ lease' claims' a'.
            lease_all-Assigned ws lease' claims' a' (λ k p h. known k p (ground (arith, h))))
      where
        go :
            (p : Progress)
            → AssignedAfter p
            → ((lease' : Lease) (claims' : Claims)
                → Assigned lease'
                → AssignedAfter (lease_all env backend me args ws lease' claims'))
            → AssignedAfter (elim p [
              | going lease' claims' ↦ lease_all env backend me args ws lease' claims'
              | crashed lease' claims' ↦ crashed lease' claims'
            ])
        go (going lease' claims') a' rest = rest lease' claims' a'
        go (crashed lease' claims') a' rest = a'
