-- ===== src/PortLease/Hold/Served.antt =====
-- lib/port-lease.py: every want of `hold` gets a port or is in `taken`.
use frappe_nix.Prelude.{
  String, ◌≡◌, refl, Bool, true, false, ◌||◌, Option, none, some, List, [], ◌∷◌, ◌++◌, number_eq,
  string_eq, ◌==◌, arith,
}
use frappe_nix.Prelude.Dict.{lookup, lookup-insert}
use frappe_nix.PortLease.Claims.{Env, Backend, Identity, Claims, Reason}
use frappe_nix.PortLease.Walk.{Want, Walked, found, exhausted, failed}
use frappe_nix.PortLease.Hold.{Args, Lease, Progress, going, crashed, settle, lease_one, lease_all}
use frappe_nix.PortLease.Hold.Assigned.{has_key}

abbrev pub some? {ℓ} : {A : Type ℓ} → Option A → Bool
some? none = false
some? (some x) = true

abbrev pub some_taken : List (Want × Reason) → Bool
some_taken [] = false
some_taken (t ∷ ts) = true

some_taken-append :
    (ts us : List (Want × Reason)) → some_taken (ts ++ us) ≡ (some_taken ts || some_taken us)
some_taken-append [] us = refl
some_taken-append (t ∷ ts) us = refl

-- The key has a port, or some want is in `taken`.
abbrev pub is_served : Lease → String → Bool
is_served lease k = some? (lookup k lease.got) || some_taken lease.taken

module _ (env : Env) (backend : Backend) (me : Identity) (args : Args) where
  -- Serving goes on: what is served stays so, and the next want is served.
  abbrev Serves : Want → Lease → Progress → Type 0
  Serves w lease (going lease' claims) =
      (k : String) → (w.key == k || is_served lease k) ≡ true → is_served lease' k ≡ true
  Serves w lease (crashed lease' claims) = Unit

  settle-Serves :
      (w : Want) (lease : Lease) (walked : Walked) → Serves w lease (settle w lease walked)
  settle-Serves w lease (found p first after) =
      λ k h. ground (arith, h, lookup-insert w.key k p lease.got)
  settle-Serves w lease (exhausted first after) =
      λ k h. ground (arith, some_taken-append lease.taken ((w, first) ∷ []))
  settle-Serves w lease (failed p after) = tt

  lease_one-Serves :
      (w : Want) (lease : Lease) (claims : Claims)
      → Serves w lease (lease_one env backend me args w lease claims)
  unfolding lease_one
  lease_one-Serves w lease claims = settle-Serves w lease _

  abbrev pub ServedAfter : List Want → Lease → Progress → Type 0
  ServedAfter ws lease (going lease' claims) =
      (k : String) → (has_key k ws || is_served lease k) ≡ true → is_served lease' k ≡ true
  ServedAfter ws lease (crashed lease' claims) = Unit

  pub lease_all-Served :
      (ws : List Want) (lease : Lease) (claims : Claims)
      → ServedAfter ws lease (lease_all env backend me args ws lease claims)
  unfolding lease_all
  lease_all-Served [] lease claims = λ k h. h
  lease_all-Served (w ∷ ws) lease claims =
      go (lease_one env backend me args w lease claims) (lease_one-Serves w lease claims)
        (lease_all-Served ws)
    where
      step :
          (lease' : Lease) (p : Progress)
          → ((k : String) → (w.key == k || is_served lease k) ≡ true → is_served lease' k ≡ true)
          → ServedAfter ws lease' p
          → ServedAfter (w ∷ ws) lease p
      step lease' (going l c) one rest = λ k h. rest k (ground (arith, h, one k))
      step lease' (crashed l c) one rest = tt

      go :
          (p : Progress)
          → Serves w lease p
          → ((lease' : Lease) (claims' : Claims)
              → ServedAfter ws lease' (lease_all env backend me args ws lease' claims'))
          → ServedAfter (w ∷ ws) lease (elim p [
            | going lease' claims' ↦ lease_all env backend me args ws lease' claims'
            | crashed lease' claims' ↦ crashed lease' claims'
          ])
      go (going lease' claims') one rest =
          step lease' (lease_all env backend me args ws lease' claims') one (rest lease' claims')
      go (crashed lease' claims') one rest = tt
