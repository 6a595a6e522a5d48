-- ===== src/DevGuard/Frappe/Registered.antt =====
-- _frappe.py: who is registered after an endpoint was replaced.
use frappe_nix.Prelude.{
  ℕ, ◌≡◌, refl, sym, ◌∙◌, ap, Bool, true, false, not, ◌&&◌, ◌||◌, List, [], ◌∷◌, number_eq, ◌==◌,
  contains, contains-append, contains-keep, keep, if◌then◌else◌, arith, if_intro, Bool-cases, inl,
  inr, ◌⊎◌,
}
use frappe_nix.DevGuard.Frappe.{
  Registry, as_list, as_set, members, replace_first, add, swap_present, swap_in_registry, Endpoints,
  rewhitelist,
}

replace_first_lem :
    (o r f : ℕ) (fs : List ℕ)
    → (f == o) ≡ false
    → contains fs o ≡ true
    → contains (replace_first o r fs) f ≡ (contains fs f || r == f)
replace_first_lem o r f [] other has = cc
replace_first_lem o r f (g ∷ fs) other has = elim (Bool-cases (g == o)) [
  | inl here ↦ ground (arith, here, other)
  | inr there ↦ ground (arith, there, replace_first_lem o r f fs other (ground (arith, has, there)))
]

add-contains : (r f : ℕ) (fs : List ℕ) → contains (add r fs) f ≡ (contains fs f || r == f)
add-contains r f fs =
    if_intro (λ xs. contains xs f ≡ (contains fs f || r == f)) (contains fs r)
      (λ e. go (Bool-cases (r == f)) e) (λ e. contains-append fs (r ∷ []) f ∙ ground arith)
  where
    go :
        (r == f ≡ true) ⊎ (r == f ≡ false)
        → contains fs r ≡ true
        → contains fs f ≡ (contains fs f || r == f)
    go (inl same) e =
        let is : r ≡ f = ground (arith, same) in rw (sym (ap (contains fs) is) ∙ e) refl
    go (inr no') e = ground (arith, no')

discard_lem :
    (o f : ℕ) (fs : List ℕ)
    → (f == o) ≡ false
    → contains (keep (λ g. not (g == o)) fs) f ≡ contains fs f
discard_lem o f fs other = contains-keep (λ g. not (g == o)) fs f ∙ ground (arith, other)

-- Whether a registry has a function other than the one that is replaced.
swap_others :
    (registry : Registry) (o r f : ℕ) (missing : Bool)
    → (f == o) ≡ false
    → contains (members (swap_in_registry registry o r missing)) f
      ≡ (contains (members registry) f || r == f && (contains (members registry) o || missing))
unfolding swap_in_registry
swap_others (as_list fs) o r f missing other = go (contains fs o) missing refl
  where
    go :
        (present missing : Bool)
        → contains fs o ≡ present
        → contains
            (members (
              if not (present || missing)
              then as_list fs
              else swap_present o r present (as_list fs)))
            f
          ≡ (contains fs f || r == f && (present || missing))
    go true missing e = replace_first_lem o r f fs other e ∙ ground arith
    go false true e = contains-append fs (r ∷ []) f ∙ ground arith
    go false false e = ground arith
swap_others (as_set fs) o r f missing other = go (contains fs o) missing refl
  where
    after : contains (add r (keep (λ g. not (g == o)) fs)) f ≡ (contains fs f || r == f)
    after = add-contains r f (keep (λ g. not (g == o)) fs) ∙ rw (discard_lem o f fs other) refl

    go :
        (present missing : Bool)
        → contains fs o ≡ present
        → contains
            (members (
              if not (present || missing) then as_set fs else swap_present o r present (as_set fs)))
            f
          ≡ (contains fs f || r == f && (present || missing))
    go true missing e = after ∙ ground arith
    go false true e = after ∙ ground arith
    go false false e = ground arith

-- Once a replacement stands for an endpoint, every function but those two is registered, open to guests and
-- exempt from the filter just as it was; the replacement is registered, and it is open to guests, or exempt
-- from the filter, only if it or the endpoint was, so nothing is opened wider.
pub rewhitelist_exact :
    {M : Type 0} (o r f : ℕ) (e : Endpoints M)
    → (f == o) ≡ false
    → (contains (members (rewhitelist o r e).whitelisted) f
        ≡ (contains (members e.whitelisted) f || r == f))
      × (contains (members (rewhitelist o r e).guest_methods) f ≡ (
          contains (members e.guest_methods) f || r == f && contains (members e.guest_methods) o))
      × (contains (members (rewhitelist o r e).xss_safe_methods) f ≡ (
          contains (members e.xss_safe_methods) f
          || r == f && contains (members e.xss_safe_methods) o))
unfolding rewhitelist
rewhitelist_exact o r f e other = (
  swap_others e.whitelisted o r f true other
      ∙ whole (contains (members e.whitelisted) f) (r == f) (contains (members e.whitelisted) o),
  swap_others e.guest_methods o r f false other
      ∙ same (contains (members e.guest_methods) f) (r == f) (contains (members e.guest_methods) o),
  swap_others e.xss_safe_methods o r f false other
      ∙ same (contains (members e.xss_safe_methods) f) (r == f)
          (contains (members e.xss_safe_methods) o),
)
  where
    whole : (a b c : Bool) → (a || b && (c || true)) ≡ (a || b)
    whole a b c = ground arith

    same : (a b c : Bool) → (a || b && (c || false)) ≡ (a || b && c)
    same a b c = ground arith
