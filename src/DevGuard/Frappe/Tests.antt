-- ===== src/DevGuard/Frappe/Tests.antt =====
-- An endpoint that guests may call is replaced.
use frappe_nix.Prelude.{ℕ, ◌≡◌, refl, ◌&&◌, ◌||◌, [], ◌∷◌, number_eq, ◌==◌, contains}
use frappe_nix.DevGuard.Frappe.{as_list, as_set, members, Endpoints, rewhitelist, swap_in_registry}
use frappe_nix.DevGuard.Frappe.Registered.{rewhitelist_exact}

abbrev stand_in : ℕ
stand_in = 9

abbrev endpoints : Endpoints ℕ
endpoints = record {
  whitelisted = as_set (1 ∷ 2 ∷ []);
  methods = (1, 0) ∷ [];
  guest_methods = as_list (1 ∷ []);
  xss_safe_methods = as_set (2 ∷ []);
}

replaced : (rewhitelist 1 stand_in endpoints).guest_methods ≡ as_list (stand_in ∷ [])
unfolding rewhitelist swap_in_registry
replaced = refl

rewhitelist_exact_example :
    (contains (members (rewhitelist 1 stand_in endpoints).whitelisted) stand_in
      ≡ (contains {A = ℕ} (1 ∷ 2 ∷ []) stand_in || stand_in == stand_in))
    × (contains (members (rewhitelist 1 stand_in endpoints).guest_methods) stand_in ≡ (
        contains {A = ℕ} (1 ∷ []) stand_in || stand_in == stand_in && contains {A = ℕ} (1 ∷ []) 1))
    × (contains (members (rewhitelist 1 stand_in endpoints).xss_safe_methods) stand_in ≡ (
        contains {A = ℕ} (2 ∷ []) stand_in || stand_in == stand_in && contains {A = ℕ} (2 ∷ []) 1))
rewhitelist_exact_example = rewhitelist_exact 1 stand_in stand_in endpoints refl
