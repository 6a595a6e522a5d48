-- ===== src/DevGuard/Frappe.antt =====
-- lib/devguard/frappe_devguard/_frappe.py: replacing what Frappe has registered, and the flag that its validators read.
-- Functions are numbers; `inspect` and the class machinery of Python are not modelled.
pub mod Registered
pub mod Restored
mod Tests
use frappe_nix.Prelude.{
  ℕ, ◌≡◌, Bool, true, false, not, ◌&&◌, ◌||◌, Option, none, some, List, [], ◌∷◌, ◌++◌, number_eq,
  ◌==◌, contains, keep, if◌then◌else◌,
}
use frappe_nix.Prelude.Dict.{Dict, lookup, insert, erase}

-- How a call ends.
pub data Ended {ℓ} (R : Type ℓ) : Type ℓ where
  returned : R → Ended R
  raised : Ended R

-- `frappe.local`: its flag, of whatever type, and the rest.
pub record Local (V W : Type 0) : Type 0 where
  pub in_install : V
  pub world : W

-- `with_in_install`, with the value True of the flag.
unfoldable pub with_in_install :
    {V W R : Type 0} → V → (Local V W → Ended R × Local V W) → Local V W → Ended R × Local V W
with_in_install set original l =
    let (result, after) = original (record l { in_install = set }) in
    (result, record after { in_install = l.in_install })

-- A registry of Frappe: a list up to version 15, a set from 16 on, whose members are listed.
pub data Registry : Type 0 where
  as_list as_set : List ℕ → Registry

abbrev pub members : Registry → List ℕ
members (as_list fs) = fs
members (as_set fs) = fs

-- `registry[registry.index(original)] = replacement`
abbrev pub replace_first : ℕ → ℕ → List ℕ → List ℕ
replace_first original replacement [] = []
replace_first original replacement (f ∷ fs) =
    let rest = replace_first original replacement fs in
    if f == original then replacement ∷ fs else f ∷ rest

abbrev pub add : ℕ → List ℕ → List ℕ
add f fs = if contains fs f then fs else fs ++ f ∷ []

abbrev pub swap_present : ℕ → ℕ → Bool → Registry → Registry
swap_present original replacement present (as_list fs) =
    as_list (if present then replace_first original replacement fs else fs ++ replacement ∷ [])
swap_present original replacement present (as_set fs) =
    as_set (add replacement (keep (λ f. not (f == original)) fs))

-- `_swap_in_registry`
unfoldable pub swap_in_registry : Registry → ℕ → ℕ → Bool → Registry
swap_in_registry registry original replacement register_if_missing =
    let present = contains (members registry) original in
    if not (present || register_if_missing)
    then registry
    else swap_present original replacement present registry

-- What Frappe has registered of its endpoints; M is the methods that an endpoint allows.
pub record Endpoints (M : Type 0) : Type 0 where
  pub whitelisted : Registry
  pub methods : Dict ℕ M
  pub guest_methods : Registry
  pub xss_safe_methods : Registry

abbrev pub move : {M : Type 0} → ℕ → ℕ → Option M → Dict ℕ M → Dict ℕ M
move original replacement none d = erase original d
move original replacement (some ms) d = insert replacement ms (erase original d)

-- `rewhitelist`
unfoldable pub rewhitelist : {M : Type 0} → ℕ → ℕ → Endpoints M → Endpoints M
rewhitelist original replacement e = record {
  whitelisted = swap_in_registry e.whitelisted original replacement true;
  methods = move original replacement (lookup original e.methods) e.methods;
  guest_methods = swap_in_registry e.guest_methods original replacement false;
  xss_safe_methods = swap_in_registry e.xss_safe_methods original replacement false;
}
