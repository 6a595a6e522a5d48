-- ===== src/DevGuard/Frappe/Restored.antt =====
-- _frappe.py: the flag that `with_in_install` sets is as before afterwards.
use frappe_nix.Prelude.{◌≡◌, refl}
use frappe_nix.DevGuard.Frappe.{Ended, Local, with_in_install}

-- Whether the call returns or raises, it runs with the flag set, and leaves the flag as it was before, even
-- where it sets the flag itself; all else is what it left.
pub with_in_install_restores :
    {V W R : Type 0} (set : V) (original : Local V W → Ended R × Local V W) (l : Local V W)
    → ((with_in_install set original l).0 ≡ (original (record l { in_install = set })).0)
      × ((with_in_install set original l).1.in_install ≡ l.in_install)
      × ((with_in_install set original l).1.world
          ≡ (original (record l { in_install = set })).1.world)
unfolding with_in_install
with_in_install_restores set original l = (refl, refl, refl)
