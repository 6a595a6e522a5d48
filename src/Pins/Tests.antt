-- ===== src/Pins/Tests.antt =====
-- Fetches and pinned trees at concrete inputs.
use frappe_nix.Prelude.{
  ℕ, ◌≡◌, refl, Bool, true, false, Option, some, List, [], ◌∷◌, codes, Text, text_eq, ◌==◌, All,
}
use frappe_nix.Prelude.Url.{urlsplit, hostname}
use frappe_nix.Pins.Token.{
  may_carry_token, scheme_of, netloc_of, redirect_request, follow, fetch, KeepsToken,
  fetch-KeepsToken,
}
use frappe_nix.Pins.Tree.{
  Right, absent, symlink, directory, Disk, Pin, done, fails, env_error, at_dest, config_error,
  holds, pin_path, pin_path_verified,
}

abbrev loopback_ip : Text → Bool
loopback_ip host = host == codes "127.0.0.1"

abbrev forge : Text
forge = codes "https://forge.test/a"

abbrev hops : List Text
hops = codes "https://FORGE.test/b" ∷ codes "https://storage.test/c" ∷ []

-- The token follows the first redirect, which stays on the host, and not the second.
fetch-hops :
    fetch loopback_ip (codes "t") forge hops
    ≡ (forge, true)
      ∷ (codes "https://FORGE.test/b", true)
      ∷ (codes "https://storage.test/c", false)
      ∷ []
unfolding fetch follow redirect_request may_carry_token scheme_of netloc_of urlsplit hostname
fetch-hops = refl

-- A redirect to http ends the fetch.
fetch_downgrade :
    fetch loopback_ip (codes "t") forge (codes "http://forge.test/b" ∷ []) ≡ (forge, true) ∷ []
unfolding fetch follow redirect_request may_carry_token scheme_of netloc_of urlsplit hostname
fetch_downgrade = refl

fetch_loopback :
    fetch loopback_ip (codes "t") (codes "http://127.0.0.1:80/a") []
    ≡ (codes "http://127.0.0.1:80/a", true) ∷ []
unfolding fetch follow redirect_request may_carry_token scheme_of netloc_of urlsplit hostname
fetch_loopback = refl

fetch-KeepsToken_example :
    All (KeepsToken loopback_ip forge) (fetch loopback_ip (codes "t") forge hops)
fetch-KeepsToken_example = fetch-KeepsToken loopback_ip (codes "t") forge hops

forge_https : (scheme_of loopback_ip forge == codes "https") ≡ true
unfolding scheme_of urlsplit
forge_https = refl

-- A tree is a number, and its hash is that number as a text.
abbrev hash_of : ℕ → Option Text
hash_of n = some (n ∷ [])

abbrev keep_tree : ℕ → ℕ
keep_tree n = n

abbrev get_tree : Pin → Option ℕ
get_tree p = some 7

abbrev frappe_pin : Pin
frappe_pin = record { name = codes "frappe"; rev = codes "abc"; nar_hash = 7 ∷ [] }

-- A tree of another hash stands at the destination.
abbrev stale : Disk ℕ
stale = record { in_store = absent; dest = directory 3 }

stale_replaced :
    pin_path hash_of keep_tree get_tree done false frappe_pin stale
    ≡ (at_dest, record { in_store = absent; dest = directory 7 })
unfolding pin_path holds
stale_replaced = refl

outside_pins :
    pin_path hash_of keep_tree get_tree done false (record frappe_pin { name = codes "a/b" }) stale
    ≡ (config_error, stale)
unfolding pin_path holds
outside_pins = refl

writable_copied :
    pin_path hash_of keep_tree get_tree done true frappe_pin
      (record { in_store = directory 7; dest = symlink })
    ≡ (at_dest, record { in_store = directory 7; dest = directory 7 })
unfolding pin_path holds
writable_copied = refl

-- The rename fails after the stale tree is gone.
rename_fails :
    pin_path hash_of keep_tree get_tree (fails absent) false frappe_pin stale
    ≡ (env_error, record { in_store = absent; dest = absent })
unfolding pin_path holds
rename_fails = refl

pin_path_verified_example :
    Right hash_of keep_tree get_tree done false frappe_pin stale
      (pin_path hash_of keep_tree get_tree done false frappe_pin stale)
pin_path_verified_example = pin_path_verified hash_of keep_tree get_tree done false frappe_pin stale
