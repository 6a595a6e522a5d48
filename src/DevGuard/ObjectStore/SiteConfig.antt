-- ===== src/DevGuard/ObjectStore/SiteConfig.antt =====
-- `_patch_get_site_config` of objectstore.py: local mode forces the apps' own switch to local disk.
-- A block of the configuration is a dictionary of flags, or something else.
use frappe_nix.Prelude.{
  String, ◌≡◌, refl, Bool, true, false, not, Option, none, some, [], ◌∷◌, string_eq, ◌==◌,
  if◌then◌else◌, arith, ◌||◌, eq_iff,
}
use frappe_nix.Prelude.Dict.{Dict, lookup, insert, lookup-insert}
use frappe_nix.DevGuard.ObjectStore.{Settings, local, is_push, mode}

pub data Section : Type 0 where
  flags : Dict String Bool → Section
  other : Section

abbrev pub Config : Type 0
Config = Dict String Section

abbrev pub is_on : Option Bool → Bool
is_on none = false
is_on (some b) = b

-- One block: a dictionary whose flag is not set gets it.
abbrev pub force_section : String → Option Section → String → Config → Config
force_section name none flag config = config
force_section name (some other) flag config = config
force_section name (some (flags d)) flag config =
    if is_on (lookup flag d) then config else insert name (flags (insert flag true d)) config

abbrev pub force_all : Dict String String → Config → Config
force_all [] config = config
force_all ((name, flag) ∷ keys) config =
    force_all keys (force_section name (lookup name config) flag config)

abbrev pub local_mode_keys : Dict String String
local_mode_keys = ("cloud_storage_settings", "use_local") ∷ []

unfoldable pub get_site_config : Settings → Config → Config
get_site_config st config =
    if not st.enabled || is_push (mode st) then config else force_all local_mode_keys config

-- The block is a dictionary with the flag off.
abbrev pub uses_store : String → String → Config → Bool
uses_store name flag config = elim (lookup name config) [
  | none ↦ false
  | some other ↦ false
  | some (flags d) ↦ not (is_on (lookup flag d))
]

force_section_lem :
    (name flag : String) (config : Config)
    → uses_store name flag (force_section name (lookup name config) flag config) ≡ false
force_section_lem name flag config = go (lookup name config) refl
  where
    go :
        (s : Option Section)
        → lookup name config ≡ s
        → uses_store name flag (force_section name s flag config) ≡ false
    go none e = ground (arith, e)
    go (some other) e = ground (arith, e)
    go (some (flags d)) e = ground (
      arith,
      e,
      eq_iff name name,
      eq_iff flag flag,
      lookup-insert name name (flags (insert flag true d)) config,
      lookup-insert flag flag true d,
    )

force_section_ne :
    (name flag k : String) (config : Config)
    → (name == k) ≡ false
    → lookup k (force_section name (lookup name config) flag config) ≡ lookup k config
force_section_ne name flag k config n = go (lookup name config)
  where
    go : (s : Option Section) → lookup k (force_section name s flag config) ≡ lookup k config
    go none = refl
    go (some other) = refl
    go (some (flags d)) =
        ground (arith, n, lookup-insert name k (flags (insert flag true d)) config)

-- With the guard on and in local mode, the configuration that frappe reads never leaves the
-- cloud storage app at the bucket, and every other block of it is the configured one.
pub get_site_config_local :
    (st : Settings) (config : Config)
    → st.enabled ≡ true
    → mode st ≡ local
    → (uses_store "cloud_storage_settings" "use_local" (get_site_config st config) ≡ false)
      × ((k : String)
          → ("cloud_storage_settings" == k) ≡ false
          → lookup k (get_site_config st config) ≡ lookup k config)
unfolding get_site_config
get_site_config_local st config on l =
    simp (on, l)
      (
        force_section_lem "cloud_storage_settings" "use_local" config,
        λ k n. force_section_ne "cloud_storage_settings" "use_local" k config n,
      )
