-- ===== src/DevGuard/ObjectStore/Tests.antt =====
-- Runs and instances over the store in memory.
use frappe_nix.Prelude.{
  ℕ, String, ◌≡◌, ◌≢◌, refl, true, false, none, some, [], ◌∷◌, codes, arith, string_eq, ◌==◌,
  if◌then◌else◌, ◌&&◌, eq_iff,
}
use mathlib.Core.Bool.{false≢true}
use frappe_nix.Prelude.Url.{urlsplit, hostname}
use frappe_nix.DevGuard.ObjectStore.{
  Settings, mode, Client, guarded, is_loopback, Params, make_api_call,
}
use frappe_nix.DevGuard.ObjectStore.Additive.{Keeps, make_api_call-Keeps}
use frappe_nix.DevGuard.ObjectStore.Unconditional.{complete_replaces}
use frappe_nix.DevGuard.ObjectStore.Memory.{Versions, memory, memory_call, memory-IsLawful}
use frappe_nix.DevGuard.ObjectStore.SiteConfig.{Config, flags}

abbrev pushing : Settings
pushing = record { enabled = true; mode_text = codes " Push"; conditional_writes = true }

abbrev unconditional : Settings
unconditional = record { enabled = true; mode_text = codes "push"; conditional_writes = false }

abbrev staying : Settings
staying = record { enabled = true; mode_text = codes "elsewhere"; conditional_writes = true }

abbrev production : Client
production = record { service = some "s3"; endpoint = codes "https://s3.example.com" }

abbrev minio : Client
minio = record { service = some "s3"; endpoint = codes "http://localhost:9000" }

guards_production : guarded pushing production ≡ true
unfolding guarded is_loopback urlsplit hostname
guards_production = refl

spares_minio : guarded pushing minio ≡ false
unfolding guarded is_loopback urlsplit hostname
spares_minio = refl

abbrev put_file : Params ℕ
put_file = record {
  bucket = some "files";
  key = some "a";
  if_match = none;
  if_none_match = none;
  objects = [];
  body = some 2;
}

abbrev one_file : Versions
one_file b k = if b == "files" && k == "a" then some 1 else none

make_api_call-Keeps_example :
    Keeps memory one_file
      (make_api_call memory pushing (λ t. t) production "PutObject" put_file one_file).1
make_api_call-Keeps_example =
    make_api_call-Keeps memory memory-IsLawful pushing (λ t. t) production "PutObject" put_file
      one_file guards_production refl (λ t b k o h. h)

put_ne_complete : ◌≡◌ {A = String} "PutObject" "CompleteMultipartUpload" → ⊥
put_ne_complete e = false≢true ((eq_iff "PutObject" "CompleteMultipartUpload").1 e)

complete_replaces_example :
    memory.object
      (make_api_call memory unconditional
        (λ t. t)
        production
        "CompleteMultipartUpload"
        put_file
        one_file).1
      "files"
      "a"
    ≢ some 1
unfolding guarded is_loopback urlsplit hostname mode memory_call
complete_replaces_example =
    complete_replaces memory unconditional (λ t. t) production put_file one_file "files" "a" 1 refl
      refl refl refl refl (λ e. ground (arith, e))

abbrev restored : Config
restored = ("cloud_storage_settings", flags (("use_local", false) ∷ [])) ∷ []
