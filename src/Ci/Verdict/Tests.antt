-- ===== src/Ci/Verdict/Tests.antt =====
-- Runs of the verdict, and its theorems at concrete requests.
use frappe_nix.Prelude.{Bool, ◌==◌, string_eq, ◌≡◌, refl, [], codes, Text, text_eq}
use frappe_nix.Ci.Verdict.{Request, close, all_updates, names, table, decide}

-- A matcher that knows plain names only.
abbrev plain : Text → Text → Bool
plain name pattern = name == pattern

abbrev minor_uv : Request
minor_uv = record {
  ecosystem = "uv";
  update_type = "version-update:semver-minor";
  group = "";
  dependency_names = codes "httpx";
  directory = codes "/";
  docs_patterns = [];
  frappe_nix_repo = codes "Avunu/frappe-nix";
}

abbrev pin_bump : Request
pin_bump = record minor_uv {
  ecosystem = "github_actions";
  group = "actions";
  dependency_names = codes "actions/checkout, avunu/frappe-nix";
}

abbrev nix_bump : Request
nix_bump = record minor_uv { ecosystem = "nix"; dependency_names = codes "nixpkgs,frappe-nix" }

closes_rollout : decide plain all_updates nix_bump ≡ close
unfolding decide table names
closes_rollout = refl
