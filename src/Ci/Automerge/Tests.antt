-- ===== src/Ci/Automerge/Tests.antt =====
-- The auto-merge rule at a protected branch and at one that cannot be read.
use frappe_nix.Prelude.{
  Text, ◌≡◌, refl, true, false, none, some, List, [], ◌∷◌, ◌++◌, codes, contains, text_eq,
}
use frappe_nix.Ci.Verdict.{relock, nix_verdict}
use frappe_nix.Ci.Automerge.{Github, required_contexts, gates_protected, enable, apply}
use frappe_nix.Ci.Automerge.Safety.{lets_merge, apply_enables}

abbrev strict : Github
strict = record {
  rules =
      some (record { type_name = "required_status_checks"; checks = codes "ci / lint" ∷ [] } ∷ []);
  protection = none;
  merge_enabled = false;
  merge_succeeds = true;
}

abbrev unreadable : Github
unreadable = record strict { rules = none }

abbrev gates : List Text
gates = codes "lint" ∷ []

apply_enables_example :
    (lets_merge relock "empty" ≡ true)
    × ((gate : Text)
        → contains gates gate ≡ true
        → contains (required_contexts strict).0 (codes "ci / " ++ gate) ≡ true)
unfolding apply enable gates_protected nix_verdict
apply_enables_example = apply_enables strict gates "empty" relock refl
