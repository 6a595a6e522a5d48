-- ===== src/Ci/Verdict.antt =====
-- py/frappe_nix_tools/frappe_nix_tools/ci/verdict.py: what becomes of a Dependabot pull request.
-- `fnmatchcase` is the standard library's, an argument of whatever uses it: nothing is assumed of it.
pub mod Rules
mod Tests
use frappe_nix.Prelude.{
  ℕ, ◌+◌, String, Bool, true, false, not, ◌&&◌, ◌||◌, List, [], ◌∷◌, map, any, keep, contains,
  codes, Text, text_eq, string_eq, ◌==◌, if◌then◌else◌, lower, strip, split_at, strip_of, is_empty,
  has_text,
}

pub data Verdict : Type 0 where
  auto review relock close : Verdict

pub data Policy : Type 0 where
  decision_table all_updates : Policy

abbrev pub major : String
major = "version-update:semver-major"

abbrev pub minor_patch : List String
minor_patch = "version-update:semver-minor" ∷ "version-update:semver-patch" ∷ []

abbrev pub pilot_patterns : List Text
pilot_patterns = codes "frappe/pilot*" ∷ []

abbrev pub test_utils : Text
test_utils = codes "agritheory/test_utils"

abbrev pub rollout_inputs : List Text
rollout_inputs = codes "frappe-nix" ∷ codes "standards-profile" ∷ []

unfoldable pub names : Text → List Text
names raw = keep (λ n. not (is_empty n)) (map strip (split_at b',' raw))

-- The pull request, and what the repository configures.
pub record Request : Type 0 where
  pub ecosystem : String
  pub update_type : String
  pub group : String
  pub dependency_names : Text
  pub directory : Text
  pub docs_patterns : List Text
  pub frappe_nix_repo : Text

abbrev pub some_names : List Text → Bool
some_names [] = false
some_names (n ∷ ns) = true

unfoldable pub minor_or_patch : String → String → Bool
minor_or_patch update_type group =
    if update_type == major
    then false
    else contains minor_patch update_type || update_type == "" && not (group == "")

unfoldable pub moves_frappe_nix : Request → Bool
moves_frappe_nix r =
    r.ecosystem == "github_actions"
    && not (is_empty r.frappe_nix_repo)
    && any (λ d. lower d == lower r.frappe_nix_repo) (names r.dependency_names)

-- `"/" + directory.strip("/") if directory else "/"`
abbrev pub directory_of : Text → Text
directory_of [] = codes "/"
directory_of (c ∷ s) = b'/' ∷ strip_of b'/' (c ∷ s)

module _ (fnmatchcase : Text → Text → Bool) where
  unfoldable pub matches : Text → List Text → Bool
  matches name patterns = any (λ p. fnmatchcase (lower name) (lower p)) patterns

  -- A dependency of the docs site or of the pilot.
  abbrev pub is_docs_or_pilot : Request → Text → Bool
  is_docs_or_pilot r d = matches d r.docs_patterns || matches d pilot_patterns

  unfoldable pub actions_verdict : Request → Verdict
  actions_verdict r =
      let deps = names r.dependency_names in
      if moves_frappe_nix r
      then review
      else if contains ("docs-actions" ∷ "pilot" ∷ []) r.group
      then review
      else if any (is_docs_or_pilot r) deps
      then review
      else if r.group == "actions" || r.group == "" && some_names deps
      then auto
      else review

  unfoldable pub hooks_verdict : Request → Verdict
  hooks_verdict r =
      let deps = names r.dependency_names in
      if r.group == "test-utils" || any (λ d. has_text (lower d) test_utils) deps
      then review
      else if r.group == "hooks" || r.group == "" && some_names deps
      then auto
      else review

  -- `_table`
  unfoldable pub table : Request → Verdict
  unfolding actions_verdict hooks_verdict
  table r =
      if r.ecosystem == "github_actions"
      then actions_verdict r
      else if r.ecosystem == "npm_and_yarn"
      then if directory_of r.directory == codes "/docs-site"
        then review
        else if minor_or_patch r.update_type r.group
        then auto
        else review
      else if r.ecosystem == "uv"
      then if minor_or_patch r.update_type r.group then auto else review
      else if r.ecosystem == "pre_commit"
      then hooks_verdict r
      else if r.ecosystem == "nix"
      then if any (λ d. contains rollout_inputs d) (names r.dependency_names) then close else relock
      else if r.ecosystem == "submodules"
      then auto
      else review

  abbrev pub is_all : Policy → Bool
  is_all decision_table = false
  is_all all_updates = true

  abbrev pub is_review : Verdict → Bool
  is_review review = true
  is_review _ = false

  unfoldable pub decide : Policy → Request → Verdict
  decide policy r =
      let decision = table r in
      if is_all policy && is_review decision && not (moves_frappe_nix r) then auto else decision

-- `nix_verdict`: what a `relock` verdict becomes.
pub data NixVerdict : Type 0 where
  merge shut wait : NixVerdict

unfoldable pub nix_verdict : String → NixVerdict
nix_verdict state =
    if state == "empty" then merge else if state == "rollout-input-moved" then shut else wait
