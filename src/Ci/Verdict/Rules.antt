-- ===== src/Ci/Verdict/Rules.antt =====
-- verdict.py against its table of rules.
use frappe_nix.Prelude.{
  String, ◌≡◌, ap, Bool, true, not, ◌&&◌, ◌||◌, [], ◌∷◌, any, contains, codes, Text, text_eq,
  string_eq, ◌==◌, if◌then◌else◌, arith, ◌↔◌, eq_iff, has_text, lower,
}
use frappe_nix.Ci.Verdict.{
  Verdict, review, relock, close, Policy, all_updates, major, Request, names, moves_frappe_nix,
  directory_of, is_docs_or_pilot, table, decide, some_names, minor_patch, rollout_inputs,
  test_utils, merge, nix_verdict,
}

is_actions : (r : Request) → moves_frappe_nix r ≡ true → (r.ecosystem == "github_actions") ≡ true
unfolding moves_frappe_nix
is_actions r m = ground (arith, m)

abbrev implies : Bool → Bool → Bool
implies a b = not a || b

-- What must hold of a pull request before it may merge by itself: a rule of its ecosystem asks for its group or,
-- outside a group, for a dependency of it (npm and uv: for a minor or patch update), it does not move the
-- frappe-nix pin, it is nothing of the docs site, and none of its dependencies and groups is one that a
-- person looks at.
abbrev pub allowed : (Text → Text → Bool) → String → Request → Bool
allowed fnmatchcase ecosystem r =
    contains ("github_actions" ∷ "npm_and_yarn" ∷ "uv" ∷ "pre_commit" ∷ "submodules" ∷ []) ecosystem
    && not (moves_frappe_nix r)
    && implies (ecosystem == "npm_and_yarn") (not (directory_of r.directory == codes "/docs-site"))
    && implies (ecosystem == "npm_and_yarn" || ecosystem == "uv") (
        not (r.update_type == major)
        && (contains minor_patch r.update_type || r.update_type == "" && not (r.group == "")))
    && implies (ecosystem == "github_actions") (
        (r.group == "actions" || r.group == "" && some_names (names r.dependency_names))
        && not (contains ("docs-actions" ∷ "pilot" ∷ []) r.group)
        && not (any (is_docs_or_pilot fnmatchcase r) (names r.dependency_names)))
    && implies (ecosystem == "pre_commit") (
        (r.group == "hooks" || r.group == "" && some_names (names r.dependency_names))
        && not (r.group == "test-utils")
        && not (any (λ d. has_text (lower d) test_utils) (names r.dependency_names)))

abbrev pub may_merge : (Text → Text → Bool) → Request → Bool
may_merge fnmatchcase r = allowed fnmatchcase r.ecosystem r

module _ (fnmatchcase : Text → Text → Bool) where
  table_moves : (r : Request) → moves_frappe_nix r ≡ true → table fnmatchcase r ≡ review
  unfolding table
  table_moves r m = ground (arith, m, is_actions r m)

  -- A pull request that moves the frappe-nix pin is left to a person under either policy.
  pub decide_moves :
      (policy : Policy) (r : Request)
      → moves_frappe_nix r ≡ true
      → decide fnmatchcase policy r ≡ review
  unfolding decide
  decide_moves policy r m = ground (arith, m, table_moves r m)

  -- Under `all`, a person decides exactly about the pull requests that move the frappe-nix pin.
  pub decide_all-review :
      (r : Request) → (decide fnmatchcase all_updates r ≡ review) ↔ (moves_frappe_nix r ≡ true)
  unfolding decide
  decide_all-review r = (λ h. ground (arith, h), λ m. ground (arith, m, table_moves r m))

  table_nix :
      (r : Request)
      → r.ecosystem ≡ "nix"
      → table fnmatchcase r ≡ (
          if any (λ d. contains rollout_inputs d) (names r.dependency_names) then close else relock)
  unfolding table
  table_nix r e = ground (
    arith,
    ap (λ (x : String). x == "github_actions") e,
    ap (λ (x : String). x == "npm_and_yarn") e,
    ap (λ (x : String). x == "uv") e,
    ap (λ (x : String). x == "pre_commit") e,
    ap (λ (x : String). x == "nix") e,
  )

  -- The nix rows under either policy: a bump that moves an input of the rollout is closed, and any
  -- other waits for its relock and is merged only if there was nothing to relock.
  pub decide_nix :
      (policy : Policy) (r : Request)
      → r.ecosystem ≡ "nix"
      → (decide fnmatchcase policy r ≡ (
          if any (λ d. contains rollout_inputs d) (names r.dependency_names)
          then close
          else relock))
        × ((state : String) → (nix_verdict state ≡ merge) ↔ (state ≡ "empty"))
  unfolding decide nix_verdict
  decide_nix policy r e = (
    ground (arith, table_nix r e),
    λ state. (
      λ h. ground (arith, h, eq_iff state "empty"),
      λ h. ground (arith, h, eq_iff state "empty"),
    ),
  )
