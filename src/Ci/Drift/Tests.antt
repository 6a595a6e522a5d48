-- ===== src/Ci/Drift/Tests.antt =====
-- A reminder over three issues.
use frappe_nix.Prelude.{
  ℕ, ◌≡◌, refl, Bool, true, false, none, List, [], ◌∷◌, Text, codes, text_eq, ◌==◌,
}
use frappe_nix.Ci.Drift.{Issue, keep_issue, closed}

abbrev issue : ℕ → Text → Bool → Issue
issue number title is_open = record {
  number = number;
  title = title;
  body = [];
  is_open = is_open;
  is_pull_request = false;
}

abbrev issues : List Issue
issues =
    issue 1 (codes "drift") true ∷ issue 2 (codes "bug") true ∷ issue 3 (codes "drift") true ∷ []

abbrev is_drift : Text → Bool
is_drift title = title == codes "drift"

closed_both : keep_issue (λ n. false) 4 is_drift [] none issues ≡ (
  closed,
  issue 1 (codes "drift") false ∷ issue 2 (codes "bug") true ∷ issue 3 (codes "drift") false ∷ [],
)
unfolding keep_issue
closed_both = refl
