-- ===== src/Ci/Branches/Tests.antt =====
-- A run over three pull requests of bots.
use frappe_nix.Prelude.{
  ℕ, ◌≡◌, refl, true, false, some, List, [], ◌∷◌, Text, codes, map, take, keep,
}
use frappe_nix.Ci.Release.{ensure_ci}
use frappe_nix.Ci.Branches.{
  Pr, Answers, updated, is_bot_pr, updates, update_branch, run_updates, sorted, ensure_head,
}
use frappe_nix.Ci.Branches.Limit.{Begins, is_due, key, run_updates_first}

abbrev pr : ℕ → Text → Pr
pr number branch = record {
  number = number;
  login = codes "app/github-actions";
  is_bot = true;
  head_ref = branch;
  head_sha = branch;
  is_cross_repository = false;
  labels = [];
}

abbrev prs : List Pr
prs =
    pr 9 (codes "standards/relock")
    ∷ pr 4 (codes "standards/screenshots")
    ∷ pr 2 (codes "release-please--main")
    ∷ pr 7 (codes "standards/hooks")
    ∷ []

abbrev answers : Answers
answers = record {
  behind_by = λ sha. some 3;
  merges = λ number sha. true;
  head_at = λ number look. some [];
  contexts = λ branch sha. [];
}

run_two : (run_updates answers true 2 prs).done ≡ (4, updated) ∷ (7, updated) ∷ []
unfolding run_updates updates is_bot_pr update_branch ensure_head ensure_ci
run_two = refl

run_updates_first_example :
    Begins (run_updates answers true 2 prs) (map key (take 2 (keep (is_due answers) (sorted prs))))
run_updates_first_example = run_updates_first answers true 2 prs

is_bot : is_bot_pr (pr 4 (codes "standards/screenshots")) ≡ true
unfolding is_bot_pr
is_bot = refl
