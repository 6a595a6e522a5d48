-- ===== src/Ci/Branches.antt =====
-- py/frappe_nix_tools/frappe_nix_tools/ci/branches.py: which pull requests of bots are brought up to date, and how
-- many in a run. What GitHub answers is an argument.
pub mod Limit
mod Tests
use frappe_nix.Prelude.{
  ℕ, zero, suc, ◌+◌, ◌≤◌, ◌≡◌, Bool, true, false, not, ◌&&◌, ◌||◌, Option, none, some, List, [],
  ◌∷◌, ◌++◌, Text, codes, String, text_eq, number_eq, ◌==◌, contains, starts_with, ends_with,
  is_empty, any, keep, leb, if◌then◌else◌,
}
use frappe_nix.Prelude.Dict.{Dict, insert}
use frappe_nix.Ci.Release.{bots, Context, Dispatched, none_dispatched, ensure_ci}

abbrev pub dependabot_logins : List Text
dependabot_logins = codes "app/dependabot" ∷ codes "dependabot[bot]" ∷ []

abbrev pub bot_branches : Text
bot_branches = codes "standards/"

abbrev pub release_prefix : Text
release_prefix = codes "release-please--"

abbrev pub release_labels : List Text
release_labels = codes "autorelease: pending" ∷ codes "autorelease: tagged" ∷ []

-- An open pull request; what GitHub leaves out is empty or false.
pub record Pr : Type 0 where
  pub number : ℕ
  pub login : Text
  pub is_bot : Bool
  pub head_ref : Text
  pub head_sha : Text
  pub is_cross_repository : Bool
  pub labels : List Text

abbrev pub is_bot_author : Pr → Bool
is_bot_author pr =
    pr.is_bot
    || contains bots pr.login
    || starts_with pr.login (codes "app/")
    || ends_with pr.login (codes "[bot]")

unfoldable pub is_bot_pr : Pr → Bool
is_bot_pr pr =
    if pr.is_cross_repository || starts_with pr.head_ref release_prefix
    then false
    else if any (λ label. contains release_labels label) pr.labels
    then false
    else if contains dependabot_logins pr.login
    then true
    else is_bot_author pr && starts_with pr.head_ref bot_branches

-- What GitHub answers: how far a commit is behind, whether it merges a branch, the head it has at a look
-- afterwards, and what a look at a head's contexts finds; `none` is a GitHubError.
pub record Answers : Type 0 where
  pub behind_by : Text → Option ℕ
  pub merges : ℕ → Text → Bool
  pub head_at : ℕ → ℕ → Option Text
  pub contexts : Text → Text → List Context

pub data Status : Type 0 where
  updated refused : Status

-- A run: the statuses by number, the updates that GitHub was asked for, the workflows that were dispatched, and
-- whether a GitHubError ended it.
pub record Outcome : Type 0 where
  pub done : Dict ℕ Status
  pub asked : List (ℕ × Text)
  pub dispatched : List String
  pub failed : Bool

-- `Updater.ensure_ci`: the looks at the head from a given one on.
unfoldable pub ensure_head : Answers → Pr → ℕ → ℕ → Dispatched
ensure_head g pr look zero = none_dispatched
ensure_head g pr look (suc tries) = elim (g.head_at pr.number look) [
  | none ↦ record none_dispatched { failed = true }
  | some head ↦ elim (not (is_empty head) && not (head == pr.head_sha)) [
    | true ↦ ensure_ci (g.contexts pr.head_ref head)
    | false ↦ ensure_head g pr (suc look) tries
  ]
]

abbrev pub tries_of_ensure : ℕ
tries_of_ensure = 10

-- After a merge that succeeded: an error of the dispatch keeps the status from being noted.
abbrev pub after_merge : ℕ → Text → Dispatched → Outcome
after_merge number sha d = record {
  done = if d.failed then [] else (number, updated) ∷ [];
  asked = (number, sha) ∷ [];
  dispatched = d.workflows;
  failed = d.failed;
}

-- `Updater.update_branch`, for one pull request.
unfoldable pub update_branch : Answers → Bool → Pr → Outcome
update_branch g dispatch_ci pr =
    if not (g.merges pr.number pr.head_sha)
    then record {
      done = (pr.number, refused) ∷ [];
      asked = (pr.number, pr.head_sha) ∷ [];
      dispatched = [];
      failed = false;
    }
    else after_merge pr.number pr.head_sha
        (if dispatch_ci then ensure_head g pr 0 tries_of_ensure else none_dispatched)

abbrev pub nothing_done : Outcome
nothing_done = record { done = []; asked = []; dispatched = []; failed = false }

abbrev pub set_all : Dict ℕ Status → Dict ℕ Status → Dict ℕ Status
set_all [] d = d
set_all ((number, status) ∷ more) d = set_all more (insert number status d)

-- One update and what the rest of the run does, which an error keeps from happening.
abbrev pub and_then : Outcome → Outcome → Outcome
and_then o rest = if o.failed then o else record {
  done = set_all rest.done o.done;
  asked = o.asked ++ rest.asked;
  dispatched = o.dispatched ++ rest.dispatched;
  failed = rest.failed;
}

-- The loop of `Updater.run`, with the updates made so far.
unfoldable pub updates : Answers → Bool → ℕ → ℕ → List Pr → Outcome
updates g dispatch_ci limit acted [] = nothing_done
updates g dispatch_ci limit acted (pr ∷ prs) = elim (is_bot_pr pr) [
  | false ↦ updates g dispatch_ci limit acted prs
  | true ↦ elim (g.behind_by pr.head_sha) [
    | none ↦ record nothing_done { failed = true }
    | some zero ↦ updates g dispatch_ci limit acted prs
    | some (suc behind) ↦ elim (leb limit acted) [
      | true ↦ nothing_done
      | false ↦
          and_then (update_branch g dispatch_ci pr) (updates g dispatch_ci limit (suc acted) prs)
    ]
  ]
]

-- `sorted(..., key=number)`, which keeps equals in order.
abbrev pub place : Pr → List Pr → List Pr
place pr [] = pr ∷ []
place pr (first ∷ prs) =
    let rest = place pr prs in if leb pr.number first.number then pr ∷ first ∷ prs else first ∷ rest

abbrev pub sorted : List Pr → List Pr
sorted [] = []
sorted (pr ∷ prs) = place pr (sorted prs)

-- `Updater.run`, over the open pull requests.
unfoldable pub run_updates : Answers → Bool → ℕ → List Pr → Outcome
run_updates g dispatch_ci limit prs = updates g dispatch_ci limit 0 (sorted prs)
