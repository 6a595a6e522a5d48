-- ===== src/Ci/Drift.antt =====
-- py/frappe_nix_tools/frappe_nix_tools/ci/drift.py: the issue that a reminder keeps. The issues of a repository are
-- its state; GitHub numbers a new one, and may refuse a request.
pub mod Kept
mod Tests
use frappe_nix.Prelude.{
  ℕ, ◌≡◌, Bool, true, false, not, ◌&&◌, ◌||◌, Option, none, some, List, [], ◌∷◌, ◌++◌, Text, codes,
  number_eq, ◌==◌, keep, if◌then◌else◌,
}

pub record Issue : Type 0 where
  pub number : ℕ
  pub title : Text
  pub body : Text
  pub is_open : Bool
  pub is_pull_request : Bool

-- `_issues`
abbrev pub open_issues : List Issue → List Issue
open_issues issues = keep (λ i. i.is_open && not i.is_pull_request) issues

-- The issues that a reminder finds, by their title.
abbrev pub found_issues : (Text → Bool) → List Issue → List Issue
found_issues match_title issues = keep (λ i. match_title i.title) (open_issues issues)

-- A PATCH of the issue of a number.
abbrev pub patch : ℕ → (Issue → Issue) → List Issue → List Issue
patch number change [] = []
patch number change (i ∷ issues) =
    let rest = patch number change issues in
    if i.number == number then change i ∷ rest else i ∷ rest

-- What a run ends with, and `stopped` for a request that GitHub refused.
pub data Outcome : Type 0 where
  closed nothing updated opened stopped : Outcome

abbrev pub close_issue : Issue → Issue
close_issue i = record i { is_open = false }

abbrev pub rewrite : Text → Text → Issue → Issue
rewrite title body i = record i { title = title; body = body }

abbrev pub close_all : (ℕ → Bool) → List Issue → List Issue → Outcome × List Issue
close_all refuses [] issues = (closed, issues)
close_all refuses (i ∷ found) issues =
    if refuses i.number
    then (stopped, issues)
    else close_all refuses found (patch i.number close_issue issues)

abbrev pub close_found : (ℕ → Bool) → List Issue → List Issue → Outcome × List Issue
close_found refuses [] issues = (nothing, issues)
close_found refuses (i ∷ found) issues = close_all refuses (i ∷ found) issues

abbrev pub write_found :
    (ℕ → Bool) → ℕ → Text → Text → List Issue → List Issue → Outcome × List Issue
write_found refuses fresh title body [] issues = if refuses fresh then (stopped, issues) else (
  opened,
  record { number = fresh; title = title; body = body; is_open = true; is_pull_request = false }
      ∷ issues,
)
write_found refuses fresh title body (i ∷ found) issues =
    if refuses i.number
    then (stopped, issues)
    else (updated, patch i.number (rewrite title body) issues)

-- `keep_issue`, with the number that a new issue would have.
unfoldable pub keep_issue :
    (ℕ → Bool) → ℕ → (Text → Bool) → Text → Option Text → List Issue → Outcome × List Issue
keep_issue refuses fresh match_title title none issues =
    close_found refuses (found_issues match_title issues) issues
keep_issue refuses fresh match_title title (some body) issues =
    write_found refuses fresh title body (found_issues match_title issues) issues
