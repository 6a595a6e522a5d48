-- ===== src/Ci/Automerge.antt =====
-- py/frappe_nix_tools/frappe_nix_tools/ci/automerge.py, and the reading of a branch's required contexts in
-- common/github.py. GitHub's answers are a `Github`; the commands that are sent to it are a list.
pub mod Safety
mod Tests
use frappe_nix.Prelude.{
  ℕ, String, Bool, true, false, not, ◌&&◌, ◌||◌, Option, none, some, List, [], ◌∷◌, ◌++◌, map, all,
  any, keep, contains, codes, Text, text_eq, string_eq, ◌==◌, if◌then◌else◌, is_empty,
}
use frappe_nix.Ci.Verdict.{
  Verdict, auto, review, relock, close, NixVerdict, merge, shut, wait, nix_verdict,
}

-- A rule of the branch's rulesets, and the summary of its classic protection. An empty context is one
-- that is missing.
pub record Rule : Type 0 where
  pub type_name : String
  pub checks : List Text

pub record Protection : Type 0 where
  pub contexts : List Text
  pub checks : List Text

-- What GitHub answers: the rules and the protection, or a `GitHubError`; whether the pull request
-- has auto-merge on; and whether `gh pr merge --auto` succeeds.
pub record Github : Type 0 where
  pub rules : Option (List Rule)
  pub protection : Option Protection
  pub merge_enabled : Bool
  pub merge_succeeds : Bool

abbrev pub named : List Text → List Text
named = keep (λ c. not (is_empty c))

abbrev pub contexts_of_rules : List Rule → List Text
contexts_of_rules [] = []
contexts_of_rules (r ∷ rs) =
    if r.type_name == "required_status_checks"
    then named r.checks ++ contexts_of_rules rs
    else contexts_of_rules rs

abbrev pub rule_contexts : Option (List Rule) → List Text
rule_contexts none = []
rule_contexts (some rules) = contexts_of_rules rules

abbrev pub protection_contexts : Option Protection → List Text
protection_contexts none = []
protection_contexts (some p) = named p.contexts ++ named p.checks

abbrev pub has_answer {ℓ} : {A : Type ℓ} → Option A → Bool
has_answer none = false
has_answer (some x) = true

-- `required_contexts`
unfoldable pub required_contexts : Github → List Text × Bool
required_contexts g = (
  rule_contexts g.rules ++ protection_contexts g.protection,
  has_answer g.rules || has_answer g.protection,
)

unfoldable pub gate_contexts : List Text → List Text
gate_contexts = map (λ gate. codes "ci / " ++ gate)

abbrev pub some_texts : List Text → Bool
some_texts [] = false
some_texts (t ∷ ts) = true

unfoldable pub gates_protected : Github → List Text → Bool
unfolding required_contexts gate_contexts
gates_protected g gates =
    let (contexts, known) = required_contexts g in
    let wanted = gate_contexts gates in known && some_texts wanted && all (contains contexts) wanted

-- The commands that change something on GitHub.
pub data Command : Type 0 where
  label_review enable_merge comment close_request : Command

pub data Done : Type 0 where
  merging needs_review closed waits : Done

-- `enable`
unfoldable pub enable : Github → List Text → Done × List Command
enable g gates =
    if not (gates_protected g gates)
    then (needs_review, label_review ∷ [])
    else if g.merge_enabled
    then (merging, [])
    else if not g.merge_succeeds
    then (needs_review, enable_merge ∷ label_review ∷ [])
    else (merging, enable_merge ∷ [])

abbrev pub act_nix : Github → List Text → NixVerdict → Done × List Command
act_nix g gates merge = enable g gates
act_nix g gates shut = (closed, comment ∷ close_request ∷ [])
act_nix g gates wait = (waits, [])

-- `apply`
unfoldable pub apply : Github → List Text → String → Verdict → Done × List Command
apply g gates state relock = act_nix g gates (nix_verdict state)
apply g gates state close = (closed, comment ∷ close_request ∷ [])
apply g gates state auto = enable g gates
apply g gates state review = (needs_review, label_review ∷ [])
