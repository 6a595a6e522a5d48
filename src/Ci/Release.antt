-- ===== src/Ci/Release.antt =====
-- py/frappe_nix_tools/frappe_nix_tools/ci/release.py: the fast-forward of the release branch, and the dispatch
-- of missing checks. GitHub is a `Server`: what it answers and how a request changes it.
pub mod Guard
mod Tests
use frappe_nix.Prelude.{
  ℕ, zero, suc, String, Bool, true, false, not, ◌&&◌, ◌||◌, Option, none, some, List, [], ◌∷◌, ◌++◌,
  contains, map, keep, codes, Text, starts_with, is_empty, text_eq, string_eq, number_eq, ◌==◌,
  if◌then◌else◌,
}

abbrev pub Sha : Type 0
Sha = Text

-- A `GET`: the object, a 404, or another failure, which is raised.
pub data Got (A : Type 0) : Type 0 where
  got : A → Got A
  missing raised : Got A

-- A write: done, refused with an HTTP status, or failed with none.
pub data Written : Type 0 where
  written : Written
  refused : ℕ → Written
  failed : Written

-- What a ref or a tag object points at.
pub data Pointed : Type 0 where
  tag : Sha → Pointed
  commit : Sha → Pointed

pub record Server : Type 1 where
  pub State : Type 0
  pub branch_head : State → Got Sha
  pub tag_ref : State → Got Pointed
  pub tag_object : Sha → State → Got Pointed
  -- `PATCH` with `force: false`, and `POST` of a new ref
  pub patch : Sha → State → Written × State
  pub post : Sha → State → Written × State
  -- `gh workflow run assets.yml`: whether it succeeds
  pub dispatch_assets : State → Bool × State

-- `FastForward`; the major is its decimal digits.
pub record FastForward : Type 0 where
  pub sha : Sha
  pub tag_name : Text
  pub version_scheme : String
  pub tag_prefix : Text
  pub frappe_major : Text
  pub pilot_assets : Bool
  pub dry_run : Bool

unfoldable pub scheme_ok : FastForward → Bool
scheme_ok f =
    if not (f.version_scheme == "frappe-major")
    then true
    else starts_with f.tag_name (f.tag_prefix ++ f.frappe_major ++ codes ".")

-- The loop of `peeled`: at most ten tags deep, and no sha beyond.
unfoldable pub peel : (Sha → Got Pointed) → ℕ → Got Pointed → Got Sha
peel object zero raised = raised
peel object zero missing = raised
peel object zero (got p) = got []
peel object (suc n) raised = raised
peel object (suc n) missing = raised
peel object (suc n) (got (commit s)) = got s
peel object (suc n) (got (tag s)) = peel object n (object s)

pub data Exit : Type 0 where
  succeeded rejected : Exit
  threw : Exit

module _ (G : Server) where
  unfoldable pub peeled : G.State → Got Sha
  unfolding peel
  peeled s = peel (λ t. G.tag_object t s) 10 (G.tag_ref s)

  -- The write of `run`, or nothing in a dry run.
  abbrev pub write_ref : FastForward → Got Sha → G.State → Written × G.State
  write_ref f (got head) s = if f.dry_run then (written, s) else G.patch f.sha s
  write_ref f missing s = if f.dry_run then (written, s) else G.post f.sha s
  write_ref f raised s = (failed, s)

  abbrev pub head_sha : Got Sha → Got Sha
  head_sha missing = got []
  head_sha other = other

  -- The `head` that is compared with the tag: the branch's sha, read again after the write, or in a dry
  -- run the sha that the write would leave.
  abbrev pub left_at : FastForward → G.State → Got Sha
  left_at f s = if f.dry_run then got f.sha else head_sha (G.branch_head s)

  abbrev pub run_assets : FastForward → G.State → Exit × G.State
  run_assets f s =
      if not f.pilot_assets || f.dry_run
      then (succeeded, s)
      else (let (ok, s') = G.dispatch_assets s in (if ok then succeeded else rejected, s'))

  -- The comparison of the branch with the tag.
  abbrev pub compare_head : FastForward → Got Sha → Got Sha → G.State → Exit × G.State
  compare_head f (got head) (got tagged) s =
      if is_empty head || not (head == tagged) then (rejected, s) else run_assets f s
  compare_head f _ _ s = (threw, s)

  abbrev pub after_write : FastForward → Written × G.State → Exit × G.State
  after_write f (failed, s) = (threw, s)
  after_write f (refused status, s) = if status == 403 then (rejected, s) else (threw, s)
  after_write f (written, s) = compare_head f (left_at f s) (peeled s) s

  -- `FastForward.run`: exit 0, exit 1, or an exception.
  unfoldable pub run : FastForward → G.State → Exit × G.State
  run f s =
      if not (scheme_ok f) then (rejected, s) else after_write f (write_ref f (G.branch_head s) s)

-- `release_branches`: release-please's own branch names.
unfoldable pub release_branches : Text → Text → List Text
release_branches integration component =
    let name = codes "release-please--branches--" ++ integration in
    if is_empty component
    then name ∷ []
    else name ∷ (name ++ codes "--components--" ++ component) ∷ []

-- What a look at each context finds: whether its check is there and whether its workflow is, `none` for a
-- GitHubError of the look, and whether the dispatch succeeds.
pub record Context : Type 0 where
  pub workflow : String
  pub has_check : Option Bool
  pub exists : Option Bool
  pub dispatches : Bool

-- The workflows that were dispatched, and whether a GitHubError ended the run after them.
pub record Dispatched : Type 0 where
  pub workflows : List String
  pub failed : Bool

abbrev pub none_dispatched : Dispatched
none_dispatched = record { workflows = []; failed = false }

-- What follows a part of the run, unless an error ended it.
abbrev pub and_more : Dispatched → Dispatched → Dispatched
and_more d rest = if d.failed then d else record rest { workflows = d.workflows ++ rest.workflows }

-- The body of the loop of `ensure_ci`.
abbrev pub ensure_one : Context → Dispatched
ensure_one c = elim c.has_check [
  | none ↦ record none_dispatched { failed = true }
  | some true ↦ none_dispatched
  | some false ↦ elim c.exists [
    | none ↦ record none_dispatched { failed = true }
    | some false ↦ none_dispatched
    | some true ↦ record none_dispatched {
      workflows = if c.dispatches then c.workflow ∷ [] else [];
    }
  ]
]

unfoldable pub ensure_ci : List Context → Dispatched
ensure_ci [] = none_dispatched
ensure_ci (c ∷ cs) = and_more (ensure_one c) (ensure_ci cs)

-- `dispatch_ci`, over the open pull requests with their head branch and their contexts.
unfoldable pub dispatch_ci : List Text → List (Text × List Context) → Dispatched
unfolding ensure_ci
dispatch_ci allowed [] = none_dispatched
dispatch_ci allowed ((branch, contexts) ∷ prs) =
    let rest = dispatch_ci allowed prs in
    if not (contains allowed branch) then rest else and_more (ensure_ci contexts) rest

abbrev pub bots : List Text
bots =
    codes "app/dependabot"
    ∷ codes "dependabot[bot]"
    ∷ codes "app/github-actions"
    ∷ codes "github-actions[bot]"
    ∷ []

-- `sweep`, over the open pull requests with their author.
unfoldable pub sweep : List (Text × List Context) → Dispatched
unfolding dispatch_ci
sweep prs = dispatch_ci bots prs
