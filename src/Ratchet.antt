-- ===== src/Ratchet.antt =====
-- py/frappe_nix_tools/frappe_nix_tools/commands/ratchet.py: the values of a repository that only shrink, compared
-- between a pull request and its base. A `Doc` is what the code reads of one side: its pyproject.toml, its
-- semgrep baseline and its `ty: ignore` lines; which modules are on is the resolved configuration's answer.
pub mod Shrinks
mod Tests
use frappe_nix.Prelude.{
  ℕ, ◌+◌, Bool, true, false, not, ◌&&◌, ◌||◌, Option, none, some, List, [], ◌∷◌, ◌++◌, map, keep,
  contains, codes, Text, text_eq, ◌==◌, is_empty, starts_with, if◌then◌else◌, ltb, length, minus,
}

pub record Switches : Type 0 where
  pub coverage : Bool
  pub testmap : Bool
  pub check_js : Bool
  pub python_types : Bool
  pub listing : Bool
  pub semgrep : Bool

-- An entry of the semgrep baseline.
pub record Finding : Type 0 where
  pub rule : Text
  pub path : Text
  pub line_sha1 : Text
  pub count : ℕ

-- A line with `ty: ignore`: where it stands, whether it has a rule and a reason, and how many it has.
pub record Ignore : Type 0 where
  pub place : Text
  pub is_justified : Bool
  pub count : ℕ

-- `fail_under` is a number in one unit, and a set is the list of its members.
pub record Doc : Type 0 where
  pub package_name : Option Text
  pub fail_under : Option ℕ
  pub coverage_omit : List Text
  pub untested : List Text
  pub unchecked_js : List Text
  pub ignores : List Ignore
  pub baseline : List Finding

-- The base: whether it is opted in, its switches if they can be resolved, and its documents.
pub record Base : Type 0 where
  pub opted_in : Bool
  pub switches : Option Switches
  pub doc : Doc

pub record Head : Type 0 where
  pub switches : Switches
  pub doc : Doc
  -- R5 of the work tree, by `nosemgrep_problems`
  pub nosemgrep : List Text

pub data Violation : Type 0 where
  fail_under_down new_omit ty_unjustified ty_more new_finding more_findings new_untested
        new_unchecked bare_nosemgrep :
      Violation

abbrev pub drop_text : Text → Text → Text
drop_text [] s = s
drop_text (p ∷ ps) [] = []
drop_text (p ∷ ps) (c ∷ s) = drop_text ps s

-- The inner `rename` of `_renamer`
abbrev pub rename : Text → Text → Text → Text
rename old new s =
    if s == old
    then new
    else if starts_with s (old ++ codes ".") || starts_with s (old ++ codes "/")
    then new ++ drop_text old s
    else s

-- `_renamer`
unfoldable pub renamer : Option Text → Option Text → Text → Text
renamer none new s = s
renamer (some old) none s = s
renamer (some old) (some new) s =
    if is_empty old || is_empty new || old == new then s else rename old new s

-- A violation for each text that the base does not have.
abbrev pub new_items : Violation → Bool → List Text → List Text → List Violation
new_items v on head base = if on then map (λ t. v) (minus head base) else []

abbrev pub is_lower : Option ℕ → ℕ → Bool
is_lower none b = true
is_lower (some h) b = ltb h b

abbrev pub lower_fail_under : Bool → Option ℕ → Option ℕ → List Violation
lower_fail_under on head none = []
lower_fail_under on head (some b) = if on && is_lower head b then fail_under_down ∷ [] else []

abbrev pub unjustified : List Ignore → List Violation
unjustified is = map (λ i. ty_unjustified) (keep (λ i. not i.is_justified) is)

-- `_ty_count`
abbrev pub ty_count : List Ignore → ℕ
ty_count [] = 0
ty_count (i ∷ is) = i.count + ty_count is

abbrev pub ty_violations : Bool → Bool → List Ignore → List Ignore → List Violation
ty_violations on base_on head base =
    if not on
    then []
    else unjustified head
      ++ (if base_on && ltb (ty_count base) (ty_count head) then ty_more ∷ [] else [])

abbrev pub same_key : Finding → Finding → Bool
same_key f g = f.rule == g.rule && f.path == g.path && f.line_sha1 == g.line_sha1

-- The count of a finding's key in a baseline, over all entries of that key.
abbrev pub count_of : Finding → List Finding → ℕ
count_of f [] = 0
count_of f (g ∷ gs) = let rest = count_of f gs in if same_key g f then g.count + rest else rest

abbrev pub has_key : Finding → List Finding → Bool
has_key f [] = false
has_key f (g ∷ gs) = same_key g f || has_key f gs

abbrev pub check_finding : List Finding → List Finding → Finding → List Violation
check_finding head base f =
    if not (has_key f base)
    then new_finding ∷ []
    else if ltb (count_of f base) (count_of f head)
    then more_findings ∷ []
    else []

-- R3, once for each key of the head.
abbrev pub check_findings : List Finding → List Finding → List Finding → List Violation
check_findings head base [] = []
check_findings head base (f ∷ fs) =
    let rest = check_findings head base fs in
    if has_key f fs then rest else check_finding head base f ++ rest

abbrev pub base_switches : Switches → Option Switches → Switches
base_switches head none = head
base_switches head (some b) = b

abbrev pub moved : (Text → Text) → List Finding → List Finding
moved ren [] = []
moved ren (f ∷ fs) = record f { path = ren f.path } ∷ moved ren fs

abbrev pub nosemgrep_found : Bool → List Text → List Violation
nosemgrep_found on problems = if on then map (λ p. bare_nosemgrep) problems else []

-- The rules R1 to R7 with the renaming of the base's package.
abbrev pub compare : (Text → Text) → Switches → Doc → Head → List Violation
compare ren b base h =
    lower_fail_under (h.switches.coverage && b.coverage) h.doc.fail_under base.fail_under
    ++ new_items new_omit (h.switches.coverage && b.coverage) h.doc.coverage_omit
        (map ren base.coverage_omit)
    ++ ty_violations h.switches.python_types b.python_types h.doc.ignores base.ignores
    ++ (if h.switches.listing && b.listing
        then check_findings h.doc.baseline (moved ren base.baseline) h.doc.baseline
        else [])
    ++ new_items new_untested (h.switches.testmap && b.testmap) h.doc.untested
        (map ren base.untested)
    ++ new_items new_unchecked (h.switches.check_js && b.check_js) h.doc.unchecked_js
        (map ren base.unchecked_js)
    ++ nosemgrep_found (h.switches.semgrep || h.switches.listing) h.nosemgrep

-- `violations`; the source sorts the findings of one rule.
unfoldable pub violations : Base → Head → List Violation
violations b h =
    if not b.opted_in
    then []
    else compare (renamer b.doc.package_name h.doc.package_name)
        (base_switches h.switches b.switches) b.doc h
