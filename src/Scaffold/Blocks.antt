-- ===== src/Scaffold/Blocks.antt =====
-- py/frappe_nix_tools/frappe_nix_tools/scaffold/blocks.py: the managed block of `.gitignore`, and the version block
-- of `__init__.py`. The version line's pattern is an argument.
pub mod Managed
pub mod Version
use frappe_nix.Prelude.{
  ℕ, zero, suc, ◌-◌, Bool, true, false, not, ◌&&◌, Option, none, some, List, [], ◌∷◌, ◌++◌,
  contains, keep, codes, Text, text_eq, ◌==◌, is_empty, if◌then◌else◌, split_at, rstrip_of, strip,
  lstrip, ends_with, starts_with, length,
}

abbrev pub newline : ℕ
newline = 10

abbrev pub gitignore_begin : Text
gitignore_begin = codes "# >>> frappe-nix >>> (managed block — edits here are overwritten)"

abbrev pub gitignore_end : Text
gitignore_end = codes "# <<< frappe-nix <<<"

-- `"\n".join(lines)`
abbrev pub join : List Text → Text
join [] = []
join (line ∷ []) = line
join (line ∷ next ∷ lines) = line ++ newline ∷ join (next ∷ lines)

-- `lines[lines.index(mark):]`, if the mark is there
abbrev pub from_line : Text → List Text → Option (List Text)
from_line mark [] = none
from_line mark (line ∷ lines) =
    let rest = from_line mark lines in if line == mark then some (line ∷ lines) else rest

-- `lines[: lines.index(mark) + 1]`
abbrev pub upto_line : Text → List Text → List Text
upto_line mark [] = []
upto_line mark (line ∷ lines) =
    let rest = upto_line mark lines in if line == mark then line ∷ [] else line ∷ rest

-- The new file, or the `ConfigError` of a block that is never closed.
pub data Blocked : Type 0 where
  file : Text → Blocked
  never_closed : Blocked

abbrev pub block : Text → Text
block body = join (gitignore_begin ∷ body ∷ gitignore_end ∷ [] ∷ [])

abbrev pub lines_from : Text → Option (List Text) → Option (List Text)
lines_from mark none = none
lines_from mark (some lines) = from_line mark lines

abbrev pub between : List Text → Text → Option (List Text) → Blocked
between before body none = never_closed
between before body (some rest) = file (join (before ++ body ∷ rest))

-- `current if current.endswith("\n") or not current else current + "\n"`
abbrev pub ended : Text → Text
ended current =
    if ends_with current (newline ∷ [])
    then current
    else if is_empty current
    then current
    else current ++ newline ∷ []

abbrev pub set_block : Text → Text → Blocked
set_block current body =
    let lines = split_at newline current in
    if contains lines gitignore_begin
    then between (upto_line gitignore_begin lines) body
        (lines_from gitignore_end (from_line gitignore_begin lines))
    else file (ended current ++ block body)

-- `gitignore`
unfoldable pub gitignore : Option Text → Text → Blocked
gitignore none body = file (block (rstrip_of newline body))
gitignore (some current) body = set_block current (rstrip_of newline body)

abbrev pub init_begin : Text
init_begin = codes "# x-release-please-start-version"

abbrev pub init_end : Text
init_end = codes "# x-release-please-end"

-- `init_py_unblocked`
unfoldable pub init_py_unblocked : Text → Text
init_py_unblocked current = join (
    keep (λ line. not (contains (init_begin ∷ init_end ∷ []) (strip line)))
      (split_at newline current))

-- The variables of the loop of `init_py`.
pub record Scan : Type 0 where
  pub version : Option Text
  pub kept : List Text
  pub at : Option ℕ
  pub inside : Bool

abbrev pub or_here : Option ℕ → ℕ → Option ℕ
or_here none n = some n
or_here (some m) n = some m

abbrev pub or_first : Option Text → Text → Option Text
or_first none v = some v
or_first (some w) v = some w

abbrev pub take_version : Text → Option Text → Scan → Scan
take_version line none s = record s { kept = s.kept ++ line ∷ [] }
take_version line (some v) s = record s {
  version = or_first s.version v;
  at = or_here s.at (length s.kept);
}

-- A line of the loop.
abbrev pub scan_line : (Text → Option Text) → Text → Scan → Scan
scan_line version_of line s =
    if strip line == init_begin
    then record s { inside = true; at = or_here s.at (length s.kept) }
    else if strip line == init_end && s.inside
    then record s { inside = false }
    else take_version line (version_of (strip line)) s

unfoldable pub scan : (Text → Option Text) → List Text → Scan → Scan
scan version_of [] s = s
scan version_of (line ∷ lines) s = scan version_of lines (scan_line version_of line s)

-- `lines.pop()` for an empty last line
abbrev pub drop_last_empty : List Text → List Text
drop_last_empty [] = []
drop_last_empty (line ∷ []) = if is_empty line then [] else line ∷ []
drop_last_empty (line ∷ next ∷ lines) = line ∷ drop_last_empty (next ∷ lines)

abbrev pub all_blank : List Text → Bool
all_blank [] = true
all_blank (line ∷ lines) = is_empty (strip line) && all_blank lines

-- The kept lines before and after the block; without a place for it, it comes before the blank lines
-- at the end.
abbrev pub split_trailing : List Text → List Text × List Text
split_trailing [] = ([], [])
split_trailing (line ∷ lines) =
    let (before, after) = split_trailing lines in
    if all_blank (line ∷ lines) then ([], line ∷ lines) else (line ∷ before, after)

abbrev pub split_nth : ℕ → List Text → List Text × List Text
split_nth zero lines = ([], lines)
split_nth (suc n) [] = ([], [])
split_nth (suc n) (line ∷ lines) = let (before, after) = split_nth n lines in (line ∷ before, after)

abbrev pub split_kept : Option ℕ → List Text → List Text × List Text
split_kept none kept = split_trailing kept
split_kept (some n) kept = split_nth n kept

-- `version or default_version`
abbrev pub version_or : Option Text → Text → Text
version_or none default = default
version_or (some []) default = default
version_or (some (c ∷ v)) default = c ∷ v

abbrev pub version_block : Text → List Text
version_block v = init_begin ∷ (codes "__version__ = \"" ++ v ++ codes "\"") ∷ init_end ∷ []

abbrev pub is_offending : Text → Bool
is_offending line = not (is_empty (strip line)) && not (starts_with (lstrip line) (codes "#"))

abbrev pub text_or_empty : Option Text → Text
text_or_empty none = []
text_or_empty (some t) = t

abbrev pub initial : Scan
initial = record { version = none; kept = []; at = none; inside = false }

-- `init_py`
unfoldable pub init_py : (Text → Option Text) → Option Text → Text → Text × List Text
init_py version_of current default =
    let s = scan version_of (drop_last_empty (split_at newline (text_or_empty current))) initial in
    let (before, after) = split_kept s.at s.kept in
    (
      join (before ++ version_block (version_or s.version default) ++ after) ++ newline ∷ [],
      keep is_offending s.kept,
    )
