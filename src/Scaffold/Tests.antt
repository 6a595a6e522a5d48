-- ===== src/Scaffold/Tests.antt =====
-- Managed files at concrete contents.
use frappe_nix.Prelude.{
  map, ◌≡◌, refl, Option, none, some, List, [], ◌∷◌, ◌++◌, codes, Text, text_eq, number_eq, ◌==◌,
  if◌then◌else◌,
}
use frappe_nix.Scaffold.Regions.{
  marker, good, bad, not_open, parse_from, parse, fill, splice, filled,
}
use frappe_nix.Scaffold.Regions.Segments.{outside, regions_of, refilled, regions_now}
use frappe_nix.Scaffold.Regions.Spliced.{splice_keeps}
use frappe_nix.Scaffold.Blocks.{
  newline, gitignore_begin, gitignore_end, init_begin, init_end, join, file, gitignore, scan,
  version_block, init_py, init_py_unblocked,
}
use frappe_nix.Scaffold.Blocks.Managed.{gitignore_replaces}

abbrev regions : List Text
regions = codes "env" ∷ []

abbrev begin_line : Text
begin_line = codes "  # frappe-nix:local-begin env"

abbrev end_line : Text
end_line = codes "  # frappe-nix:local-end env"

abbrev template : List Text
template = codes "jobs:" ∷ begin_line ∷ end_line ∷ codes "done" ∷ []

abbrev edited : List Text
edited = codes "old" ∷ begin_line ∷ codes "A=1" ∷ end_line ∷ []

abbrev synced : List Text
synced = codes "jobs:" ∷ begin_line ∷ codes "A=1" ∷ end_line ∷ codes "done" ∷ []

edited_spliced : splice regions template (some edited) ≡ good synced
unfolding splice parse parse_from fill marker
edited_spliced = refl

edited_parsed : parse regions edited ≡ good ((codes "env", codes "A=1" ∷ []) ∷ [])
unfolding parse parse_from marker
edited_parsed = refl

region_with_text : filled regions edited ≡ good (codes "env" ∷ [])
unfolding filled parse parse_from marker
region_with_text = refl

unbalanced : parse regions (end_line ∷ []) ≡ bad not_open
unfolding parse parse_from marker
unbalanced = refl

splice_keeps_example :
    (outside none synced ≡ outside none template)
    × (regions_of none [] synced
        ≡ map (refilled (regions_now (some edited))) (regions_of none [] template))
splice_keeps_example = splice_keeps regions template synced (some edited) refl edited_spliced

abbrev ignored : Text
ignored = join (codes "*.pyc" ∷ gitignore_begin ∷ codes "old" ∷ gitignore_end ∷ codes "dist" ∷ [])

gitignore_replaces_example :
    gitignore (some ignored) (codes "new")
    ≡ file
        (join (codes "*.pyc" ∷ gitignore_begin ∷ codes "new" ∷ gitignore_end ∷ codes "dist" ∷ []))
gitignore_replaces_example =
    gitignore_replaces ignored (codes "new") (codes "*.pyc" ∷ []) (codes "old" ∷ [])
      (codes "dist" ∷ []) refl refl refl

-- The pattern of the tests: a version line starts with an equals sign.
abbrev version_of : Text → Option Text
version_of [] = none
version_of (c ∷ s) = if c == b'=' then some s else none

abbrev package_file : Text
package_file = join (codes "# app" ∷ init_begin ∷ codes "=1.2" ∷ init_end ∷ codes "import os" ∷ [])

-- A bare version line becomes the block, before the blank lines at the end.
init_py_bare :
    (init_py version_of (some (codes "=1.2")) (codes "0.1.0")).0
    ≡ join (version_block (codes "1.2")) ++ newline ∷ []
unfolding init_py scan
init_py_bare = refl

unblocked :
    init_py_unblocked package_file ≡ join (codes "# app" ∷ codes "=1.2" ∷ codes "import os" ∷ [])
unfolding init_py_unblocked
unblocked = refl
