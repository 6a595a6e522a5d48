-- ===== src/Scaffold/Globs/Tests.antt =====
-- Globs at concrete paths.
use frappe_nix.Prelude.{◌≡◌, refl, true, false, codes}
use frappe_nix.Scaffold.Globs.{match_glob, translate, regex_matches, to_regex}
use frappe_nix.Scaffold.Globs.Segments.{slashes, match_segments}
use frappe_nix.Scaffold.Globs.Dialects.{glob_to_regex_narrower}

form_here : match_glob (codes "**/web_form/**") (codes "web_form/x.js") ≡ true
unfolding match_glob translate
form_here = refl

form_missed : regex_matches (codes "**/web_form/**") (codes "web_form/x.js") ≡ false
unfolding regex_matches to_regex
form_missed = refl

infix_none : match_glob (codes "a/**/b.js") (codes "a/b.js") ≡ true
unfolding match_glob translate
infix_none = refl

one_segment : match_glob (codes "app/*.py") (codes "app/a.py") ≡ true
unfolding match_glob translate
one_segment = refl

script : match_glob (codes "*.js") (codes "x.js") ≡ true
unfolding match_glob translate
script = refl

match_segments_example : slashes (codes "app/a.py") ≡ slashes (codes "app/*.py")
match_segments_example = match_segments (codes "app/*.py") (codes "app/a.py") refl one_segment

glob_to_regex_narrower_example :
    (match_glob (codes "**/*.js") (codes "x.js") ≡ true)
    × (regex_matches (codes "**/*.js") (codes "x.js") ≡ false)
glob_to_regex_narrower_example = glob_to_regex_narrower (codes "*.js") (codes "x.js") script refl
