-- ===== src/Ratchet/Tests.antt =====
-- The ratchet on a pull request.
use frappe_nix.Prelude.{◌≡◌, refl, String, true, false, some, [], ◌∷◌, codes}
use frappe_nix.Ratchet.{Switches, Doc, Base, Head, new_untested, renamer, violations}
use frappe_nix.Ratchet.Shrinks.{IsShrunk, violations-IsShrunk}

abbrev switches : Switches
switches = record {
  coverage = true;
  testmap = true;
  check_js = false;
  python_types = true;
  listing = true;
  semgrep = true;
}

abbrev doc_of : String → String → Doc
doc_of app module_name = record {
  package_name = some (codes app);
  fail_under = some 80;
  coverage_omit = [];
  untested = codes module_name ∷ [];
  unchecked_js = [];
  ignores = [];
  baseline = [];
}

abbrev base : Base
base = record { opted_in = true; switches = some switches; doc = doc_of "old" "old.api" }

-- The package is renamed, and its untested module with it.
abbrev head : Head
head = record { switches = switches; doc = doc_of "new" "new.api"; nosemgrep = [] }

clean : violations base head ≡ []
unfolding violations renamer
clean = refl

added : violations base (record head { doc = doc_of "new" "new.tasks" }) ≡ new_untested ∷ []
unfolding violations renamer
added = refl

violations-IsShrunk_example :
    IsShrunk
      (renamer (some (codes "old")) (some (codes "new")))
      switches
      (doc_of "old" "old.api")
      head
violations-IsShrunk_example = violations-IsShrunk base head refl clean
