-- ===== src/Ci/Release/Tests.antt =====
-- The release guard over a server in memory: one branch and one tag.
use frappe_nix.Prelude.{
  ◌≡◌, refl, true, false, Option, none, some, codes, text_eq, ◌==◌, if◌then◌else◌,
}
use frappe_nix.Ci.Release.{
  Server, Sha, got, missing, tag, commit, written, FastForward, scheme_ok, peeled, rejected, run,
  run_assets, write_ref,
}
use frappe_nix.Ci.Release.Guard.{AtTag, run_guard}

-- The branch's head; `main` may move to any commit.
abbrev github : Server
github = record {
  State = Option Sha;
  branch_head = λ s. elim s [ none ↦ missing | some h ↦ got h ];
  tag_ref = λ s. got (tag (codes "t1"));
  tag_object = λ t s. if t == codes "t1" then got (commit (codes "c1")) else missing;
  patch = λ c s. (written, some c);
  post = λ c s. (written, some c);
  dispatch_assets = λ s. (true, s);
}

abbrev release : FastForward
release = record {
  sha = codes "c1";
  tag_name = codes "v15.2.0";
  version_scheme = "frappe-major";
  tag_prefix = codes "v";
  frappe_major = codes "15";
  pilot_assets = false;
  dry_run = false;
}

run_guard_example :
    (scheme_ok release ≡ true)
    × AtTag github release (write_ref github release missing none).1
    × ((run github release none).1
        ≡ (run_assets github release (write_ref github release missing none).1).1)
unfolding run scheme_ok peeled
run_guard_example = run_guard github release none refl

wrong_commit : (run github (record release { sha = codes "c2" }) none).0 ≡ rejected
unfolding run scheme_ok peeled
wrong_commit = refl
