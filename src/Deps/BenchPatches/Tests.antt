-- ===== src/Deps/BenchPatches/Tests.antt =====
-- A record that a failed update left with a blank line.
use frappe_nix.Prelude.{◌≡◌, refl, Option, some, true, Text, codes}
use frappe_nix.Deps.BenchPatches.{reconcile, recorded, entries}
use frappe_nix.Deps.BenchPatches.Recorded.{Records, reconcile-Records}

abbrev shipped : Text
shipped = codes "# bench\nbench.patches.v3.a\n bench.patches.v4.b #2\n"

abbrev record_before : Option Text
record_before = some (codes "\nbench.patches.v3.a")

run_lem :
    reconcile true (some shipped) record_before
    ≡ (recorded 1, some (codes "bench.patches.v3.a\nbench.patches.v4.b #2\n"))
unfolding reconcile
run_lem = refl

reconcile-Records_example :
    Records (entries shipped) (reconcile true (some shipped) record_before).1
    × (reconcile true (some shipped) (reconcile true (some shipped) record_before).1
        ≡ (recorded 0, (reconcile true (some shipped) record_before).1))
reconcile-Records_example = reconcile-Records shipped record_before (refl, (refl, tt))
