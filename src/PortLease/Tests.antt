-- ===== src/PortLease/Tests.antt =====
-- Runs of the port lease, and its theorems at concrete inputs.
use frappe_nix.Prelude.{
  ◌↔◌, ℕ, ◌+◌, ◌≤◌, ◌<◌, ◌≡◌, refl, Bool, true, false, none, some, List, [], ◌∷◌, contains,
  number_eq, string_eq, ◌==◌, if◌then◌else◌,
}
use frappe_nix.PortLease.Claims.{
  Env, flock, Identity, Claims, unsaid, outside, held_by, bench, holding, set_claim, claim, release,
  tcp_free, describe,
}
use frappe_nix.PortLease.Walk.{Want, Walked, attempt, walk}
use frappe_nix.PortLease.Walk.Search.{available, claims_of}
use frappe_nix.PortLease.Walk.FirstFit.{walk_found, walk_exhausted}
use frappe_nix.PortLease.Hold.{
  Args, Lease, Outcome, refused, leased, release_all, lease_one, hold_ports,
}
use frappe_nix.PortLease.Hold.Exclusive.{hold_leased, hold_not_leased, hold_disjoint}
use frappe_nix.PortLease.Runtime.{PortsFile, absent, holds, number, lock_runtime, hold, ready}
use frappe_nix.PortLease.Runtime.Lifecycle.{
  Launch, Event, start, begins, goes_on, kill, World, idle, IsTracked, event, run, run-IsTracked,
  Announced, ready_iff_Announced,
}

-- Port 8234 is bound by a process outside.
abbrev env : Env
env = record { fails = λ p. false; resolves = λ host p. true; bound = λ host p. p == 8234 }

abbrev bench_a : Identity
bench_a = record { bench_id = "a"; name = "a"; root = "/a"; pid = 10 }

abbrev bench_b : Identity
bench_b = record { bench_id = "b"; name = "b"; root = "/b"; pid = 20 }

abbrev web : Want
web = record { key = "web"; label = "nginx"; host = "127.0.0.1"; port = 8234 }

abbrev mail : Want
mail = record { key = "mail"; label = "mailpit"; host = "127.0.0.1"; port = 8235 }

abbrev args : Args
args = record { strict = false; pin = []; span = 100; dry_run = false; want = web ∷ mail ∷ [] }

abbrev strict_args : Args
strict_args = record args { strict = true }

abbrev nobody : Claims
nobody q = none

abbrev lease_a : Lease
lease_a = record {
  ports = 8235 ∷ 8236 ∷ [];
  got = ("web", 8235) ∷ ("mail", 8236) ∷ [];
  moved = ("web", 8234) ∷ ("mail", 8235) ∷ [];
  taken = [];
}

abbrev lease_b : Lease
lease_b = record {
  ports = 8237 ∷ 8238 ∷ [];
  got = ("web", 8237) ∷ ("mail", 8238) ∷ [];
  moved = ("web", 8234) ∷ ("mail", 8235) ∷ [];
  taken = [];
}

abbrev claims_a : Claims
claims_a = (hold_ports env flock bench_a args nobody).1

abbrev claims_b : Claims
claims_b = (hold_ports env flock bench_b args claims_a).1

run_a : hold_ports env flock bench_a args nobody ≡ (leased lease_a, claims_a)
unfolding hold_ports lease_one walk attempt claim release tcp_free describe
run_a = refl

run_b : hold_ports env flock bench_b args claims_a ≡ (leased lease_b, claims_b)
unfolding hold_ports lease_one walk attempt claim release tcp_free describe
run_b = refl

abbrev walked : Walked
walked = walk env flock bench_a "127.0.0.1" [] 3 8234 unsaid nobody

abbrev is_available : ℕ → Bool
is_available = available env flock bench_a "127.0.0.1" [] nobody

walk_found_example :
    (8234 ≤ 8235)
    × (8235 < 8234 + 3)
    × (is_available 8235 ≡ true)
    × (claims_of env flock bench_a "127.0.0.1" [] walked
        ≡ set_claim 8235 (some (holding flock bench_a)) nobody)
    × ((q : ℕ) → 8234 ≤ q → q < 8235 → is_available q ≡ false)
unfolding walk attempt claim release tcp_free
walk_found_example =
    walk_found env flock bench_a "127.0.0.1" [] 3 8234 unsaid nobody {p = 8235} {why = outside} refl

-- The one port of the range is bound.
abbrev none_found : Walked
none_found = walk env flock bench_a "127.0.0.1" [] 1 8234 unsaid nobody

walk_exhausted_example :
    (claims_of env flock bench_a "127.0.0.1" [] none_found ≡ nobody)
    × ((q : ℕ) → 8234 ≤ q → q < 8235 → is_available q ≡ false)
unfolding walk attempt claim release tcp_free
walk_exhausted_example =
    walk_exhausted env flock bench_a "127.0.0.1" [] 1 8234 unsaid nobody {why = outside}
      {after = claims_of env flock bench_a "127.0.0.1" [] none_found} refl

hold_leased_example :
    ((q : ℕ) → contains lease_a.ports q ≡ true → nobody q ≡ none)
    × ((q : ℕ)
        → claims_a q
          ≡ (if contains lease_a.ports q then some (holding flock bench_a) else nobody q))
hold_leased_example = hold_leased env flock bench_a args nobody run_a

abbrev strict_claims : Claims
strict_claims = (hold_ports env flock bench_b strict_args claims_a).1

abbrev strict_outcome : Outcome
strict_outcome = (hold_ports env flock bench_b strict_args claims_a).0

strict_refused : strict_outcome ≡ refused ((web, outside) ∷ (mail, held_by (bench bench_a)) ∷ []) []
unfolding hold_ports lease_one walk attempt claim release tcp_free describe
strict_refused = refl

hold_not_leased_example : strict_claims ≡ claims_a
unfolding hold_ports lease_one walk attempt claim release tcp_free describe
hold_not_leased_example =
    hold_not_leased env flock bench_b strict_args claims_a strict_outcome strict_claims refl
      (λ lease e. cc)

hold_disjoint_example : contains lease_b.ports 8236 ≡ false
hold_disjoint_example =
    hold_disjoint env env flock bench_a bench_b args args {lease = lease_a} {lease' = lease_b}
      nobody run_a run_b 8236 refl

abbrev launch : Identity → Launch
launch me = record {
  env = env;
  backend = flock;
  me = me;
  path = "/run";
  renders = true;
  args = args;
}

abbrev empty : World
empty = record { rt = record { lock = none; file = absent }; claims = nobody; stage = idle }

-- The second process is killed between its lock and its unlink.
abbrev crash_and_restart : List Event
crash_and_restart =
    start (launch bench_a)
    ∷ kill
    ∷ begins (launch bench_b)
    ∷ kill
    ∷ begins (launch bench_b)
    ∷ goes_on
    ∷ goes_on
    ∷ []

run-IsTracked_example : IsTracked (run crash_and_restart empty)
run-IsTracked_example = run-IsTracked crash_and_restart empty refl

ready_iff_Announced_example :
    (ready (run crash_and_restart empty).rt ≡ true)
    ↔ (Announced (run crash_and_restart empty).stage (run crash_and_restart empty).rt.file)
ready_iff_Announced_example = ready_iff_Announced crash_and_restart empty refl

restarted : ready (run crash_and_restart empty).rt ≡ true
unfolding run event hold release_all hold_ports lease_one walk attempt claim release tcp_free
    lock_runtime ready
restarted = refl

-- What a killed holder leaves.
abbrev left : PortsFile
left = holds (("pid", number 10) ∷ [])

abbrev second : World
second =
    event (begins (launch bench_b))
      (record { rt = record { lock = none; file = left }; claims = nobody; stage = idle })

abbrev third : World
third = event goes_on second
