-- ===== src/Runner/Tests.antt =====
-- Runs of the runner, and its theorems at concrete inputs.
use frappe_nix.Prelude.{◌≡◌, refl, Bool, true, false, List, [], ◌∷◌, codes, if◌then◌else◌}
use frappe_nix.Runner.Config.{Config}
use frappe_nix.Runner.Traffic.Quiet.{steps_quiet}
use frappe_nix.Runner.Traffic.{
  Traffic, health_check, web_request, job, work_of, http, Event, begins, finishes, Process, begin,
  finish, step, steps, busy_count, steps-in_flight,
}
use frappe_nix.Runner.Restart.{
  Look, Reason, sent_hup, watch, is_limit_reached, is_idle, watch_safe, watch_due,
}
use frappe_nix.Runner.Signals.{
  hup, term, started, drain_all, ends, exec, exit, all_hup, ends-drain_all,
}
use frappe_nix.Runner.Source.{Change}

abbrev new : Traffic
new = record {
  counts = record { web = 0; realtime = 0; jobs = 0 };
  in_flight = 0;
  last_web_request = 5;
}

abbrev idle : Process
idle = record { traffic = new; active = [] }

abbrev busy_day : List Event
busy_day =
    begins web_request
    ∷ begins job
    ∷ begins health_check
    ∷ finishes 2 (record { now = 9; status = 200; raised = false })
    ∷ []

ping_is_health_check : work_of (http "/api/method/ping") ≡ health_check
unfolding work_of
ping_is_health_check = refl

steps-in_flight_example :
    (steps busy_day idle).traffic.in_flight ≡ busy_count (steps busy_day idle).active
steps-in_flight_example = steps-in_flight busy_day idle refl

one_job_left : (steps busy_day idle).traffic.in_flight ≡ 1
unfolding steps step begin finish
one_job_left = refl

abbrev pings : List Event
pings = begins health_check ∷ finishes 0 (record { now = 9; status = 500; raised = true }) ∷ []

unchanged : (steps pings idle).traffic ≡ new
unchanged = steps_quiet pings idle refl refl

abbrev config : Config
config = record {
  job_threads = 1;
  restart_after_requests = 2;
  restart_after_jobs = 0;
  restart_idle_seconds = 300;
  job_drain_seconds = 600;
  dev = false;
}

abbrev served : Traffic
served = record {
  counts = record { web = 2; realtime = 0; jobs = 0 };
  in_flight = 0;
  last_web_request = 9;
}

abbrev early : Look
early = record {
  draining = false;
  in_flight = 1;
  at_limit = served.counts;
  at_idle = served.counts;
  last_web_request = 9;
  now = 10;
}

abbrev due : Look
due = record early { in_flight = 0; now = 20 }

watch_safe_example : (due.draining ≡ false) × (due.in_flight ≡ 0) × Reason config due
unfolding watch is_limit_reached is_idle
watch_safe_example = watch_safe config (early ∷ due ∷ []) {l = due} refl

watch_due_example : (m : Look) × (watch config (early ∷ due ∷ []) ≡ sent_hup m)
unfolding is_limit_reached is_idle
watch_due_example = watch_due config (early ∷ []) [] due refl refl refl

ends-drain_all_example :
    ends (drain_all (hup ∷ term ∷ hup ∷ []) started)
    ≡ (if all_hup (hup ∷ term ∷ hup ∷ []) then exec else exit)
ends-drain_all_example = ends-drain_all hup (term ∷ hup ∷ [])

abbrev saved : Change
saved = record {
  event_type = "moved";
  is_directory = false;
  src_path = codes "a.tmp";
  dest_path = codes "a.py";
}

abbrev burst : List (Bool × Change)
burst = (false, saved) ∷ (false, record saved { dest_path = [] }) ∷ (false, saved) ∷ []
