-- ===== src/Runner/Signals.antt =====
-- `Runner.drain` and the end of `Runner.run` of runner.py: what signals do to the process.
use frappe_nix.Prelude.{
  ℕ, ◌+◌, ◌≡◌, Bool, true, false, not, ◌&&◌, List, [], ◌∷◌, ◌++◌, all, if◌then◌else◌, arith, ◌∙◌,
  ap,
}
use mathlib.Core.List.{append-nil, append_assoc}

pub data Signal : Type 0 where
  hup int term : Signal

abbrev pub is_hup : Signal → Bool
is_hup hup = true
is_hup _ = false

-- The two events, how often the jobs were told to stop and the realtime clients disconnected, and the
-- signals that uvicorn's `handle_exit` has got.
pub record Runner : Type 0 where
  pub draining : Bool
  pub restarting : Bool
  pub jobs_stopped : ℕ
  pub realtime_closed : ℕ
  pub web_stops : List Signal

abbrev pub started : Runner
started = record {
  draining = false;
  restarting = false;
  jobs_stopped = 0;
  realtime_closed = 0;
  web_stops = [];
}

abbrev pub mark : Signal → Runner → Runner
mark sig r =
    if not (is_hup sig)
    then record r { restarting = false }
    else if not r.draining
    then record r { restarting = true }
    else r

abbrev pub begin_drain : Runner → Runner
begin_drain r =
    if not r.draining
    then record r {
      draining = true;
      jobs_stopped = r.jobs_stopped + 1;
      realtime_closed = r.realtime_closed + 1;
    }
    else r

abbrev pub stop_web : Signal → Runner → Runner
stop_web sig r = record r { web_stops = r.web_stops ++ sig ∷ [] }

unfoldable pub drain : Signal → Runner → Runner
drain sig r = stop_web sig (begin_drain (mark sig r))

unfoldable pub drain_all : List Signal → Runner → Runner
drain_all [] r = r
drain_all (sig ∷ sigs) r = drain_all sigs (drain sig r)

-- The end of `run`: whether the process executes itself again.
pub data Ending : Type 0 where
  exec exit : Ending

unfoldable pub ends : Runner → Ending
ends r = if r.restarting then exec else exit

abbrev pub all_hup : List Signal → Bool
all_hup = all is_hup

drain_all-draining :
    (sigs : List Signal) (r : Runner)
    → r.draining ≡ true
    → drain_all sigs r
      ≡ record r { restarting = r.restarting && all_hup sigs; web_stops = r.web_stops ++ sigs }
unfolding drain_all drain
drain_all-draining [] r d = ground (arith, append-nil r.web_stops)
drain_all-draining (sig ∷ sigs) r d =
    drain_all-draining sigs (drain sig r) (ground (arith, d))
    ∙ ground (arith, d, append_assoc r.web_stops (sig ∷ []) sigs)

-- An exit signal has more priority than SIGHUP, in whatever order they come: the process executes
-- itself again exactly when signals came and every one of them was SIGHUP.
pub ends-drain_all :
    (sig : Signal) (sigs : List Signal)
    → ends (drain_all (sig ∷ sigs) started) ≡ (if is_hup sig && all_hup sigs then exec else exit)
unfolding ends drain_all drain
ends-drain_all sig sigs =
    ap ends (drain_all-draining sigs (drain sig started) (ground arith)) ∙ ground arith

-- However many signals come, `drain` tells the jobs to stop once and the realtime clients are
-- disconnected once, and uvicorn gets every signal, in order.
pub drain_all_once :
    (sig : Signal) (sigs : List Signal)
    → let r : Runner = drain_all (sig ∷ sigs) started in
      (r.jobs_stopped ≡ 1)
      × (r.realtime_closed ≡ 1)
      × (r.web_stops ≡ sig ∷ sigs)
      × (r.draining ≡ true)
unfolding drain_all drain
drain_all_once sig sigs =
    let e = drain_all-draining sigs (drain sig started) (ground arith) in
    (
      ap (λ (r : Runner). r.jobs_stopped) e ∙ ground arith,
      ap (λ (r : Runner). r.realtime_closed) e ∙ ground arith,
      ap (λ (r : Runner). r.web_stops) e ∙ ground arith,
      ap (λ (r : Runner). r.draining) e ∙ ground arith,
    )
