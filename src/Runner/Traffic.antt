-- ===== src/Runner/Traffic.antt =====
-- `Traffic` and `TrafficMiddleware` of runner.py. The requests and jobs overlap, so each is a begin
-- and a finish, and the process meets these in any order.
pub mod Quiet
use frappe_nix.Prelude.{
  ℕ, zero, suc, ◌+◌, ◌-◌, String, ◌≡◌, refl, Bool, true, false, ◌&&◌, List, [], ◌∷◌, codes,
  starts_with, all, ◌∙◌, contains, string_eq, leb, ltb, if◌then◌else◌, arith, Bool-cases, inl, inr,
}

pub record Counts : Type 0 where
  pub web : ℕ
  pub realtime : ℕ
  pub jobs : ℕ

pub record Traffic : Type 0 where
  pub counts : Counts
  pub in_flight : ℕ
  pub last_web_request : ℕ

-- The scope of an ASGI call.
pub data Scope : Type 0 where
  lifespan websocket : Scope
  http : String → Scope

abbrev pub socketio_path : String
socketio_path = "/socket.io"

abbrev pub health_check_paths : List String
health_check_paths = "/api/method/ping" ∷ []

-- The branches of `TrafficMiddleware.__call__`, and a job of `ThreadedWorker`.
pub data Work : Type 0 where
  lifespan_call realtime_call health_check web_request job : Work

unfoldable pub work_of : Scope → Work
work_of lifespan = lifespan_call
work_of websocket = realtime_call
work_of (http path) =
    if starts_with (codes path) (codes socketio_path)
    then realtime_call
    else if contains health_check_paths path
    then health_check
    else web_request

-- The work that stands in a `with traffic.busy()` block.
abbrev pub is_busy : Work → Bool
is_busy web_request = true
is_busy job = true
is_busy _ = false

unfoldable pub begin : Work → Traffic → Traffic
begin realtime_call t = record t { counts = record t.counts { realtime = t.counts.realtime + 1 } }
begin web_request t = record t { in_flight = t.in_flight + 1 }
begin job t = record t { in_flight = t.in_flight + 1 }
begin lifespan_call t = t
begin health_check t = t

abbrev pub is_success : ℕ → Bool
is_success status = leb 200 status && ltb status 300

-- `count_web`
unfoldable pub count_web : ℕ → ℕ → Traffic → Traffic
count_web now status t = record t {
  last_web_request = now;
  counts = if is_success status then record t.counts { web = t.counts.web + 1 } else t.counts;
}

-- How a piece of work ends: the status that was sent, 0 for none, or whether the job raised.
pub record End : Type 0 where
  pub now : ℕ
  pub status : ℕ
  pub raised : Bool

-- The `finally` of `busy`
abbrev pub leave : Traffic → Traffic
leave t = record t { in_flight = t.in_flight - 1 }

abbrev pub count_job : Bool → Traffic → Traffic
count_job true t = t
count_job false t = record t { counts = record t.counts { jobs = t.counts.jobs + 1 } }

unfoldable pub finish : Work → End → Traffic → Traffic
unfolding count_web
finish web_request e t = leave (count_web e.now e.status t)
finish job e t = count_job e.raised (leave t)
finish _ e t = t

-- The process: its traffic, and the work that has begun and not finished.
pub record Process : Type 0 where
  pub traffic : Traffic
  pub active : List Work

-- The n-th piece of active work finishes.
pub data Event : Type 0 where
  begins : Work → Event
  finishes : ℕ → End → Event

abbrev pub finish_nth : ℕ → End → Traffic → List Work → Traffic
finish_nth n e t [] = t
finish_nth zero e t (w ∷ ws) = finish w e t
finish_nth (suc n) e t (w ∷ ws) = finish_nth n e t ws

abbrev pub drop_nth : ℕ → List Work → List Work
drop_nth n [] = []
drop_nth zero (w ∷ ws) = ws
drop_nth (suc n) (w ∷ ws) = w ∷ drop_nth n ws

unfoldable pub step : Event → Process → Process
step (begins w) p = record { traffic = begin w p.traffic; active = w ∷ p.active }
step (finishes n e) p = record {
  traffic = finish_nth n e p.traffic p.active;
  active = drop_nth n p.active;
}

unfoldable pub steps : List Event → Process → Process
steps [] p = p
steps (e ∷ es) p = steps es (step e p)

abbrev pub busy_count : List Work → ℕ
busy_count [] = 0
busy_count (w ∷ ws) = if is_busy w then suc (busy_count ws) else busy_count ws

begin-in_flight :
    (w : Work) (t : Traffic)
    → (begin w t).in_flight ≡ (if is_busy w then t.in_flight + 1 else t.in_flight)
unfolding begin
begin-in_flight lifespan_call t = refl
begin-in_flight realtime_call t = refl
begin-in_flight health_check t = refl
begin-in_flight web_request t = refl
begin-in_flight job t = refl

finish-in_flight :
    (w : Work) (e : End) (t : Traffic)
    → (finish w e t).in_flight ≡ (if is_busy w then t.in_flight - 1 else t.in_flight)
unfolding finish
finish-in_flight lifespan_call e t = refl
finish-in_flight realtime_call e t = refl
finish-in_flight health_check e t = refl
finish-in_flight web_request e t = refl
finish-in_flight job e t = ground arith

finish_nth-in_flight :
    (n : ℕ) (e : End) (t : Traffic) (ws : List Work) (k : ℕ)
    → t.in_flight ≡ busy_count ws + k
    → (finish_nth n e t ws).in_flight ≡ busy_count (drop_nth n ws) + k
finish_nth-in_flight n e t [] k h = h
finish_nth-in_flight zero e t (w ∷ ws) k h = ground (arith, h, finish-in_flight w e t)
finish_nth-in_flight (suc n) e t (w ∷ ws) k h = elim (Bool-cases (is_busy w)) [
  | inl b ↦ ground (arith, h, b, finish_nth-in_flight n e t ws (k + 1))
  | inr b ↦ ground (arith, h, b, finish_nth-in_flight n e t ws k)
]

step-in_flight :
    (e : Event) (p : Process)
    → p.traffic.in_flight ≡ busy_count p.active
    → (step e p).traffic.in_flight ≡ busy_count (step e p).active
unfolding step
step-in_flight (begins w) p h = ground (arith, h, begin-in_flight w p.traffic)
step-in_flight (finishes n e) p h =
    omega (arith, finish_nth-in_flight n e p.traffic p.active 0 (omega arith))

-- In whatever order requests and jobs begin, end and fail, `in_flight` is the number of web requests
-- and jobs that have begun and not ended, if it is so at first.
pub steps-in_flight :
    (es : List Event) (p : Process)
    → p.traffic.in_flight ≡ busy_count p.active
    → (steps es p).traffic.in_flight ≡ busy_count (steps es p).active
unfolding steps
steps-in_flight [] p h = h
steps-in_flight (e ∷ es) p h = steps-in_flight es (step e p) (step-in_flight e p h)
