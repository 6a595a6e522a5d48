-- ===== src/Runner/Jobs.antt =====
-- The jobs of runner.py: the stop of all job threads within one time limit, the dequeue of a worker
-- that polls, and the scheduler's retries.
use frappe_nix.Prelude.{
  ℕ, ◌+◌, ◌-◌, ◌≤◌, ◌≡◌, ◌∙◌, Bool, true, false, not, ◌&&◌, Option, none, some, List, [], ◌∷◌, any,
  leb, ltb, if◌then◌else◌, arith,
}

-- `Thread.join(timeout)` of a thread that ends at a time of its own: the time at which it returns.
abbrev pub least : ℕ → ℕ → ℕ
least a b = if leb a b then a else b

abbrev pub greatest : ℕ → ℕ → ℕ
greatest a b = if leb a b then b else a

-- `JobThread.wait` at a time: the time after it, and whether it warned that the job continues.
unfoldable pub wait_thread : ℕ → ℕ → ℕ → ℕ × Bool
wait_thread now ends timeout =
    if leb ends now
    then (now, false)
    else (let after = least ends (now + timeout) in (after, ltb after ends))

-- The loop of `BackgroundJobs.wait`: the time at its end, and the warnings.
unfoldable pub wait_until : ℕ → ℕ → List ℕ → ℕ × ℕ
wait_until deadline now [] = (now, 0)
wait_until deadline now (ends ∷ threads) =
    let (after, warned) = wait_thread now ends (deadline - now) in
    let (last, warnings) = wait_until deadline after threads in
    (last, if warned then warnings + 1 else warnings)

unfoldable pub wait_all : ℕ → ℕ → List ℕ → ℕ × ℕ
unfolding wait_until wait_thread
wait_all timeout now threads = wait_until (now + timeout) now threads

-- When the last of the threads ends, not before `now`
abbrev pub last_end : ℕ → List ℕ → ℕ
last_end now [] = now
last_end now (ends ∷ threads) = last_end (greatest now ends) threads

abbrev pub late : ℕ → List ℕ → ℕ
late deadline [] = 0
late deadline (ends ∷ threads) =
    let rest = late deadline threads in if ltb deadline ends then rest + 1 else rest

-- Up to a deadline, `last_end` depends on its start only up to the deadline.
last_end_cong :
    (deadline x y : ℕ) (threads : List ℕ)
    → least deadline x ≡ least deadline y
    → least deadline (last_end x threads) ≡ least deadline (last_end y threads)
last_end_cong deadline x y [] h = h
last_end_cong deadline x y (ends ∷ threads) h =
    last_end_cong deadline (greatest x ends) (greatest y ends) threads (ground (arith, h))

wait_thread_lem :
    (deadline now ends : ℕ)
    → now ≤ deadline
    → wait_thread now ends (deadline - now)
      ≡ (least deadline (greatest now ends), ltb deadline ends)
unfolding wait_thread
wait_thread_lem deadline now ends h = ground arith

wait_until_lem :
    (deadline now : ℕ) (threads : List ℕ)
    → now ≤ deadline
    → wait_until deadline now threads
      ≡ (least deadline (last_end now threads), late deadline threads)
unfolding wait_until
wait_until_lem deadline now [] h = ground arith
wait_until_lem deadline now (ends ∷ threads) h = rw (wait_thread_lem deadline now ends h) (
    ground (
      arith,
      wait_until_lem deadline (least deadline (greatest now ends)) threads (ground arith),
      last_end_cong deadline (least deadline (greatest now ends)) (greatest now ends) threads
          (ground arith),
    ))

-- The job threads together get the time of the timeout: the wait ends when the last of them ends or
-- at the deadline, whichever is first, and it warns of exactly the jobs that end later.
pub wait_all-eq-deadline :
    (timeout now : ℕ) (threads : List ℕ)
    → wait_all timeout now threads
      ≡ (least (now + timeout) (last_end now threads), late (now + timeout) threads)
unfolding wait_all
wait_all-eq-deadline timeout now threads = wait_until_lem (now + timeout) now threads (omega arith)

-- `ThreadedWorker.dequeue_job_and_maintain_ttl`: each round reads the stop flag, and polls if it is
-- not set. `StopRequested`, a job, or the loop still runs.
pub data Dequeued (Job : Type 0) : Type 0 where
  stop_requested polling : Dequeued Job
  got_job : Job → Dequeued Job

module _ {Job : Type 0} where
  unfoldable pub dequeue : List (Bool × Option Job) → Dequeued Job
  dequeue [] = polling
  dequeue ((true, poll) ∷ rounds) = stop_requested
  dequeue ((false, none) ∷ rounds) = dequeue rounds
  dequeue ((false, some job) ∷ rounds) = got_job job

-- `Scheduler._run`: what each try of `start_scheduler` does, the two flags, and the lines logged.
pub data Try : Type 0 where
  raises returns : Try

pub record Scheduler : Type 0 where
  pub lock_busy : Bool
  pub start_failed : Bool
  pub failures_logged : ℕ
  pub busy_logged : ℕ

unfoldable pub try_once : Try → Scheduler → Scheduler
try_once raises s =
    if not s.start_failed
    then record s { failures_logged = s.failures_logged + 1; start_failed = true }
    else s
try_once returns s =
    if not s.lock_busy then record s { busy_logged = s.busy_logged + 1; lock_busy = true } else s

unfoldable pub tries : List Try → Scheduler → Scheduler
tries [] s = s
tries (t ∷ ts) s = tries ts (try_once t s)

abbrev pub is_raise : Try → Bool
is_raise raises = true
is_raise returns = false

abbrev pub fresh : Scheduler
fresh = record { lock_busy = false; start_failed = false; failures_logged = 0; busy_logged = 0 }

tries_lem :
    (ts : List Try) (s : Scheduler)
    → ((tries ts s).failures_logged ≡ (
        if not s.start_failed && any is_raise ts then s.failures_logged + 1 else s.failures_logged))
      × ((tries ts s).busy_logged ≡ (
          if not s.lock_busy && any (λ t. not (is_raise t)) ts
          then s.busy_logged + 1
          else s.busy_logged))
unfolding tries try_once
tries_lem [] s = (ground arith, ground arith)
tries_lem (raises ∷ ts) s = (
  ground (arith, (tries_lem ts (try_once raises s)).0),
  ground (arith, (tries_lem ts (try_once raises s)).1),
)
tries_lem (returns ∷ ts) s = (
  ground (arith, (tries_lem ts (try_once returns s)).0),
  ground (arith, (tries_lem ts (try_once returns s)).1),
)

-- However often the scheduler tries, it logs a failed start once if a try raised, a busy lock once if
-- a try returned, and neither otherwise.
pub tries_log_once :
    (ts : List Try)
    → ((tries ts fresh).failures_logged ≡ (if any is_raise ts then 1 else 0))
      × ((tries ts fresh).busy_logged ≡ (if any (λ t. not (is_raise t)) ts then 1 else 0))
tries_log_once ts = ((tries_lem ts fresh).0 ∙ ground arith, (tries_lem ts fresh).1 ∙ ground arith)
