-- ===== src/PortLease/Runtime/Lifecycle.antt =====
-- lib/port-lease.py: one runtime directory over any sequence of starts, steps, stops and kills, by any number
-- of benches with any command lines.
use frappe_nix.Prelude.{
  if◌then◌else◌, if_intro, ◌↔◌, ℕ, String, ◌≡◌, refl, Bool, true, false, ◌&&◌, Option, none, some,
  List, [], ◌∷◌, number_eq, arith, Bool-cases, inl, inr,
}
use frappe_nix.PortLease.Claims.{Env, Backend, Identity, Claims}
use frappe_nix.PortLease.Hold.{
  Args, Lease, Outcome, refused, checked, died, leased, release_all, hold_ports,
}
use frappe_nix.PortLease.Hold.Exclusive.{hold_ports-Wet}
use frappe_nix.PortLease.Runtime.{
  PortsFile, absent, holds, Runtime, lock_runtime, lock_for, record_of, Held, exited, serving,
  unlink_file, hold_rest, after_ports, hold_locked, hold, stop, ready, is_record, lock_held,
}

-- One start of `frappe-ports`: its host, its bench and its command line.
pub record Launch : Type 0 where
  pub env : Env
  pub backend : Backend
  pub me : Identity
  pub path : String
  pub renders : Bool
  pub args : Args

-- The process that serves, with what it leased.
pub record Up : Type 0 where
  pub launch : Launch
  pub lease : Lease

-- Where the process that holds the runtime directory is: it has taken the lock, it has unlinked what was
-- there, or it serves; `idle` is that there is none.
pub data Stage : Type 0 where
  idle : Stage
  locked unlinked : Launch → Stage
  serves : Up → Stage

pub record World : Type 0 where
  pub rt : Runtime
  pub claims : Claims
  pub stage : Stage

-- `start` is a whole `hold` that nothing interrupts. `begins` is its first step, the lock, and each `goes_on`
-- the next step of the process that has the lock. `stopped` is a SIGTERM, and `kill` the end of the process by
-- a signal that it cannot handle: nothing of the `finally` runs, and the kernel drops the lock and the claims.
pub data Event : Type 0 where
  start begins : Launch → Event
  goes_on stopped kill : Event

-- What `hold` left, with the stage to which an exit leads.
abbrev pub ended : Launch → Stage → Held × Runtime × Claims → World
ended l back (exited status, rt, claims) = record { rt = rt; claims = claims; stage = back }
ended l back (serving lease, rt, claims) = record {
  rt = rt;
  claims = claims;
  stage = serves (record { launch = l; lease = lease });
}

abbrev pub hold_of : Launch → Runtime → Claims → Held × Runtime × Claims
hold_of l rt claims = hold l.env l.backend l.me l.path l.renders l.args rt claims

abbrev pub took : Launch → World → Option Runtime → World
took l w none = w
took l w (some rt) = record w { rt = rt; stage = locked l }

abbrev pub freed : Runtime → Runtime
freed rt = record rt { lock = none }

abbrev pub next : World → Stage → World
next w (locked l) = record w { rt = unlink_file w.rt; stage = unlinked l }
next w (unlinked l) =
    ended l idle (hold_rest l.env l.backend l.me l.path l.renders l.args (freed w.rt) w.rt w.claims)
next w idle = w
next w (serves u) = w

abbrev pub kill_stage : World → Stage → World
kill_stage w idle = w
kill_stage w (locked l) = record w { rt = freed w.rt; stage = idle }
kill_stage w (unlinked l) = record w { rt = freed w.rt; stage = idle }
kill_stage w (serves u) = record {
  rt = freed w.rt;
  claims = release_all u.lease.ports w.claims;
  stage = idle;
}

-- Before it serves, the process has no handler for SIGTERM.
abbrev pub stop_stage : World → Stage → World
stop_stage w (serves u) =
    let (rt, claims) = stop u.launch.me u.lease w.rt w.claims in
    record { rt = rt; claims = claims; stage = idle }
stop_stage w other = kill_stage w other

unfoldable pub event : Event → World → World
event (start l) w = ended l w.stage (hold_of l w.rt w.claims)
event (begins l) w =
    if l.args.dry_run
    then ended l w.stage (hold_of l w.rt w.claims)
    else took l w (lock_runtime l.me.pid w.rt)
event goes_on w = next w w.stage
event stopped w = stop_stage w w.stage
event kill w = kill_stage w w.stage

unfoldable pub run : List Event → World → World
run [] w = w
run (e ∷ es) w = run es (event e w)

abbrev pub record_of_up : Up → PortsFile
record_of_up u = holds (record_of u.launch.me u.launch.path u.launch.renders u.launch.args u.lease)

-- The lock is the process's that has come that far, ports.json is gone once that process unlinked it, and it
-- is what that process wrote while it serves.
abbrev pub Tracks : Stage → Runtime → Type 0
Tracks idle rt = rt.lock ≡ none
Tracks (locked l) rt = (rt.lock ≡ some l.me.pid) × (l.args.dry_run ≡ false)
Tracks (unlinked l) rt = (rt.lock ≡ some l.me.pid) × (rt.file ≡ absent) × (l.args.dry_run ≡ false)
Tracks (serves u) rt = (rt.lock ≡ some u.launch.me.pid) × (rt.file ≡ record_of_up u)

abbrev pub IsTracked : World → Type 0
IsTracked w = Tracks w.stage w.rt

after_ports-Tracks :
    (l : Launch) (back : Stage) (rt taken : Runtime) (o : Outcome × Claims)
    → Tracks back (record taken { lock = rt.lock })
    → (l.args.dry_run ≡ false → taken.lock ≡ some l.me.pid)
    → ((lease : Lease) → o.0 ≡ leased lease → l.args.dry_run ≡ false)
    → IsTracked (ended l back (after_ports l.env l.backend l.me l.path l.renders l.args rt taken o))
after_ports-Tracks l back rt taken (refused a b, claims) t mine wet = t
after_ports-Tracks l back rt taken (checked, claims) t mine wet = t
after_ports-Tracks l back rt taken (died, claims) t mine wet = t
after_ports-Tracks l back rt taken (leased lease, claims) t mine wet = (mine (wet lease refl), refl)

-- Where the lock is free, only `idle` is tracked, whatever the file is.
Tracks-unlinked :
    (stage : Stage) (rt : Runtime)
    → Tracks stage rt
    → rt.lock ≡ none
    → Tracks stage (record { lock = rt.lock; file = absent })
Tracks-unlinked idle rt t e = t
Tracks-unlinked (locked l) rt t e = t
Tracks-unlinked (unlinked l) rt t e = (t.0, refl, t.2)
Tracks-unlinked (serves u) rt t e = absurd (ground (arith, t.0, e))

hold-Tracks :
    (l : Launch) (w : World) → IsTracked w → IsTracked (ended l w.stage (hold_of l w.rt w.claims))
unfolding hold lock_runtime
hold-Tracks l w t = elim (Bool-cases l.args.dry_run) [
  | inl dry ↦ simp dry (
      after_ports-Tracks l w.stage w.rt w.rt (hold_ports l.env l.backend l.me l.args w.claims) t
        (λ wet. absurd (ground (arith, dry, wet)))
        (hold_ports-Wet l.env l.backend l.me l.args w.claims))
  | inr wet ↦ simp wet (go w.rt.lock refl)
]
  where
    go :
        (lock : Option ℕ)
        → w.rt.lock ≡ lock
        → IsTracked (
            ended l w.stage (
              hold_locked l.env l.backend l.me l.path l.renders l.args w.rt w.claims
                (lock_for l.me.pid w.rt lock)))
    go none e =
        after_ports-Tracks l w.stage w.rt (record { lock = some l.me.pid; file = absent })
          (hold_ports l.env l.backend l.me l.args w.claims) (Tracks-unlinked w.stage w.rt t e)
          (λ wet. refl) (hold_ports-Wet l.env l.backend l.me l.args w.claims)
    go (some pid) e = t

took-Tracks :
    (l : Launch) (w : World) (lock : Option ℕ)
    → l.args.dry_run ≡ false
    → IsTracked w
    → IsTracked (took l w (lock_for l.me.pid w.rt lock))
took-Tracks l w none wet t = (refl, wet)
took-Tracks l w (some other) wet t = t

next-Tracks :
    (w : World) (stage : Stage) → w.stage ≡ stage → Tracks stage w.rt → IsTracked (next w stage)
next-Tracks w idle e t = rw e t
next-Tracks w (locked l) e t = (t.0, refl, t.1)
next-Tracks w (unlinked l) e t =
    after_ports-Tracks l idle (freed w.rt) w.rt (hold_ports l.env l.backend l.me l.args w.claims)
      refl (λ wet. t.0) (hold_ports-Wet l.env l.backend l.me l.args w.claims)
next-Tracks w (serves u) e t = rw e t

kill-Tracks :
    (w : World) (stage : Stage)
    → w.stage ≡ stage
    → Tracks stage w.rt
    → IsTracked (kill_stage w stage)
kill-Tracks w idle e t = rw e t
kill-Tracks w (locked l) e t = refl
kill-Tracks w (unlinked l) e t = refl
kill-Tracks w (serves u) e t = refl

stop-Tracks :
    (w : World) (stage : Stage)
    → w.stage ≡ stage
    → Tracks stage w.rt
    → IsTracked (stop_stage w stage)
unfolding stop
stop-Tracks w idle e t = rw e t
stop-Tracks w (locked l) e t = refl
stop-Tracks w (unlinked l) e t = refl
stop-Tracks w (serves u) e t = refl

event-IsTracked : (e : Event) (w : World) → IsTracked w → IsTracked (event e w)
unfolding event lock_runtime
event-IsTracked (start l) w t = hold-Tracks l w t
event-IsTracked (begins l) w t =
    if_intro IsTracked l.args.dry_run (λ dry. hold-Tracks l w t)
      (λ wet. took-Tracks l w w.rt.lock wet t)
event-IsTracked goes_on w t = next-Tracks w w.stage refl t
event-IsTracked stopped w t = stop-Tracks w w.stage refl t
event-IsTracked kill w t = kill-Tracks w w.stage refl t

-- Whatever benches start, go on, stop or are killed in whatever order and between whatever steps, from a tracked
-- state on: the lock is held by the process that took it, by no other; once that process has unlinked
-- ports.json there is none; and while it serves ports.json is the record that it wrote.
pub run-IsTracked : (es : List Event) (w : World) → IsTracked w → IsTracked (run es w)
unfolding run
run-IsTracked [] w t = t
run-IsTracked (e ∷ es) w t = run-IsTracked es (event e w) (event-IsTracked e w t)

-- When `ready` answers yes.
abbrev pub Announced : Stage → PortsFile → Type 0
Announced idle file = ⊥
Announced (locked l) file = is_record file ≡ true
Announced (unlinked l) file = ⊥
Announced (serves u) file = Unit

-- From a tracked state on, and wherever a process is stopped or killed, `ready` answers yes while a process
-- serves, and otherwise only between the lock and the unlink of a process that found a record there, such
-- as a killed one leaves.
pub ready_iff_Announced :
    (es : List Event) (w : World)
    → IsTracked w
    → (ready (run es w).rt ≡ true) ↔ Announced (run es w).stage (run es w).rt.file
unfolding ready
ready_iff_Announced es w t = split (run es w).stage (run es w).rt (run-IsTracked es w t)
  where
    split :
        (stage : Stage) (rt : Runtime)
        → Tracks stage rt
        → ((is_record rt.file && lock_held rt) ≡ true) ↔ Announced stage rt.file
    split idle rt t' = (λ h. ground (arith, h, t'), λ n. absurd n)
    split (locked l) rt t' = (λ h. ground (arith, h), λ n. rw (t'.0, n) refl)
    split (unlinked l) rt t' = (λ h. ground (arith, h, t'.1), λ n. absurd n)
    split (serves u) rt t' = (λ h. tt, λ n. rw (t'.0, t'.1) refl)

abbrev pub is_serving : Held → Bool
is_serving (serving lease) = true
is_serving (exited status) = false
