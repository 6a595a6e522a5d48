-- ===== src/PortLease/Runtime.antt =====
-- lib/port-lease.py: the runtime directory's ports.lock and ports.json, the whole of `hold`, the
-- end of `serve`, and the readers `ready`, `live` and `show`. ports.json is the dictionary that
-- `hold` dumps; a template that is rendered is not modelled, only whether there is one.
pub mod Lifecycle
use frappe_nix.Prelude.{
  ℕ, ◌<◌, ltb, String, Bool, true, false, ◌&&◌, Option, none, some, List, [], ◌∷◌, ◌++◌, map,
  string_eq, number_eq, ◌==◌, if◌then◌else◌,
}
use mathlib.Core.Option
use frappe_nix.Prelude.Dict.{Dict, lookup, insert}
use frappe_nix.PortLease.Claims.{Env, Backend, Identity, Claims}
use frappe_nix.PortLease.Walk.{Want}
use frappe_nix.PortLease.Hold.{
  Args, Lease, Outcome, refused, checked, died, leased, release_all, hold_ports,
}

-- The values of ports.json.
pub data Field : Type 0 where
  text : String → Field
  number : ℕ → Field
  ports : Dict String ℕ → Field
  flag : Bool → Field

abbrev pub Record : Type 0
Record = Dict String Field

-- ports.json: not there, not a JSON object, or a record.
pub data PortsFile : Type 0 where
  absent unreadable : PortsFile
  holds : Record → PortsFile

-- The runtime directory: the process that holds ports.lock, and ports.json.
pub record Runtime : Type 0 where
  pub lock : Option ℕ
  pub file : PortsFile

-- `lock_runtime`, once its wait is over: `none` when another holder has the lock.
abbrev pub lock_for : ℕ → Runtime → Option ℕ → Option Runtime
lock_for pid rt (some other) = none
lock_for pid rt none = some (record rt { lock = some pid })

unfoldable pub lock_runtime : ℕ → Runtime → Option Runtime
lock_runtime pid rt = lock_for pid rt rt.lock

-- The unlink of ports.json that follows the lock.
abbrev pub unlink_file : Runtime → Runtime
unlink_file rt = record rt { file = absent }

-- `{**record, **got}`
abbrev pub add_ports : Dict String ℕ → Record → Record
add_ports [] r = r
add_ports ((k, p) ∷ got) r = add_ports got (insert k (number p) r)

abbrev pub preferred_of : List Want → Dict String ℕ → Dict String ℕ
preferred_of [] d = d
preferred_of (w ∷ ws) d = preferred_of ws (insert w.key w.port d)

-- `record` of `hold`
unfoldable pub record_of : Identity → String → Bool → Args → Lease → Record
record_of me runtime renders args lease = insert "identity" (flag renders) (
    insert "moved" (ports lease.moved) (
      insert "preferred" (ports (preferred_of args.want [])) (
        add_ports lease.got (
          insert "runtime" (text runtime) (
            insert "pid" (number me.pid) (
              insert "root" (text me.root)
                (insert "name" (text me.name) (insert "bench_id" (text me.bench_id) []))))))))

-- What `hold` did: it ended with an exit status, or it is up and serves.
pub data Held : Type 0 where
  exited : ℕ → Held
  serving : Lease → Held

module _ (env : Env) (backend : Backend) (me : Identity) (path : String) (renders : Bool) where
  -- An exit drops the lock with the process.
  abbrev pub after_ports : Args → Runtime → Runtime → Outcome × Claims → Held × Runtime × Claims
  after_ports args rt locked (refused a b, claims) =
      (exited 1, record locked { lock = rt.lock }, claims)
  after_ports args rt locked (checked, claims) =
      (exited 0, record locked { lock = rt.lock }, claims)
  after_ports args rt locked (died, claims) = (exited 1, record locked { lock = rt.lock }, claims)
  after_ports args rt locked (leased lease, claims) =
      (serving lease, record locked { file = holds (record_of me path renders args lease) }, claims)

  -- What follows the unlink: the ports, and with all of them ports.json.
  abbrev pub hold_rest : Args → Runtime → Runtime → Claims → Held × Runtime × Claims
  hold_rest args rt locked claims =
      after_ports args rt locked (hold_ports env backend me args claims)

  abbrev pub hold_locked : Args → Runtime → Claims → Option Runtime → Held × Runtime × Claims
  hold_locked args rt claims none = (exited 1, rt, claims)
  hold_locked args rt claims (some locked) = hold_rest args rt (unlink_file locked) claims

  -- A dry run takes no lock and leaves ports.json alone. A wet run locks, unlinks and takes its ports, one
  -- after the other.
  unfoldable pub hold : Args → Runtime → Claims → Held × Runtime × Claims
  hold args rt claims =
      if args.dry_run
      then hold_rest args rt rt claims
      else hold_locked args rt claims (lock_runtime me.pid rt)

-- The `finally` of `serve`: ports.json goes if it is this process's, and so do the claims; the
-- exit drops the lock.
abbrev pub has_pid : ℕ → PortsFile → Bool
has_pid pid (holds r) = elim (lookup "pid" r) [ some (number n) ↦ n == pid | _ ↦ false ]
has_pid pid _ = false

unfoldable pub stop : Identity → Lease → Runtime → Claims → Runtime × Claims
stop me lease rt claims = (
  record { lock = none; file = if has_pid me.pid rt.file then absent else rt.file },
  release_all lease.ports claims,
)

-- `lock_held`
abbrev pub lock_held : Runtime → Bool
lock_held rt = elim rt.lock [ none ↦ false | some pid ↦ true ]

-- `ready`: its exit status is 0.
abbrev pub is_record : PortsFile → Bool
is_record (holds r) = true
is_record _ = false

unfoldable pub ready : Runtime → Bool
ready rt = is_record rt.file && lock_held rt

-- `alive`: the pid is a positive number of a process.
abbrev pub alive : (ℕ → Bool) → Option Field → Bool
alive running (some (number pid)) = ltb 0 pid && running pid
alive running _ = false

abbrev pub live_file : (ℕ → Bool) → Runtime → PortsFile → Option Record
live_file running rt (holds r) =
    if alive running (lookup "pid" r) && lock_held rt then some r else none
live_file running rt _ = none

unfoldable pub live : (ℕ → Bool) → Runtime → Option Record
live running rt = live_file running rt rt.file

-- `show KEY`: its exit status, and the field that it prints.
abbrev pub show_key : Option Record → Dict String String → String → ℕ × Option Field
show_key none preferred key = (3, Option.map text (lookup key preferred))
show_key (some data') preferred key = elim (lookup key data') [
  | none ↦ (1, none)
  | some value ↦ (0, some value)
]
