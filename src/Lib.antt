-- ===== src/Lib.antt =====
-- The tools of frappe-nix: what the parts that guard shared state promise.
--
-- The program and its parts
--
-- frappe-nix packages a Frappe bench: a development shell, production images, a command line for app
-- repositories and a runtime that serves web, realtime and jobs in one process. The parts modelled here
-- are those whose mistakes reach beyond one process: the ports and claims that benches of one host share,
-- the guard between a development bench and a production bucket, the runtime's shutdown and restart, the
-- authentication of its sockets and the rooms that they listen in, what may merge and release without a
-- person, the guard between a development bench and real mailboxes, and locked source trees.
--
-- Files and sources
--
-- Prelude: Python's equality, membership and text functions over lists of character codes, dicts as
--   association lists, and the part of `urllib.parse.urlsplit` that the sources read.
-- PortLease: lib/port-lease.py. Claims is `Claim`, `claim` and `holder`; Walk is the inner loop of `hold`
--   over a range of ports; Hold is `hold` from its first want to the lease, with `--strict`, `--dry-run`
--   and the release of what it took; Runtime is the lock, ports.json, and `ready`, `alive`, `live`, `show`.
--   Runtime/Lifecycle runs benches as a sequence of starts,
--   of the steps of a start, of stops and of kills.
-- DevGuard/ObjectStore: lib/devguard/frappe_devguard/guards/objectstore.py, the patches of botocore's client
--   and signers, and of `frappe.get_site_config` (SiteConfig).
-- DevGuard/Mail: guards/mail.py beside it, the patches of Frappe's outgoing and incoming mail, over Frappe's own
--   functions as arguments. DevGuard/Frappe: lib/devguard/frappe_devguard/_frappe.py, `with_in_install` and
--   `rewhitelist`.
-- Runner: runtime/src/frappe_runtime/runner.py. Traffic, Restart, Signals, Source and Jobs are `Traffic` and
--   its middleware, `RestartWatch`, `Runner.drain` and the end of `Runner.run`, `SourceWatch`, and
--   `BackgroundJobs`, `ThreadedWorker` and `Scheduler`.
-- Realtime: Site is runtime/src/frappe_runtime/util.py, and Auth is runtime/src/frappe_runtime/auth.py, from
--   the environ of a connection to its session. Dispatch is registry.py and the choice of handlers in
--   dispatch.py, Socket is socket.py over a client manager of python-socketio, Handlers is handlers.py, and
--   Bridge the messages of bridge.py, all beside them. Args is what a client sends as an argument. Rooms puts
--   these together into the steps of the server; Listens, Kept, Reach, Private and Viewers are about what its
--   sockets listen to.
-- Ci: Verdict, Automerge and Release are verdict.py, automerge.py and release.py in
--   py/frappe_nix_tools/frappe_nix_tools/ci; Automerge has the branch protection of common/github.py too.
--   Branches is branches.py there, `is_bot_pr` and `Updater.run`, and Drift is `keep_issue` of drift.py.
-- Pins: py/frappe_nix_tools/frappe_nix_tools/common/pins.py. Token is the fetch and its redirects, Tree is
--   `pin_path`.
-- Flake: common/flakelock.py beside it, `node_at` and `input_node`, and in Names and Coordinates `locked_pin`. Nar:
--   common/nar.py, the serialisation of a tree that `nar_hash` hashes.
-- Scaffold: Blocks is blocks.py and Regions is regions.py in py/frappe_nix_tools/frappe_nix_tools/scaffold: the
--   managed block of `.gitignore`, the version block of `__init__.py`, and the local regions of a file. Globs is
--   globs.py there, path globs and the regular expressions that they become.
-- Deps: BenchPatches is py/frappe_nix_tools/frappe_nix_tools/deps/bench_patches.py, the record of patches;
--   SetupRequirements is setup_requirements.py beside it, its words and the commands that it runs.
-- Ratchet: py/frappe_nix_tools/frappe_nix_tools/commands/ratchet.py, the comparison of a pull request with its
--   base, over documents that are already read.
--
-- How the code is modelled
--
-- State is passed explicitly. The claims of a host are a function from a port to who holds it: the lock
-- files and abstract sockets of the source, which only their holder can take away. What the model cannot
-- decide is an argument: which ports are bound (`Env`), what an object store does (`Store`), what GitHub
-- answers (`Server`, `Github`), what other clients do between a check and a write (`meanwhile`),
-- `fnmatchcase`, the cookie parser, loopback addresses of `ipaddress`, the web process, the rooms of
-- python-socketio, what Frappe's own mail functions do, and SHA-256.
-- A property that needs more of them names it as a hypothesis, and its witness has a concrete instance.
--
-- Exceptions are constructors of a result type, and exit statuses are numbers. Messages are kept by
-- their structure, not by their wording. Texts are lists of codes; lower case and blanks are those of
-- ASCII. Times are natural numbers in one unit. Overlapping work is a list of events, in any order; each
-- event of it is one step, so a signal handler that another signal interrupts is not modelled.
--
-- A start of the port lease takes the lock, unlinks ports.json and takes its ports in three steps, and the process
-- may be killed between them. A round of the restart watch reads its values one after the other; what happens
-- between the readings is not said, so they are separate values.
--
-- A client of the realtime server may connect again under its sid, as server.py tolerates. A handler that waits
-- meanwhile holds the session that it began with and may save it over the new one: in the model the session
-- of a socket may become that of any earlier connection of it, at any time. Arguments of events are any JSON
-- values; what `str` and the HTTP client make of one that is no text comes with it.
--
-- A handler of the realtime server gives the event loop up only while it waits for a permission: what
-- it does before and after that is one step, and steps of other sockets come between.
--
-- Loops are recursion on the list or on the count that the source loops over; the ten rounds of `peeled`
-- and the ten looks of `ensure_ci` are the source's own. Only `node_at` has fuel, for how deep `follows` paths
-- lead into one another, which the source does not bound: every path that leads to a node has fuel enough.
--
-- Not modelled: the templates of ports.json and the commands that only print it; the start of uvicorn and
-- of watchdog, and engine.io's sockets; the transports to GitHub, to S3 and to the web process, and the
-- clone and unpacking of a tree; the version pattern of `__init__.py`, which is an argument; the JSON of
-- flake.lock and base64; worker threads of plain handlers; the other guards of lib/devguard, the scaffold
-- engine, the repository commands, and everything in Nix.
pub mod Prelude
pub mod PortLease
pub mod DevGuard
pub mod Runner
pub mod Ci
pub mod Realtime
pub mod Pins
pub mod Scaffold
pub mod Ratchet
pub mod Nar
pub mod Flake
pub mod Deps
