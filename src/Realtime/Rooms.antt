-- ===== src/Realtime/Rooms.antt =====
-- What the server goes through: sockets that connect, events whose handlers run at once or wait for the web
-- process, answers in any order, and sockets that go away; and what a socket listens to after it.
use frappe_nix.Prelude.{
  ◌⊎◌, ◌≡◌, Bool, true, false, not, ◌&&◌, Option, none, some, List, [], ◌∷◌, ◌++◌, Text, text_eq,
  pair_eq, contains, if◌then◌else◌,
}
use frappe_nix.Prelude.Dict.{insert}
use frappe_nix.Realtime.Args.{Arg}
use frappe_nix.Realtime.Auth.{Session, Server, authenticate, accept}
use frappe_nix.Realtime.Site.{Environ}
use frappe_nix.Realtime.Dispatch.{is_guest, core_app}
use frappe_nix.Realtime.Socket.{Manager, Hub, Socket, session_of}
use frappe_nix.Realtime.Handlers.{Event, allow_guest, Task, acts, asks, handle}

-- A request for a permission: the socket's namespace and sid, the doctype and the name.
abbrev pub Asked : Type 0
Asked = (Text × Text) × (Text × Text)

-- A connection that was let in: the socket, the handshake's environ, and the session that it got.
pub record Admission : Type 0 where
  pub socket : Socket
  pub environ : Environ
  pub session : Session

-- The server with the handlers that wait for an answer, the permissions that were granted, and the connections
-- that were let in, the last one first.
pub record World (S : Type 0) : Type 0 where
  pub hub : Hub S
  pub waiting : List (Socket × Event)
  pub granted : List Asked
  pub log : List Admission

-- One of the connections is such.
abbrev pub Was : (Admission → Type 0) → List Admission → Type 0
Was P [] = ⊥
Was P (a ∷ log) = P a ⊎ Was P log

-- A connection of this very socket.
abbrev pub Of : Text → Text → Admission → Type 0
Of n i a = (a.socket.namespace ≡ n) × (a.socket.sid ≡ i)

-- Whether the dispatcher calls the core's handler of an event.
abbrev pub core_called : Option Session → Event → Bool
core_called none event = false
core_called (some session) event =
    contains session.installed_apps core_app
    && not (is_guest session.user && not (allow_guest event))

abbrev pub begin : {S : Type 0} → Socket → Event → Task S → World S → World S
begin s event (acts f) w = record w { hub = f w.hub }
begin s event (asks doctype docname f) w = record w { waiting = w.waiting ++ (s, event) ∷ [] }

abbrev pub resume : {S : Type 0} → Socket → Bool → Task S → World S → World S
resume s answer (acts f) w = w
resume s true (asks doctype docname f) w = record w {
  hub = f w.hub;
  granted = ((s.namespace, s.sid), (doctype, docname)) ∷ w.granted;
}
resume s false (asks doctype docname f) w = w

module _ {S : Type 0} (m : Manager S) (developer_mode : Bool) where
  -- An event of a socket, up to where its handler ends or waits.
  unfoldable pub receive : Socket → Event → World S → World S
  receive s event w =
      if core_called (session_of s w.hub) event
      then begin s event (handle m developer_mode s event) w
      else w

  -- The connection of an authenticated socket: its session is saved, over one that the sid has already, then its
  -- handler runs.
  unfoldable pub admit : Socket → Environ → Session → World S → World S
  admit s e session w = receive s Event.connect (record w {
    hub = record w.hub {
      rooms = m.connect w.hub.rooms s.sid s.namespace;
      sessions = insert (s.namespace, s.sid) session w.hub.sessions;
    };
    log = record { socket = s; environ = e; session = session } ∷ w.log;
  })

  -- The answer to a handler that waits.
  unfoldable pub answered : Socket → Event → Bool → World S → World S
  answered s event answer w = resume s answer (handle m developer_mode s event) w

  -- A socket goes away: the library takes it out of its rooms, before or after its last handler.
  unfoldable pub drop : Socket → World S → World S
  drop s w = record w { hub = record w.hub { rooms = m.disconnect w.hub.rooms s.sid s.namespace } }

  -- A session of an earlier connection is the socket's again, with the documents that it has by now.
  unfoldable pub restore : Socket → Session → List (Arg × Arg) → World S → World S
  restore s session documents w = record w {
    hub = record w.hub {
      sessions =
          insert (s.namespace, s.sid) (record session { subscribed_documents = documents })
            w.hub.sessions;
    };
  }

  -- One thing that happens. A socket may connect again under its sid: it keeps its rooms, and a handler that
  -- waited meanwhile holds the session that it began with, and may save that one. `restores` is the change
  -- from one of these sessions to another, at any time.
  pub data Step (srv : Server) (secret : Text) : World S → World S → Type 0 where
    connects :
        {w : World S} (s : Socket) (e : Environ) (session : Session)
        → authenticate srv secret e s.namespace ≡ accept session
        → Step srv secret w (admit s e session w)
    sends : {w : World S} (s : Socket) (event : Event) → Step srv secret w (receive s event w)
    answers :
        {w : World S} (s : Socket) (event : Event) (before after : List (Socket × Event))
        (answer : Bool)
        → w.waiting ≡ before ++ (s, event) ∷ after
        → Step srv secret w (answered s event answer (record w { waiting = before ++ after }))
    restores :
        {w : World S} (s : Socket) (session : Session) (documents : List (Arg × Arg))
        → Was (λ a. Of s.namespace s.sid a × (a.session ≡ session)) w.log
        → Step srv secret w (restore s session documents w)
    leaves : {w : World S} (s : Socket) → Step srv secret w (drop s w)

  -- Any number of them.
  pub data Steps (srv : Server) (secret : Text) : World S → World S → Type 0 where
    stays : {w : World S} → Steps srv secret w w
    then_step :
        {v w x : World S} → Steps srv secret v w → Step srv secret w x → Steps srv secret v x
