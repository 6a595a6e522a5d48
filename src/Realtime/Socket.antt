-- ===== src/Realtime/Socket.antt =====
-- socket.py: the socket that handlers work with, over the rooms of python-socketio's client manager, which
-- is not part of this repository: its operations are a parameter, and `Lawful` says what is relied on.
use frappe_nix.Prelude.{
  ◌≡◌, Bool, true, not, Option, none, some, List, [], ◌∷◌, ◌++◌, Text, text_eq, pair_eq, contains,
  if◌then◌else◌, ◌⊎◌,
}
use frappe_nix.Prelude.Dict.{Dict, lookup, insert}
use frappe_nix.Realtime.Args.{Arg}
use frappe_nix.Realtime.Auth.{Session}

-- The client manager: a socket's sid, a room, and last its namespace, as the library's methods take them.
pub record Manager (S : Type 0) : Type 0 where
  pub is_connected : S → Text → Text → Bool
  pub enter_room : S → Text → Text → Text → S
  pub leave_room : S → Text → Text → Text → S
  pub participants : S → Text → Text → List Text
  pub connect : S → Text → Text → S
  pub disconnect : S → Text → Text → S

-- Whether a sid is in a room of a namespace.
abbrev pub is_in : {S : Type 0} → Manager S → S → Text → Text → Text → Bool
is_in m s namespace room sid = contains (m.participants s namespace room) sid

-- What the library documents of its rooms: entering and leaving one changes nothing else; a connection
-- puts no socket in a room but the one that bears its sid; a socket that goes away enters no room.
pub record Lawful (S : Type 0) (m : Manager S) : Type 0 where
  pub entered :
      (s : S) (sid room namespace sid' room' namespace' : Text)
      → is_in m (m.enter_room s sid room namespace) namespace' room' sid' ≡ true
      → (is_in m s namespace' room' sid' ≡ true)
        ⊎ ((namespace ≡ namespace') × (room ≡ room') × (sid ≡ sid'))
  pub joined :
      (s : S) (sid room namespace : Text)
      → is_in m (m.enter_room s sid room namespace) namespace room sid ≡ true
  pub left :
      (s : S) (sid room namespace sid' room' namespace' : Text)
      → is_in m (m.leave_room s sid room namespace) namespace' room' sid' ≡ true
      → is_in m s namespace' room' sid' ≡ true
  pub gone :
      (s : S) (sid room namespace : Text)
      → is_in m (m.leave_room s sid room namespace) namespace room sid ≡ true
      → ⊥
  pub attached :
      (s : S) (sid namespace sid' room' namespace' : Text)
      → is_in m (m.connect s sid namespace) namespace' room' sid' ≡ true
      → (is_in m s namespace' room' sid' ≡ true) ⊎ (room' ≡ sid')
  pub dropped :
      (s : S) (sid namespace sid' room' namespace' : Text)
      → is_in m (m.disconnect s sid namespace) namespace' room' sid' ≡ true
      → is_in m s namespace' room' sid' ≡ true

-- What the handlers of the core send to clients.
pub data Message : Type 0 where
  pong : Message
  doc_viewers : Arg → Arg → List Text → Message

pub record Emission : Type 0 where
  pub message : Message
  pub to : Text
  pub namespace : Text

-- The server: its rooms, the sessions of its sockets under their namespace and sid, what it sent to
-- clients, and what it published to redis.
pub record Hub (S : Type 0) : Type 0 where
  pub rooms : S
  pub sessions : Dict (Text × Text) Session
  pub sent : List Emission
  pub published : List Text

-- `Socket`: its session is the one that the server holds for it.
pub record Socket : Type 0 where
  pub sid : Text
  pub namespace : Text

abbrev pub session_of : {S : Type 0} → Socket → Hub S → Option Session
session_of s h = lookup (s.namespace, s.sid) h.sessions

abbrev pub user_or : Option Session → Text
user_or none = []
user_or (some session) = session.user

-- `Socket.user`
abbrev pub user : {S : Type 0} → Socket → Hub S → Text
user s h = user_or (session_of s h)

abbrev pub type_or_empty : Option Text → Text
type_or_empty none = []
type_or_empty (some t) = t

abbrev pub user_type_or : Option Session → Text
user_type_or none = []
user_type_or (some session) = type_or_empty session.user_type

-- `Socket.user_type`
abbrev pub user_type : {S : Type 0} → Socket → Hub S → Text
user_type s h = user_type_or (session_of s h)

abbrev pub documents_or : Option Session → List (Arg × Arg)
documents_or none = []
documents_or (some session) = session.subscribed_documents

-- `socket.get("subscribed_documents", [])`
abbrev pub subscribed : {S : Type 0} → Socket → Hub S → List (Arg × Arg)
subscribed s h = documents_or (session_of s h)

abbrev pub with_documents :
    {S : Type 0} → Socket → List (Arg × Arg) → Option Session → Hub S → Hub S
with_documents s documents none h = h
with_documents s documents (some session) h = record h {
  sessions =
      insert (s.namespace, s.sid) (record session { subscribed_documents = documents }) h.sessions;
}

-- `socket.set("subscribed_documents", documents)`: the session is one object, so saving it again
-- to a socket that is still there stores nothing new.
unfoldable pub set_subscribed : {S : Type 0} → Socket → List (Arg × Arg) → Hub S → Hub S
set_subscribed s documents h = with_documents s documents (session_of s h) h

-- `Socket.emit`: to a room, or to this client.
abbrev pub room_or : Option Text → Text → Text
room_or none sid = sid
room_or (some []) sid = sid
room_or (some (c ∷ room)) sid = c ∷ room

unfoldable pub emit : {S : Type 0} → Socket → Message → Option Text → Hub S → Hub S
emit s message room h = record h {
  sent =
      h.sent ++ record { message = message; to = room_or room s.sid; namespace = s.namespace } ∷ [];
}

-- `Socket.user_of`
abbrev pub user_of : {S : Type 0} → Socket → Text → Hub S → Option Text
user_of s sid h = elim (lookup (s.namespace, sid) h.sessions) [
  | none ↦ none
  | some session ↦ some session.user
]

module _ {S : Type 0} (m : Manager S) where
  abbrev pub connected : Socket → Hub S → Bool
  connected s h = m.is_connected h.rooms s.sid s.namespace

  -- `Socket.join`
  unfoldable pub join : Socket → Text → Hub S → Hub S
  join s room h =
      if not (connected s h)
      then h
      else record h { rooms = m.enter_room h.rooms s.sid room s.namespace }

  -- `Socket.leave`
  unfoldable pub leave : Socket → Text → Hub S → Hub S
  leave s room h =
      if not (connected s h)
      then h
      else record h { rooms = m.leave_room h.rooms s.sid room s.namespace }
