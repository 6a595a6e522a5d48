-- ===== src/Realtime/RoomTests.antt =====
-- Runs of the server over a client manager in memory.
use frappe_nix.Prelude.{
  ◌≡◌, refl, Bool, true, false, not, ◌&&◌, some, List, [], ◌∷◌, Text, codes, text_eq, pair_eq, ◌==◌,
  contains, All,
}
use frappe_nix.Realtime.Args.{Arg, text, value, shown, sent, key_pair, keys_of}
use frappe_nix.Realtime.Auth.{Session}
use frappe_nix.Realtime.Tests.{server, page, session, lets_in}
use frappe_nix.Realtime.Dispatch.{Handler, raised}
use frappe_nix.Realtime.Handlers.{
  asks, doc_subscribe, user_room, doc_room, open_doc_room, handle, on_connect, doc_opened,
  doc_closed, notify_doc_viewers,
}
use frappe_nix.Realtime.Rooms.{
  Was, World, Steps, stays, then_step, connects, sends, answers, receive, admit, answered,
}
use frappe_nix.Realtime.Reach.{start}
use frappe_nix.Realtime.Private.{LetInAs, user_room_own}
use frappe_nix.Realtime.Viewers.{doc_closed_forgets}
use frappe_nix.Realtime.Bridge.{RealtimeEvent, handle_raw, handle_raw-Addressed, Addressed}
use frappe_nix.Realtime.Socket.{
  is_in, Hub, Socket, session_of, join, connected, subscribed, emit, set_subscribed,
}
use frappe_nix.Realtime.InMemory.{State, in_memory, in_memory-Lawful}

abbrev nobody : State
nobody = record { members = []; open' = [] }

nobody_in : (n r i : Text) → is_in in_memory nobody n r i ≡ false
nobody_in n r i = refl

abbrev ada : Socket
ada = record { sid = codes "a1"; namespace = codes "/a.test" }

abbrev first : World State
first = start in_memory in_memory-Lawful false server (codes "s") nobody

abbrev here' : World State
here' = admit in_memory false ada page session first

abbrev asking : World State
asking = receive in_memory false ada (doc_subscribe (text (codes "Task")) (text (codes "T1"))) here'

abbrev listening : World State
listening =
    answered in_memory false ada (doc_subscribe (text (codes "Task")) (text (codes "T1"))) true
      (record asking { waiting = [] })

waits : asking.waiting ≡ (ada, doc_subscribe (text (codes "Task")) (text (codes "T1"))) ∷ []
unfolding receive admit handle on_connect join
waits = refl

steps_lem : Steps in_memory false server (codes "s") first listening
steps_lem =
    then_step
      (then_step (then_step stays (connects ada page session lets_in))
        (sends ada (doc_subscribe (text (codes "Task")) (text (codes "T1")))))
      (answers ada (doc_subscribe (text (codes "Task")) (text (codes "T1"))) [] [] true waits)

-- The same socket connects once more, and keeps its rooms.
steps_again_lem :
    Steps in_memory false server
      (codes "s")
      first
      (admit in_memory false ada page session listening)
steps_again_lem = then_step steps_lem (connects ada page session lets_in)

-- A name that is the number 0: the permission is asked for on an empty name.
abbrev number_zero : Arg
number_zero =
    value (record { is_true = false; shown = codes "0"; sent = codes "0"; equals = codes "0" })

zero_asked :
    handle in_memory false ada (doc_subscribe (text (codes "Task")) number_zero)
    ≡ asks (codes "Task") [] (join in_memory ada (doc_room (codes "Task") (codes "0")))
unfolding handle
zero_asked = refl

in_user_room :
    is_in in_memory listening.hub.rooms (codes "/a.test") (user_room (codes "ada")) (codes "a1")
    ≡ true
unfolding answered receive admit handle on_connect join
in_user_room = refl

user_room_own_example :
    Was
      (LetInAs in_memory in_memory-Lawful false server
        (codes "s")
        (codes "/a.test")
        (codes "a1")
        (codes "ada"))
      listening.log
user_room_own_example =
    user_room_own in_memory in_memory-Lawful false server (codes "s") nobody nobody_in listening
      steps_lem (codes "/a.test") (codes "ada") (codes "a1") refl in_user_room

abbrev hub : Hub State
hub = record {
  rooms = record { members = []; open' = (codes "/a.test", codes "a1") ∷ [] };
  sessions = ((codes "/a.test", codes "a1"), session) ∷ [];
  sent = [];
  published = [];
}

abbrev task : Arg
task = text (codes "Task")

abbrev t1 : Arg
t1 = text (codes "T1")

abbrev opened : Hub State
opened = doc_opened in_memory ada task t1 hub

abbrev opened_session : Session
opened_session = record session { subscribed_documents = (task, t1) ∷ [] }

has_opened : session_of ada opened ≡ some opened_session
unfolding doc_opened join set_subscribed notify_doc_viewers emit
has_opened = refl

there_opened : connected in_memory ada opened ≡ true
unfolding doc_opened join set_subscribed notify_doc_viewers emit
there_opened = refl

doc_closed_forgets_example :
    (is_in in_memory
        (doc_closed in_memory ada task t1 opened).rooms
        (codes "/a.test")
        (open_doc_room (codes "Task") (codes "T1"))
        (codes "a1")
      ≡ false)
    × ((pair : Text × Text)
        → contains (keys_of (subscribed ada (doc_closed in_memory ada task t1 opened))) pair
          ≡ (contains (keys_of (subscribed ada opened)) pair && not (pair == key_pair (task, t1))))
doc_closed_forgets_example =
    doc_closed_forgets in_memory in_memory-Lawful ada task t1 opened opened_session has_opened
      there_opened

abbrev counts : Bool → Text → Handler (List Text)
counts allow app = record {
  event = codes "ping";
  fn = λ w. raised (app ∷ w);
  frappe_context = false;
  is_async = true;
  allow_guest = allow;
  app = app;
}

abbrev news : RealtimeEvent Text
news = record {
  event = codes "list_update";
  message = [];
  room = some (codes "all");
  namespace = some (codes "a.test");
}

handle_raw-Addressed_example :
    All (Addressed (codes "/a.test" ∷ []) news) (handle_raw (codes "/a.test" ∷ []) (some news))
handle_raw-Addressed_example = handle_raw-Addressed (codes "/a.test" ∷ []) news
