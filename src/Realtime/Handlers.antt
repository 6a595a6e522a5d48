-- ===== src/Realtime/Handlers.antt =====
-- handlers.py: the rooms, and the handlers of the core. A handler gives the loop up only where it asks the
-- web process for a permission, which is always the first thing it does.
use frappe_nix.Prelude.{
  Bool, true, false, not, ◌&&◌, Option, none, some, List, [], ◌∷◌, ◌++◌, Text, codes, text_eq,
  pair_eq, ◌==◌, contains, keep, is_empty, if◌then◌else◌,
}
use frappe_nix.Realtime.Args.{Arg, is_given, shown, sent, sent_name, key_pair, keys_of}
use frappe_nix.Realtime.Socket.{
  Manager, Hub, Socket, pong, doc_viewers, user, user_type, subscribed, set_subscribed, emit,
  user_of, join, leave,
}

abbrev pub website_room : Text
website_room = codes "website"

abbrev pub site_room : Text
site_room = codes "all"

abbrev pub user_room : Text → Text
user_room user = codes "user:" ++ user

abbrev pub doctype_room : Text → Text
doctype_room doctype = codes "doctype:" ++ doctype

abbrev pub doc_room : Text → Text → Text
doc_room doctype docname = codes "doc:" ++ (doctype ++ b'/' ∷ docname)

abbrev pub task_room : Text → Text
task_room task_id = codes "task_progress:" ++ task_id

abbrev pub open_doc_room : Text → Text → Text
open_doc_room doctype docname = codes "open_doc:" ++ (doctype ++ b'/' ∷ docname)

-- The events that the core has a handler for, with what a client sends; for `open_in_editor`, what
-- `json.dumps` makes of it.
pub data Event : Type 0 where
  connect disconnect ping : Event
  doctype_subscribe doctype_unsubscribe task_subscribe task_unsubscribe progress_subscribe :
      Arg → Event
  open_in_editor : Text → Event
  doc_subscribe doc_unsubscribe doc_open doc_close : Arg → Arg → Event

-- `allow_guest` of an event's handler.
abbrev pub allow_guest : Event → Bool
allow_guest (open_in_editor data') = false
allow_guest _ = true

-- A handler's run: what it does at once, or the permission it asks for, with the doctype and the name as they are
-- sent (an absent name is empty), and what it does if it is granted.
pub data Task (S : Type 0) : Type 0 where
  acts : (Hub S → Hub S) → Task S
  asks : Text → Text → (Hub S → Hub S) → Task S

abbrev pub user_known : Option Text → List Text → List Text
user_known none users = users
user_known (some user) users = if is_empty user then users else user ∷ users

-- The users of the sids that have one, in order.
abbrev pub users_of : {S : Type 0} → Socket → List Text → Hub S → List Text
users_of s [] h = []
users_of s (sid ∷ sids) h = user_known (user_of s sid h) (users_of s sids h)

-- `list(dict.fromkeys(users))`, with the users that were seen
abbrev pub unique_from : List Text → List Text → List Text
unique_from seen [] = []
unique_from seen (user ∷ users) =
    let rest = unique_from seen users in
    let more = user ∷ unique_from (user ∷ seen) users in if contains seen user then rest else more

abbrev pub unique : List Text → List Text
unique users = unique_from [] users

-- `len(users) == 1 and users[0] == socket.user`
abbrev pub is_alone : List Text → Text → Bool
is_alone (only ∷ []) user = only == user
is_alone _ user = false

-- The pair behind those that are tracked, unless it is one of them.
abbrev pub track : {S : Type 0} → Socket → Arg → Arg → Hub S → Hub S
track s doctype docname h =
    if contains (keys_of (subscribed s h)) (key_pair (doctype, docname))
    then h
    else set_subscribed s (subscribed s h ++ (doctype, docname) ∷ []) h

abbrev pub untrack : Arg → Arg → List (Arg × Arg) → List (Arg × Arg)
untrack doctype docname tracked =
    keep (λ pair. not (key_pair pair == key_pair (doctype, docname))) tracked

-- `open_in_editor`, under the configuration's developer mode.
abbrev pub editor_opened : {S : Type 0} → Bool → Text → Hub S → Hub S
editor_opened developer_mode data' h =
    if not developer_mode then h else record h { published = h.published ++ data' ∷ [] }

module _ {S : Type 0} (m : Manager S) where
  unfoldable pub notify_doc_viewers : Socket → Arg → Arg → Hub S → Hub S
  notify_doc_viewers s doctype docname h =
      let room = open_doc_room (shown doctype) (shown docname) in
      let users = users_of s (m.participants h.rooms s.namespace room) h in
      if not (is_given doctype && is_given docname)
      then h
      else if is_alone users (user s h)
      then h
      else emit s (doc_viewers doctype docname (unique users)) (some room) h

  unfoldable pub on_connect : Socket → Hub S → Hub S
  on_connect s h =
      let named = join m s (user_room (user s h)) h in
      let public = join m s website_room named in
      if user_type s public == codes "System User" then join m s site_room public else public

  unfoldable pub doc_opened : Socket → Arg → Arg → Hub S → Hub S
  doc_opened s doctype docname h =
      notify_doc_viewers s doctype docname
        (track s doctype docname (join m s (open_doc_room (shown doctype) (shown docname)) h))

  unfoldable pub doc_closed : Socket → Arg → Arg → Hub S → Hub S
  doc_closed s doctype docname h =
      let out = leave m s (open_doc_room (shown doctype) (shown docname)) h in
      let forgot = set_subscribed s (untrack doctype docname (subscribed s out)) out in
      notify_doc_viewers s doctype docname forgot

  abbrev pub notify_all : Socket → List (Arg × Arg) → Hub S → Hub S
  notify_all s [] h = h
  notify_all s ((doctype, docname) ∷ pairs) h =
      notify_all s pairs (notify_doc_viewers s doctype docname h)

  unfoldable pub on_disconnect : Socket → Hub S → Hub S
  on_disconnect s h = notify_all s (subscribed s h) h

  -- The handler of an event.
  unfoldable pub handle : Bool → Socket → Event → Task S
  handle developer_mode s connect = acts (on_connect s)
  handle developer_mode s disconnect = acts (on_disconnect s)
  handle developer_mode s ping = acts (emit s pong none)
  handle developer_mode s (doctype_subscribe doctype) =
      asks (sent doctype) [] (join m s (doctype_room (shown doctype)))
  handle developer_mode s (doctype_unsubscribe doctype) =
      acts (leave m s (doctype_room (shown doctype)))
  handle developer_mode s (task_subscribe task_id) = acts (join m s (task_room (shown task_id)))
  handle developer_mode s (task_unsubscribe task_id) = acts (leave m s (task_room (shown task_id)))
  handle developer_mode s (progress_subscribe task_id) = acts (join m s (task_room (shown task_id)))
  handle developer_mode s (open_in_editor data') = acts (editor_opened developer_mode data')
  handle developer_mode s (doc_subscribe doctype docname) =
      asks (sent doctype) (sent_name docname) (join m s (doc_room (shown doctype) (shown docname)))
  handle developer_mode s (doc_unsubscribe doctype docname) =
      acts (leave m s (doc_room (shown doctype) (shown docname)))
  handle developer_mode s (doc_open doctype docname) =
      asks (sent doctype) (sent_name docname) (doc_opened s doctype docname)
  handle developer_mode s (doc_close doctype docname) = acts (doc_closed s doctype docname)
