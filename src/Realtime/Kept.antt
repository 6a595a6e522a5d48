-- ===== src/Realtime/Kept.antt =====
-- That each handler keeps a socket to the rooms that it has a right to.
use frappe_nix.Prelude.{
  not, ◌&&◌, ◌≡◌, sym, ◌∙◌, ap, Bool, true, false, Option, none, some, List, [], ◌∷◌, ◌++◌, Text,
  codes, text_eq, pair_eq, ◌==◌, contains, inl, if_intro,
}
use frappe_nix.Realtime.Auth.{Session}
use frappe_nix.Realtime.Socket.{
  Manager, Lawful, Hub, Socket, session_of, user, user_type, user_type_or, type_or_empty,
  subscribed, set_subscribed, join, leave, pong, doc_viewers,
}
use frappe_nix.Realtime.Handlers.{
  Event, connect, disconnect, ping, doctype_subscribe, doctype_unsubscribe, task_subscribe,
  task_unsubscribe, progress_subscribe, open_in_editor, doc_subscribe, doc_unsubscribe, doc_open,
  doc_close, Task, acts, asks, handle, website_room, site_room, user_room, doctype_room, doc_room,
  task_room, open_doc_room, notify_doc_viewers, notify_all, on_connect, on_disconnect, track,
  doc_opened, doc_closed, untrack, users_of, is_alone, unique, editor_opened,
}
use frappe_nix.Realtime.Rooms.{Asked, Admission}
use frappe_nix.Realtime.Args.{Arg, shown, sent, sent_name, is_given, keys_of, key_pair}
use frappe_nix.Realtime.Listens.{
  Known, Known-backward, own_room, open_website, own_site, any_task, granted_doctype, granted_doc,
  granted_open, Keeps, Keeps-same, Keeps-trans, join-Keeps, leave-Keeps, emit-Keeps,
  set_subscribed-Keeps, Within-same,
}

module _ {S : Type 0} (m : Manager S) (laws : Lawful S m) (granted : List Asked)
    (log : List Admission) where
  notify_doc_viewers-Keeps :
      (s : Socket) (doctype docname : Arg) (h : Hub S)
      → Keeps m laws granted log h (notify_doc_viewers m s doctype docname h)
  unfolding notify_doc_viewers
  notify_doc_viewers-Keeps s doctype docname h =
      let users =
        users_of s
          (m.participants h.rooms s.namespace (open_doc_room (shown doctype) (shown docname))) h in
      if_intro (Keeps m laws granted log h) (not (is_given doctype && is_given docname))
        (λ e. Keeps-same m laws granted log h)
        (λ e.
          if_intro (Keeps m laws granted log h) (is_alone users (user s h))
            (λ e. Keeps-same m laws granted log h)
            (λ e.
              emit-Keeps m laws granted log s (doc_viewers doctype docname (unique users))
                (some (open_doc_room (shown doctype) (shown docname))) h))

  notify_all-Keeps :
      (s : Socket) (pairs : List (Arg × Arg)) (h : Hub S)
      → Keeps m laws granted log h (notify_all m s pairs h)
  notify_all-Keeps s [] h = Keeps-same m laws granted log h
  notify_all-Keeps s ((doctype, docname) ∷ pairs) h =
      Keeps-trans m laws granted log (notify_doc_viewers-Keeps s doctype docname h)
        (notify_all-Keeps s pairs (notify_doc_viewers m s doctype docname h))

  pub on_disconnect-Keeps :
      (s : Socket) (h : Hub S) → Keeps m laws granted log h (on_disconnect m s h)
  unfolding on_disconnect
  on_disconnect-Keeps s h = notify_all-Keeps s (subscribed s h) h

  track-Keeps :
      (s : Socket) (doctype docname : Arg) (h : Hub S)
      → Keeps m laws granted log h (track s doctype docname h)
  track-Keeps s doctype docname h =
      if_intro (Keeps m laws granted log h)
        (contains (keys_of (subscribed s h)) (key_pair (doctype, docname)))
        (λ e. Keeps-same m laws granted log h)
        (λ e.
          set_subscribed-Keeps m laws granted log s (subscribed s h ++ (doctype, docname) ∷ []) h)

  pub doc_opened-Keeps :
      (s : Socket) (doctype docname : Arg) (h : Hub S)
      → contains granted ((s.namespace, s.sid), (sent doctype, sent_name docname)) ≡ true
      → Keeps m laws granted log h (doc_opened m s doctype docname h)
  unfolding doc_opened
  doc_opened-Keeps s doctype docname h may =
      let entered = join m s (open_doc_room (shown doctype) (shown docname)) h in
      let tracked = track s doctype docname entered in
      Keeps-trans m laws granted log
        (join-Keeps m laws granted log s (open_doc_room (shown doctype) (shown docname)) h
          (granted_open doctype docname may))
        (Keeps-trans m laws granted log (track-Keeps s doctype docname entered)
          (notify_doc_viewers-Keeps s doctype docname tracked))

  pub doc_closed-Keeps :
      (s : Socket) (doctype docname : Arg) (h : Hub S)
      → Keeps m laws granted log h (doc_closed m s doctype docname h)
  unfolding doc_closed
  doc_closed-Keeps s doctype docname h =
      let out = leave m s (open_doc_room (shown doctype) (shown docname)) h in
      let forgot = set_subscribed s (untrack doctype docname (subscribed s out)) out in
      Keeps-trans m laws granted log
        (leave-Keeps m laws granted log s (open_doc_room (shown doctype) (shown docname)) h)
        (Keeps-trans m laws granted log
          (set_subscribed-Keeps m laws granted log s (untrack doctype docname (subscribed s out))
            out)
          (notify_doc_viewers-Keeps s doctype docname forgot))

  -- What `on_connect` does to a socket that has a session.
  pub on_connect-Keeps :
      (s : Socket) (session : Session) (h : Hub S)
      → session_of s h ≡ some session
      → Known log s.namespace s.sid session
      → Keeps m laws granted log h (on_connect m s h)
  unfolding on_connect
  on_connect-Keeps s session h has known =
      let named = join m s (user_room (user s h)) h in
      let public = join m s website_room named in
      let first =
        join-Keeps m laws granted log s (user_room (user s h)) h
          (rw has (own_room session known)) in
      let second = join-Keeps m laws granted log s website_room named open_website in
      let both = Keeps-trans m laws granted log first second in
      let (session', has', u, t) = both.onward (s.namespace, s.sid) session has in
      if_intro (Keeps m laws granted log h) (user_type s public == codes "System User")
        (λ e. Keeps-trans m laws granted log both (
          join-Keeps m laws granted log s site_room public (
            own_site session'
              (Known-backward log s.namespace s.sid session session' known (sym u) (sym t))
              (of_type session'.user_type
                (sym (ap (λ o. user_type_or o == codes "System User") has') ∙ e)))))
        (λ e. both)
    where
      of_type :
          (t : Option Text)
          → (type_or_empty t == codes "System User") ≡ true
          → t ≡ some (codes "System User")
      of_type none e = cc
      of_type (some t) e = ap some ((text_eq.agrees t (codes "System User")).0 e)

  editor_opened-Keeps :
      (developer_mode : Bool) (data' : Text) (h : Hub S)
      → Keeps m laws granted log h (editor_opened developer_mode data' h)
  editor_opened-Keeps true data' h = record {
    rights = λ n r i e. inl e;
    onward = Within-same h.sessions;
    backward = Within-same h.sessions;
  }
  editor_opened-Keeps false data' h = Keeps-same m laws granted log h

  -- What a handler does at once keeps to the rights of its socket.
  abbrev pub ActsKept : Task S → Hub S → Type 0
  ActsKept (acts f) h = Keeps m laws granted log h (f h)
  ActsKept (asks doctype docname f) h = Unit

  pub handle-ActsKept :
      (developer_mode : Bool) (s : Socket) (event : Event) (session : Session) (h : Hub S)
      → session_of s h ≡ some session
      → Known log s.namespace s.sid session
      → ActsKept (handle m developer_mode s event) h
  unfolding handle
  handle-ActsKept dev s connect session h e known = on_connect-Keeps s session h e known
  handle-ActsKept dev s disconnect session h e known = on_disconnect-Keeps s h
  handle-ActsKept dev s ping session h e known = emit-Keeps m laws granted log s pong none h
  handle-ActsKept dev s (doctype_unsubscribe doctype) session h e known =
      leave-Keeps m laws granted log s (doctype_room (shown doctype)) h
  handle-ActsKept dev s (task_subscribe task_id) session h e known =
      join-Keeps m laws granted log s (task_room (shown task_id)) h (any_task task_id)
  handle-ActsKept dev s (task_unsubscribe task_id) session h e known =
      leave-Keeps m laws granted log s (task_room (shown task_id)) h
  handle-ActsKept dev s (progress_subscribe task_id) session h e known =
      join-Keeps m laws granted log s (task_room (shown task_id)) h (any_task task_id)
  handle-ActsKept dev s (open_in_editor data') session h e known = editor_opened-Keeps dev data' h
  handle-ActsKept dev s (doc_unsubscribe doctype docname) session h e known =
      leave-Keeps m laws granted log s (doc_room (shown doctype) (shown docname)) h
  handle-ActsKept dev s (doc_close doctype docname) session h e known =
      doc_closed-Keeps s doctype docname h
  handle-ActsKept dev s (doctype_subscribe doctype) session h e known = tt
  handle-ActsKept dev s (doc_subscribe doctype docname) session h e known = tt
  handle-ActsKept dev s (doc_open doctype docname) session h e known = tt

  -- And so does what it does once its permission is granted.
  abbrev pub AsksKept : Socket → Task S → Hub S → Type 0
  AsksKept s (acts f) h = Unit
  AsksKept s (asks doctype docname f) h =
      contains granted ((s.namespace, s.sid), (doctype, docname)) ≡ true
      → Keeps m laws granted log h (f h)

  pub handle-AsksKept :
      (developer_mode : Bool) (s : Socket) (event : Event) (h : Hub S)
      → AsksKept s (handle m developer_mode s event) h
  unfolding handle
  handle-AsksKept dev s (doctype_subscribe doctype) h = λ may.
      join-Keeps m laws granted log s (doctype_room (shown doctype)) h (granted_doctype doctype may)
  handle-AsksKept dev s (doc_subscribe doctype docname) h = λ may.
      join-Keeps m laws granted log s (doc_room (shown doctype) (shown docname)) h
        (granted_doc doctype docname may)
  handle-AsksKept dev s (doc_open doctype docname) h =
      λ may. doc_opened-Keeps s doctype docname h may
  handle-AsksKept dev s connect h = tt
  handle-AsksKept dev s disconnect h = tt
  handle-AsksKept dev s ping h = tt
  handle-AsksKept dev s (doctype_unsubscribe doctype) h = tt
  handle-AsksKept dev s (task_subscribe task_id) h = tt
  handle-AsksKept dev s (task_unsubscribe task_id) h = tt
  handle-AsksKept dev s (progress_subscribe task_id) h = tt
  handle-AsksKept dev s (open_in_editor data') h = tt
  handle-AsksKept dev s (doc_unsubscribe doctype docname) h = tt
  handle-AsksKept dev s (doc_close doctype docname) h = tt
