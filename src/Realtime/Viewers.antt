-- ===== src/Realtime/Viewers.antt =====
-- The documents that a socket has open, as `doc_open` and `doc_close` keep them.
use frappe_nix.Prelude.{
  map, keep, ◌≡◌, refl, sym, ◌∙◌, ap, Bool, true, false, not, ◌&&◌, ◌||◌, some, List, [], ◌∷◌, ◌++◌,
  Text, text_eq, pair_eq, ◌==◌, contains, contains-append, contains-keep, inl, inr, arith,
  Bool-cases, if_intro,
}
use frappe_nix.Prelude.Dict.{lookup, insert, lookup-insert}
use frappe_nix.Realtime.Args.{Arg, shown, is_given, key_pair, keys_of}
use frappe_nix.Realtime.Auth.{Session}
use frappe_nix.Realtime.Socket.{
  Manager, Lawful, is_in, Hub, Socket, session_of, user, subscribed, documents_or, set_subscribed,
  emit, join, leave, connected,
}
use frappe_nix.Realtime.Handlers.{
  open_doc_room, notify_doc_viewers, track, untrack, doc_opened, doc_closed, users_of, is_alone,
}

map-append :
    (f : Arg × Arg → Text × Text) (xs ys : List (Arg × Arg))
    → map f (xs ++ ys) ≡ map f xs ++ map f ys
map-append f [] ys = refl
map-append f (x ∷ xs) ys = ap (λ zs. f x ∷ zs) (map-append f xs ys)

map-keep :
    (f : Arg × Arg → Text × Text) (p : Text × Text → Bool) (xs : List (Arg × Arg))
    → map f (keep (λ x. p (f x)) xs) ≡ keep p (map f xs)
map-keep f p [] = refl
map-keep f p (x ∷ xs) = ground (arith, map-keep f p xs)

module _ {S : Type 0} (m : Manager S) (laws : Lawful S m) where
  -- Nothing but what was sent differs.
  abbrev Tells : Hub S → Hub S → Type 0
  Tells h h' = (h'.rooms ≡ h.rooms) × (h'.sessions ≡ h.sessions)

  notify_doc_viewers-Tells :
      (s : Socket) (doctype docname : Arg) (h : Hub S)
      → Tells h (notify_doc_viewers m s doctype docname h)
  unfolding notify_doc_viewers emit
  notify_doc_viewers-Tells s doctype docname h =
      let users =
        users_of s
          (m.participants h.rooms s.namespace (open_doc_room (shown doctype) (shown docname))) h in
      if_intro (Tells h) (not (is_given doctype && is_given docname)) (λ e. (refl, refl))
        (λ e.
          if_intro (Tells h) (is_alone users (user s h)) (λ e. (refl, refl)) (λ e. (refl, refl)))

  set_subscribed_lem :
      (s : Socket) (documents : List (Arg × Arg)) (h : Hub S) (session : Session)
      → session_of s h ≡ some session
      → ((set_subscribed s documents h).rooms ≡ h.rooms)
        × (subscribed s (set_subscribed s documents h) ≡ documents)
  unfolding set_subscribed
  set_subscribed_lem s documents h session has =
      let key : Text × Text = (s.namespace, s.sid) in
      let new : Session = record session { subscribed_documents = documents } in
      let same : (key == key) ≡ true = (pair_eq.agrees key key).1 refl in
      let put : lookup key (insert key new h.sessions) ≡ some new =
        lookup-insert key key new h.sessions ∙ rw same refl in
      rw has (refl, ap documents_or put)

  -- What a list has with one pair more.
  abbrev Has : List (Text × Text) → List (Text × Text) → Text × Text → Type 0
  Has xs ys new = (pair : Text × Text) → contains ys pair ≡ (contains xs pair || new == pair)

  Has-already :
      (xs : List (Text × Text)) (new : Text × Text) → contains xs new ≡ true → Has xs xs new
  Has-already xs new h pair = elim (Bool-cases (new == pair)) [
    | inl same ↦
        let there : contains xs pair ≡ true =
          sym (ap (contains xs) ((pair_eq.agrees new pair).0 same)) ∙ h in
        rw there refl
    | inr other ↦ rw other (or_false (contains xs pair))
  ]
    where
      or_false : (b : Bool) → b ≡ (b || false)
      or_false true = refl
      or_false false = refl

  Has-behind : (xs : List (Text × Text)) (new : Text × Text) → Has xs (xs ++ new ∷ []) new
  Has-behind xs new pair = contains-append xs (new ∷ []) pair ∙ go (contains xs pair) (new == pair)
    where
      go : (a b : Bool) → (a || (b || false)) ≡ (a || b)
      go a b = ground arith

  track_lem :
      (s : Socket) (doctype docname : Arg) (h : Hub S) (session : Session)
      → session_of s h ≡ some session
      → ((track s doctype docname h).rooms ≡ h.rooms)
        × Has
            (keys_of (subscribed s h))
            (keys_of (subscribed s (track s doctype docname h)))
            (key_pair (doctype, docname))
  track_lem s doctype docname h session has =
      if_intro
        (λ (x : Hub S).
          (x.rooms ≡ h.rooms)
          × Has (keys_of (subscribed s h)) (keys_of (subscribed s x)) (key_pair (doctype, docname)))
        (contains (keys_of (subscribed s h)) (key_pair (doctype, docname)))
        (λ e. (refl, Has-already (keys_of (subscribed s h)) (key_pair (doctype, docname)) e))
        (λ e.
          let (rooms, set) =
            set_subscribed_lem s (subscribed s h ++ (doctype, docname) ∷ []) h session has in
          (
            rooms,
            rw (set, map-append key_pair (subscribed s h) ((doctype, docname) ∷ []))
                (Has-behind (keys_of (subscribed s h)) (key_pair (doctype, docname))),
          ))

  join_there :
      (s : Socket) (room : Text) (h : Hub S)
      → connected m s h ≡ true
      → join m s room h ≡ record h { rooms = m.enter_room h.rooms s.sid room s.namespace }
  unfolding join
  join_there s room h there = rw there refl

  leave_there :
      (s : Socket) (room : Text) (h : Hub S)
      → connected m s h ≡ true
      → leave m s room h ≡ record h { rooms = m.leave_room h.rooms s.sid room s.namespace }
  unfolding leave
  leave_there s room h there = rw there refl

  -- Over a client manager that keeps its laws, a socket that has a session, is still there and opens a document
  -- that it may read is in the document's room of viewers afterwards, and its list of open documents has that
  -- one more, up to Python's equality.
  pub doc_opened_tracks :
      (s : Socket) (doctype docname : Arg) (h : Hub S) (session : Session)
      → session_of s h ≡ some session
      → connected m s h ≡ true
      → (is_in m
            (doc_opened m s doctype docname h).rooms
            s.namespace
            (open_doc_room (shown doctype) (shown docname))
            s.sid
          ≡ true)
        × ((pair : Text × Text)
            → contains (keys_of (subscribed s (doc_opened m s doctype docname h))) pair
              ≡ (contains (keys_of (subscribed s h)) pair || key_pair (doctype, docname) == pair))
  unfolding doc_opened
  doc_opened_tracks s doctype docname h session has there =
      let room = open_doc_room (shown doctype) (shown docname) in
      let entered : Hub S = record h { rooms = m.enter_room h.rooms s.sid room s.namespace } in
      let tracked = track s doctype docname entered in
      let (rooms, list) = track_lem s doctype docname entered session has in
      let (rooms', sessions') = notify_doc_viewers-Tells s doctype docname tracked in
      rw (join_there s room h there) (
        ap (λ x. is_in m x s.namespace room s.sid) (rooms' ∙ rooms)
            ∙ laws.joined h.rooms s.sid room s.namespace,
        λ pair.
            ap (λ x. contains (keys_of (documents_or (lookup (s.namespace, s.sid) x))) pair)
              sessions'
            ∙ list pair,
      )

  -- Over a client manager that keeps its laws, a socket that has a session and is still there and that closes a
  -- document is in the room of its viewers no more; its list of open documents has lost what equals that one,
  -- wherever it stood and however often, and no other.
  pub doc_closed_forgets :
      (s : Socket) (doctype docname : Arg) (h : Hub S) (session : Session)
      → session_of s h ≡ some session
      → connected m s h ≡ true
      → (is_in m
            (doc_closed m s doctype docname h).rooms
            s.namespace
            (open_doc_room (shown doctype) (shown docname))
            s.sid
          ≡ false)
        × ((pair : Text × Text)
            → contains (keys_of (subscribed s (doc_closed m s doctype docname h))) pair ≡ (
                contains (keys_of (subscribed s h)) pair
                && not (pair == key_pair (doctype, docname))))
  unfolding doc_closed
  doc_closed_forgets s doctype docname h session has there =
      let room = open_doc_room (shown doctype) (shown docname) in
      let out : Hub S = record h { rooms = m.leave_room h.rooms s.sid room s.namespace } in
      let rest = untrack doctype docname (subscribed s h) in
      let forgot = set_subscribed s rest out in
      let (rooms, set) = set_subscribed_lem s rest out session has in
      let (rooms', sessions') = notify_doc_viewers-Tells s doctype docname forgot in
      rw (leave_there s room h there) (
        ap (λ x. is_in m x s.namespace room s.sid) (rooms' ∙ rooms)
            ∙ not_there (laws.gone h.rooms s.sid room s.namespace),
        λ pair.
            ap (λ x. contains (keys_of (documents_or (lookup (s.namespace, s.sid) x))) pair)
              sessions'
            ∙ ap (λ x. contains (keys_of x) pair) set
            ∙ ap (λ x. contains x pair)
                (map-keep key_pair (λ pair. not (pair == key_pair (doctype, docname)))
                  (subscribed s h))
            ∙ contains-keep (λ pair. not (pair == key_pair (doctype, docname)))
                (keys_of (subscribed s h)) pair,
      )
    where
      not_there : {b : Bool} → (b ≡ true → ⊥) → b ≡ false
      not_there {b} h = elim (Bool-cases b) [ inl e ↦ absurd (h e) | inr e ↦ e ]
