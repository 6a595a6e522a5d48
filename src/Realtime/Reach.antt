-- ===== src/Realtime/Reach.antt =====
-- Whatever happens to the server, in whatever order, a socket listens to nothing that it has no right to.
use frappe_nix.Prelude.{
  All, ◌≡◌, refl, sym, ◌∙◌, ap, Bool, true, false, Option, none, some, List, [], ◌∷◌, ◌++◌, Text,
  text_eq, number_eq, pair_eq, contains, contains_head, if◌then◌else◌, inl, inr, arith, subst,
  if_intro,
}
use frappe_nix.Prelude.Dict.{lookup, found_after_insert}
use frappe_nix.Realtime.Auth.{Session, Server, authenticate, accept}
use frappe_nix.Realtime.Args.{Arg}
use frappe_nix.Realtime.Site.{Environ}
use frappe_nix.Realtime.Socket.{Hub, Manager, Lawful, is_in, Socket, session_of}
use frappe_nix.Realtime.Handlers.{Event, Task, acts, asks, handle}
use frappe_nix.Realtime.Rooms.{
  Asked, World, begin, core_called, receive, admit, resume, answered, drop, Admission, Was, Of,
  restore, restores, Step, connects, sends, answers, leaves, Steps, stays, then_step,
}
use frappe_nix.Realtime.Kept.{ActsKept, handle-ActsKept, AsksKept, handle-AsksKept}
use frappe_nix.Realtime.Listens.{
  Known, Known-backward, Sessions, MayHear, itself, MayHear-grows, Within, Keeps,
}

module _ {S : Type 0} (m : Manager S) (laws : Lawful S m) (developer_mode : Bool) (srv : Server)
    (secret : Text) where
  -- A server that starts: no session, no handler that waits.
  abbrev pub start : S → World S
  start rooms = record {
    hub = record { rooms = rooms; sessions = []; sent = []; published = [] };
    waiting = [];
    granted = [];
    log = [];
  }

  -- Every connection that was let in has passed the checks.
  abbrev pub IsGenuine : Admission → Type 0
  IsGenuine a = authenticate srv secret a.environ a.socket.namespace ≡ accept a.session

  -- The user and the user's type of a session are those of a connection of its socket.
  abbrev pub Admitted : List Admission → Sessions → Type 0
  Admitted log ss =
      (n i : Text) (session : Session) → lookup (n, i) ss ≡ some session → Known log n i session

  pub record Orderly (w : World S) : Type 0 where
    pub rights : (n r i : Text) → is_in m w.hub.rooms n r i ≡ true → MayHear w.log w.granted n i r
    pub admitted : Admitted w.log w.hub.sessions
    pub genuine : All IsGenuine w.log

  still-Admitted :
      (log : List Admission) (a b : Sessions) → Within b a → Admitted log a → Admitted log b
  still-Admitted log a b back ok n i session e =
      let (before, found, u, t) = back (n, i) session e in
      Known-backward log n i before session (ok n i before found) u t

  -- A hub that keeps to the rights makes an orderly world of an orderly one.
  Keeps-Orderly :
      (w : World S) (hub : Hub S) (waiting : List (Socket × Event)) (granted : List Asked)
      → ((q : Asked) → contains w.granted q ≡ true → contains granted q ≡ true)
      → Keeps m laws granted w.log w.hub hub
      → Orderly w
      → Orderly (record { hub = hub; waiting = waiting; granted = granted; log = w.log })
  Keeps-Orderly w hub waiting granted more k ok = record {
    rights = λ n r i e. elim (k.rights n r i e) [
      | inl before ↦ MayHear-grows (λ s h. h) more (ok.rights n r i before)
      | inr now ↦ now
    ];
    admitted = still-Admitted w.log w.hub.sessions hub.sessions k.backward ok.admitted;
    genuine = ok.genuine;
  }

  receive-Orderly :
      (s : Socket) (event : Event) (w : World S)
      → Orderly w
      → Orderly (receive m developer_mode s event w)
  unfolding receive
  receive-Orderly s event w ok = go (session_of s w.hub) refl
    where
      run :
          (session : Session)
          → session_of s w.hub ≡ some session
          → (t : Task S) → ActsKept m laws w.granted w.log t w.hub
          → Orderly (begin s event t w)
      run session e (acts f) k = Keeps-Orderly w (f w.hub) w.waiting w.granted (λ q h. h) k ok
      run session e (asks doctype docname f) k = record {
        rights = ok.rights;
        admitted = ok.admitted;
        genuine = ok.genuine;
      }

      go :
          (o : Option Session)
          → session_of s w.hub ≡ o
          → Orderly
              (if core_called o event then begin s event (handle m developer_mode s event) w else w)
      go none e = ok
      go (some session) e =
          if_intro Orderly (core_called (some session) event)
            (λ c. run session e (handle m developer_mode s event) (
              handle-ActsKept m laws w.granted w.log developer_mode s event session w.hub e
                (ok.admitted s.namespace s.sid session e)))
            (λ c. ok)

  -- A connection puts its session in place, and is one of those that were let in.
  admit-Orderly :
      (s : Socket) (e : Environ) (session : Session) (w : World S)
      → authenticate srv secret e s.namespace ≡ accept session
      → Orderly w
      → Orderly (admit m developer_mode s e session w)
  unfolding admit
  admit-Orderly s e session w let_in ok = receive-Orderly s Event.connect _ (record {
    rights = λ n r i e'. elim (laws.attached w.hub.rooms s.sid s.namespace i r n e') [
      | inl before ↦ MayHear-grows (λ x h. inr h) (λ q h. h) (ok.rights n r i before)
      | inr same ↦ subst (λ x. MayHear after w.granted n i x) (sym same) itself
    ];
    admitted = λ n i x found.
        elim (found_after_insert (s.namespace, s.sid) (n, i) session x w.hub.sessions found) [
          | inl (is, it) ↦ inl (
            (ap (λ (p : Text × Text). p.0) is, ap (λ (p : Text × Text). p.1) is),
            ap (λ (y : Session). y.user) it,
            ap (λ (y : Session). y.user_type) it,
          )
          | inr before ↦ inr (ok.admitted n i x before)
        ];
    genuine = (let_in, ok.genuine);
  })
    where
      after : List Admission
      after = record { socket = s; environ = e; session = session } ∷ w.log

  Was-Known :
      (log : List Admission) (n i : Text) (session : Session)
      → Was (λ a. Of n i a × (a.session ≡ session)) log
      → Known log n i session
  Was-Known [] n i session h = absurd h
  Was-Known (a ∷ log) n i session h = elim h [
    | inl (of, is) ↦ inl (of, ap (λ (y : Session). y.user) is, ap (λ (y : Session). y.user_type) is)
    | inr later ↦ inr (Was-Known log n i session later)
  ]

  restore-Orderly :
      (s : Socket) (session : Session) (documents : List (Arg × Arg)) (w : World S)
      → Was (λ a. Of s.namespace s.sid a × (a.session ≡ session)) w.log
      → Orderly w
      → Orderly (restore m developer_mode s session documents w)
  unfolding restore
  restore-Orderly s session documents w was ok = record {
    rights = ok.rights;
    admitted = λ n i x found.
        elim (found_after_insert (s.namespace, s.sid) (n, i) new x w.hub.sessions found) [
          | inl (is, it) ↦
              subst (λ (k : Text × Text). Known w.log k.0 k.1 x) is
                (Known-backward w.log s.namespace s.sid session x
                  (Was-Known w.log s.namespace s.sid session was) (ap (λ (y : Session). y.user) it)
                  (ap (λ (y : Session). y.user_type) it))
          | inr before ↦ ok.admitted n i x before
        ];
    genuine = ok.genuine;
  }
    where
      new : Session
      new = record session { subscribed_documents = documents }

  answered-Orderly :
      (s : Socket) (event : Event) (answer : Bool) (w : World S) (rest : List (Socket × Event))
      → Orderly w
      → Orderly (answered m developer_mode s event answer (record w { waiting = rest }))
  unfolding answered
  answered-Orderly s event answer w rest ok =
      go answer (handle m developer_mode s event)
        (λ more. handle-AsksKept m laws more w.log developer_mode s event w.hub)
    where
      go :
          (answer : Bool) (t : Task S)
          → ((more : List Asked) → AsksKept m laws more w.log s t w.hub)
          → Orderly (resume s answer t (record w { waiting = rest }))
      go answer (acts f) k = record {
        rights = ok.rights;
        admitted = ok.admitted;
        genuine = ok.genuine;
      }
      go false (asks doctype docname f) k = record {
        rights = ok.rights;
        admitted = ok.admitted;
        genuine = ok.genuine;
      }
      go true (asks doctype docname f) k =
          let it : Asked = ((s.namespace, s.sid), (doctype, docname)) in
          Keeps-Orderly w (f w.hub) rest (it ∷ w.granted) (λ q h. ground (arith, h))
            (k (it ∷ w.granted) (contains_head w.granted it)) ok

  drop-Orderly : (s : Socket) (w : World S) → Orderly w → Orderly (drop m developer_mode s w)
  unfolding drop
  drop-Orderly s w ok = record {
    rights = λ n r i e. ok.rights n r i (laws.dropped w.hub.rooms s.sid s.namespace i r n e);
    admitted = ok.admitted;
    genuine = ok.genuine;
  }

  step-Orderly : (w x : World S) → Step m developer_mode srv secret w x → Orderly w → Orderly x
  step-Orderly w x (connects s e session let_in) ok = admit-Orderly s e session w let_in ok
  step-Orderly w x (restores s session documents was) ok =
      restore-Orderly s session documents w was ok
  step-Orderly w x (sends s event) ok = receive-Orderly s event w ok
  step-Orderly w x (answers s event before after answer waits) ok =
      answered-Orderly s event answer w (before ++ after) ok
  step-Orderly w x (leaves s) ok = drop-Orderly s w ok

  pub Steps-Orderly :
      (v w : World S) → Steps m developer_mode srv secret v w → Orderly v → Orderly w
  Steps-Orderly v w stays ok = ok
  Steps-Orderly v w (then_step {w = u} before step) ok =
      step-Orderly u w step (Steps-Orderly v u before ok)

  pub start-Orderly :
      (rooms : S) → ((n r i : Text) → is_in m rooms n r i ≡ false) → Orderly (start rooms)
  start-Orderly rooms empty = record {
    rights =
        λ n r i e. absurd (let clash : true ≡ false = sym e ∙ empty n r i in ground (arith, clash));
    admitted = λ n i session e. cc;
    genuine = tt;
  }
