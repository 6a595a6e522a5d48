-- ===== src/Realtime/Listens.antt =====
-- What a socket may listen to, and that each operation of a handler keeps to it.
use frappe_nix.Prelude.{
  ◌∷◌, ◌≡◌, refl, sym, ◌∙◌, ap, true, not, Option, none, some, List, [], Text, codes, text_eq,
  pair_eq, ◌==◌, contains, ◌⊎◌, inl, inr, Bool-cases, subst, if_intro,
}
use frappe_nix.Prelude.Dict.{Dict, lookup, insert, lookup-insert, found_after_insert}
use frappe_nix.Realtime.Auth.{Session}
use frappe_nix.Realtime.Socket.{
  Manager, Lawful, is_in, Hub, Socket, session_of, with_documents, set_subscribed, emit, join,
  leave, connected, Message,
}
use frappe_nix.Realtime.Handlers.{
  website_room, site_room, user_room, doctype_room, doc_room, task_room, open_doc_room,
}
use frappe_nix.Realtime.Rooms.{Asked, Admission, Was, Of}
use frappe_nix.Realtime.Args.{Arg, shown, sent, sent_name}

abbrev pub Sessions : Type 0
Sessions = Dict (Text × Text) Session

-- A connection of this socket with the user and the user's type of a session.
abbrev pub Known : List Admission → Text → Text → Session → Type 0
Known log n i session =
    Was
      (λ a. Of n i a × (a.session.user ≡ session.user) × (a.session.user_type ≡ session.user_type))
      log

-- The rooms that a socket has a right to: that of the user of a connection of its own that was let in, the
-- website's, the site's if that user was a System User, those of tasks, those of documents that it was granted,
-- and the one that bears its sid.
pub data MayHear (log : List Admission) (granted : List Asked) (namespace sid : Text)
    : Text → Type 0 where
  own_room :
      (session : Session)
      → Known log namespace sid session
      → MayHear log granted namespace sid (user_room session.user)
  open_website : MayHear log granted namespace sid website_room
  own_site :
      (session : Session)
      → Known log namespace sid session
      → session.user_type ≡ some (codes "System User")
      → MayHear log granted namespace sid site_room
  any_task : (task_id : Arg) → MayHear log granted namespace sid (task_room (shown task_id))
  granted_doctype :
      (doctype : Arg)
      → contains granted ((namespace, sid), (sent doctype, [])) ≡ true
      → MayHear log granted namespace sid (doctype_room (shown doctype))
  granted_doc :
      (doctype docname : Arg)
      → contains granted ((namespace, sid), (sent doctype, sent_name docname)) ≡ true
      → MayHear log granted namespace sid (doc_room (shown doctype) (shown docname))
  granted_open :
      (doctype docname : Arg)
      → contains granted ((namespace, sid), (sent doctype, sent_name docname)) ≡ true
      → MayHear log granted namespace sid (open_doc_room (shown doctype) (shown docname))
  itself : MayHear log granted namespace sid sid

-- The sessions of `a` are those of `b`, but for the documents.
abbrev pub Within : Sessions → Sessions → Type 0
Within a b =
    (key : Text × Text) (s : Session)
    → lookup key a ≡ some s
    → (s' : Session) × (lookup key b ≡ some s') × (s'.user ≡ s.user) × (s'.user_type ≡ s.user_type)

pub Within-same : (a : Sessions) → Within a a
Within-same a key s h = (s, h, refl, refl)

Within-trans : (a b c : Sessions) → Within a b → Within b c → Within a c
Within-trans a b c ab bc key s h =
    let (s', h', u, t) = ab key s h in
    let (s'', h'', u', t') = bc key s' h' in (s'', h'', u' ∙ u, t' ∙ t)

pub Known-backward :
    (log : List Admission) (n i : Text) (before after : Session)
    → Known log n i before
    → before.user ≡ after.user
    → before.user_type ≡ after.user_type
    → Known log n i after
Known-backward [] n i before after known u t = absurd known
Known-backward (a ∷ log) n i before after known u t = elim known [
  | inl (of, u', t') ↦ inl (of, u' ∙ u, t' ∙ t)
  | inr later ↦ inr (Known-backward log n i before after later u t)
]

pub MayHear-grows :
    {log longer : List Admission} {granted more : List Asked} {n i r : Text}
    → ((session : Session) → Known log n i session → Known longer n i session)
    → ((q : Asked) → contains granted q ≡ true → contains more q ≡ true)
    → MayHear log granted n i r
    → MayHear longer more n i r
MayHear-grows w g (own_room session h) = own_room session (w session h)
MayHear-grows w g open_website = open_website
MayHear-grows w g (own_site session h k) = own_site session (w session h) k
MayHear-grows w g (any_task t) = any_task t
MayHear-grows w g (granted_doctype d h) = granted_doctype d (g _ h)
MayHear-grows w g (granted_doc d e h) = granted_doc d e (g _ h)
MayHear-grows w g (granted_open d e h) = granted_open d e (g _ h)
MayHear-grows w g itself = itself

module _ {S : Type 0} (m : Manager S) (laws : Lawful S m) (granted : List Asked)
    (log : List Admission) where
  -- From one hub to the next, a socket enters only rooms that it has a right to, and the sessions stay.
  pub record Keeps (h h' : Hub S) : Type 0 where
    pub rights :
        (n r i : Text)
        → is_in m h'.rooms n r i ≡ true
        → (is_in m h.rooms n r i ≡ true) ⊎ MayHear log granted n i r
    pub onward : Within h.sessions h'.sessions
    pub backward : Within h'.sessions h.sessions

  pub Keeps-same : (h : Hub S) → Keeps h h
  Keeps-same h = record {
    rights = λ n r i e. inl e;
    onward = Within-same h.sessions;
    backward = Within-same h.sessions;
  }

  pub Keeps-trans : {a b c : Hub S} → Keeps a b → Keeps b c → Keeps a c
  Keeps-trans {a} {b} {c} f g = record {
    rights = λ n r i e. elim (g.rights n r i e) [
      | inr now ↦ inr now
      | inl e' ↦ elim (f.rights n r i e') [ inl before ↦ inl before | inr then' ↦ inr then' ]
    ];
    onward = Within-trans a.sessions b.sessions c.sessions f.onward g.onward;
    backward = Within-trans c.sessions b.sessions a.sessions g.backward f.backward;
  }

  pub join-Keeps :
      (s : Socket) (room : Text) (h : Hub S)
      → MayHear log granted s.namespace s.sid room
      → Keeps h (join m s room h)
  unfolding join
  join-Keeps s room h may =
      if_intro (Keeps h) (not (connected m s h)) (λ e. Keeps-same h)
        (λ e. record {
          rights = λ n r i e. elim (laws.entered h.rooms s.sid room s.namespace i r n e) [
            | inl before ↦ inl before
            | inr (same_n, same_r, same_i) ↦ inr (
                subst (λ x. MayHear log granted n i x) same_r
                  (subst (λ x. MayHear log granted n x room) same_i
                    (subst (λ x. MayHear log granted x s.sid room) same_n may)))
          ];
          onward = Within-same h.sessions;
          backward = Within-same h.sessions;
        })

  pub leave-Keeps : (s : Socket) (room : Text) (h : Hub S) → Keeps h (leave m s room h)
  unfolding leave
  leave-Keeps s room h =
      if_intro (Keeps h) (not (connected m s h)) (λ e. Keeps-same h)
        (λ e. record {
          rights = λ n r i e. inl (laws.left h.rooms s.sid room s.namespace i r n e);
          onward = Within-same h.sessions;
          backward = Within-same h.sessions;
        })

  pub emit-Keeps :
      (s : Socket) (message : Message) (to : Option Text) (h : Hub S)
      → Keeps h (emit s message to h)
  unfolding emit
  emit-Keeps s message to h = record {
    rights = λ n r i e. inl e;
    onward = Within-same h.sessions;
    backward = Within-same h.sessions;
  }

  Within-set :
      (key : Text × Text) (ss : Sessions) (session : Session) (documents : List (Arg × Arg))
      → lookup key ss ≡ some session
      → Within ss (insert key (record session { subscribed_documents = documents }) ss)
  Within-set key ss session documents h k s e =
      let there = lookup-insert key k (record session { subscribed_documents = documents }) ss in
      elim (Bool-cases (key == k)) [
        | inr other ↦ (s, there ∙ rw other e, refl, refl)
        | inl same ↦
            let it : s ≡ session = found_same key k ss ((pair_eq.agrees key k).0 same) h e in
            (
              record session { subscribed_documents = documents },
              there ∙ rw same refl,
              ap (λ (x : Session). x.user) (sym it),
              ap (λ (x : Session). x.user_type) (sym it),
            )
      ]
    where
      found_same :
          (j k : Text × Text) (ss : Sessions) {s s' : Session}
          → j ≡ k
          → lookup j ss ≡ some s'
          → lookup k ss ≡ some s
          → s ≡ s'
      found_same j k ss {s} {s'} is h e =
          let found : some s ≡ some s' = sym e ∙ sym (ap (λ k. lookup k ss) is) ∙ h in cc

  set-Within :
      (key : Text × Text) (ss : Sessions) (session : Session) (documents : List (Arg × Arg))
      → lookup key ss ≡ some session
      → Within (insert key (record session { subscribed_documents = documents }) ss) ss
  set-Within key ss session documents h k s e =
      elim (found_after_insert key k (record session { subscribed_documents = documents }) s ss e) [
        | inr before ↦ (s, before, refl, refl)
        | inl (is, it) ↦ (
          session,
          sym (ap (λ k. lookup k ss) is) ∙ h,
          ap (λ (x : Session). x.user) it,
          ap (λ (x : Session). x.user_type) it,
        )
      ]

  pub set_subscribed-Keeps :
      (s : Socket) (documents : List (Arg × Arg)) (h : Hub S)
      → Keeps h (set_subscribed s documents h)
  unfolding set_subscribed
  set_subscribed-Keeps s documents h = go (session_of s h) refl
    where
      go : (o : Option Session) → session_of s h ≡ o → Keeps h (with_documents s documents o h)
      go none e = Keeps-same h
      go (some session) e = record {
        rights = λ n r i e'. inl e';
        onward = Within-set (s.namespace, s.sid) h.sessions session documents e;
        backward = set-Within (s.namespace, s.sid) h.sessions session documents e;
      }
