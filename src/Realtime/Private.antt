-- ===== src/Realtime/Private.antt =====
-- The rooms of users and of documents, and who listens in them.
use frappe_nix.Prelude.{
  All, subst, inl, inr, ◌≡◌, refl, sym, ◌∙◌, ap, Bool, true, false, List, [], ◌∷◌, Text, text_eq,
  number_eq, ℕ, zero, suc, pair_eq, contains, arith,
}
use frappe_nix.Realtime.Auth.{Session, Server, authenticate, accept}
use frappe_nix.Realtime.Socket.{Manager, Lawful, is_in}
use frappe_nix.Realtime.Handlers.{user_room}
use frappe_nix.Realtime.Rooms.{Asked, Admission, Was, Of, World, Steps}
use frappe_nix.Realtime.Listens.{
  Known, MayHear, own_room, open_website, own_site, any_task, granted_doctype, granted_doc,
  granted_open, itself,
}
use frappe_nix.Realtime.Reach.{IsGenuine, start, start-Orderly, Steps-Orderly}

abbrev char_at : ℕ → Text → ℕ
char_at n [] = 0
char_at zero (c ∷ s) = c
char_at (suc n) (c ∷ s) = char_at n s

module _ {S : Type 0} (m : Manager S) (laws : Lawful S m) (developer_mode : Bool) (srv : Server)
    (secret : Text) where
  user_of_room :
      (log : List Admission) (g : List Asked) (n i u r : Text)
      → MayHear log g n i r
      → r ≡ user_room u
      → contains i b':' ≡ false
      → (session : Session) × Known log n i session × (session.user ≡ u)
  user_of_room log g n i u r (own_room session h) e plain = (session, h, cc)
  user_of_room log g n i u r open_website e plain = absurd (omega (arith, ap (char_at 0) e))
  user_of_room log g n i u r (own_site session h k) e plain =
      absurd (omega (arith, ap (char_at 0) e))
  user_of_room log g n i u r (any_task t) e plain = absurd (omega (arith, ap (char_at 0) e))
  user_of_room log g n i u r (granted_doctype d h) e plain =
      absurd (omega (arith, ap (char_at 0) e))
  user_of_room log g n i u r (granted_doc d d' h) e plain = absurd (omega (arith, ap (char_at 0) e))
  user_of_room log g n i u r (granted_open d d' h) e plain =
      absurd (omega (arith, ap (char_at 0) e))
  user_of_room log g n i u r itself e plain = absurd (no_colon e plain)
    where
      no_colon : {i : Text} → i ≡ user_room u → contains i b':' ≡ false → ⊥
      no_colon e plain = let clash : true ≡ false = sym (ap (λ i. contains i b':') e) ∙ plain in cc

  -- A connection of this very socket, let in after its checks, as a user.
  abbrev pub LetInAs : Text → Text → Text → Admission → Type 0
  LetInAs n i u a =
      Of n i a × (a.session.user ≡ u) × (authenticate srv secret a.environ n ≡ accept a.session)

  Known-LetInAs :
      (log : List Admission) (n i u : Text) (session : Session)
      → All (IsGenuine m laws developer_mode srv secret) log
      → Known log n i session
      → session.user ≡ u
      → Was (LetInAs n i u) log
  Known-LetInAs [] n i u session ok known is = absurd known
  Known-LetInAs (a ∷ log) n i u session ok known is = elim known [
    | inl (of, same, kind) ↦ inl (
      of,
      same ∙ is,
      subst (λ x. authenticate srv secret a.environ x ≡ accept a.session) of.0 ok.0,
    )
    | inr later ↦ inr (Known-LetInAs log n i u session ok.1 later is)
  ]

  -- Over a client manager that keeps its laws, and whatever happened since the server started with empty rooms,
  -- a socket whose sid has no colon and that is in a user's room of a namespace was itself let in to that
  -- namespace, under that sid and after the checks of a connection, as that very user.
  pub user_room_own :
      (rooms : S)
      → ((n r i : Text) → is_in m rooms n r i ≡ false)
      → (w : World S)
      → Steps m developer_mode srv secret (start m laws developer_mode srv secret rooms) w
      → (n u i : Text) → contains i b':' ≡ false
      → is_in m w.hub.rooms n (user_room u) i ≡ true
      → Was (LetInAs n i u) w.log
  user_room_own rooms empty w steps n u i plain h =
      let ok =
        Steps-Orderly m laws developer_mode srv secret
          (start m laws developer_mode srv secret rooms) w steps
          (start-Orderly m laws developer_mode srv secret rooms empty) in
      let (session, known, is) =
        user_of_room w.log w.granted n i u (user_room u) (ok.rights n (user_room u) i h) refl
          plain in
      Known-LetInAs w.log n i u session ok.genuine known is
