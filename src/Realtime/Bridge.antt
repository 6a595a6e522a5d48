-- ===== src/Realtime/Bridge.antt =====
-- bridge.py: from a message of the redis channel to what is sent to sockets.
use frappe_nix.Prelude.{
  ◌≡◌, refl, sym, contains_head, Option, none, some, List, [], ◌∷◌, Text, true, contains, text_eq,
  All, ◌⊎◌, inl, inr, arith,
}

-- `RealtimeEvent`; M is a message of the application.
pub record RealtimeEvent (M : Type 0) : Type 0 where
  pub event : Text
  pub message : M
  pub room : Option Text
  pub namespace : Option Text

-- An emission of the bridge: to one room, or to a whole namespace.
pub record Emitted (M : Type 0) : Type 0 where
  pub event : Text
  pub message : M
  pub room : Option Text
  pub namespace : Text

-- `a or None`: an empty text counts as none.
abbrev pub given_text : Option Text → Option Text
given_text none = none
given_text (some []) = none
given_text (some (c ∷ t)) = some (c ∷ t)

module _ {M : Type 0} where
  abbrev pub emit_all : RealtimeEvent M → List Text → List (Emitted M)
  emit_all evt [] = []
  emit_all evt (ns ∷ spaces) =
      record { event = evt.event; message = evt.message; room = none; namespace = ns }
      ∷ emit_all evt spaces

  abbrev pub emit_room : RealtimeEvent M → Text → Option Text → List (Emitted M)
  emit_room evt room none = []
  emit_room evt room (some namespace) =
      record {
        event = evt.event;
        message = evt.message;
        room = some room;
        namespace = b'/' ∷ namespace;
      }
      ∷ []

  abbrev pub emit_event : List Text → RealtimeEvent M → Option Text → List (Emitted M)
  emit_event namespaces evt (some room) = emit_room evt room (given_text evt.namespace)
  emit_event namespaces evt none = emit_all evt namespaces

  -- `_handle`: `none` is a malformed message; the namespaces are those that have sockets.
  unfoldable pub handle_raw : List Text → Option (RealtimeEvent M) → List (Emitted M)
  handle_raw namespaces none = []
  handle_raw namespaces (some evt) = emit_event namespaces evt (given_text evt.room)

  -- Where an emission of the bridge may go: to the event's room in the event's namespace, or, for an event
  -- without a room, to all of a namespace that has sockets.
  abbrev pub Addressed : List Text → RealtimeEvent M → Emitted M → Type 0
  Addressed namespaces evt e =
      (e.event ≡ evt.event)
      × (e.message ≡ evt.message)
      × (e.room ≡ given_text evt.room)
      × (((given_text evt.room ≡ none) × (contains namespaces e.namespace ≡ true))
          ⊎ ((room n : Text) × (given_text evt.room ≡ some room)
              × (given_text evt.namespace ≡ some n)
              × (e.namespace ≡ b'/' ∷ n)))

  emit_all-Addressed :
      (all_spaces spaces : List Text) (evt : RealtimeEvent M)
      → given_text evt.room ≡ none
      → ((n : Text) → contains spaces n ≡ true → contains all_spaces n ≡ true)
      → All (Addressed all_spaces evt) (emit_all evt spaces)
  emit_all-Addressed all_spaces [] evt no_room sub = tt
  emit_all-Addressed all_spaces (n ∷ spaces) evt no_room sub = (
    (refl, refl, sym no_room, inl (no_room, sub n (contains_head spaces n))),
    emit_all-Addressed all_spaces spaces evt no_room (λ k h. sub k (ground (arith, h))),
  )

  -- Whatever comes in on the redis channel, each emission carries the event and the message as they came; an
  -- event with a room goes to that room of its own namespace and nowhere else, and one without a room
  -- only to namespaces that have sockets.
  pub handle_raw-Addressed :
      (namespaces : List Text) (evt : RealtimeEvent M)
      → All (Addressed namespaces evt) (handle_raw namespaces (some evt))
  unfolding handle_raw
  handle_raw-Addressed namespaces evt = go (given_text evt.room) refl
    where
      in_room :
          (room : Text) (n : Option Text)
          → given_text evt.room ≡ some room
          → given_text evt.namespace ≡ n
          → All (Addressed namespaces evt) (emit_room evt room n)
      in_room room none e e' = tt
      in_room room (some n) e e' = ((refl, refl, sym e, inr (room, n, e, e', refl)), tt)

      go :
          (o : Option Text)
          → given_text evt.room ≡ o
          → All (Addressed namespaces evt) (emit_event namespaces evt o)
      go none e = emit_all-Addressed namespaces namespaces evt e (λ n h. h)
      go (some room) e = in_room room (given_text evt.namespace) e refl
