-- ===== src/Realtime/Args.antt =====
-- What a client sends as an argument of an event: a JSON value, which nothing checks. auth.py and handlers.py use
-- such a value in four ways, which the parser, `str` and the HTTP client define, so they come with it.
use frappe_nix.Prelude.{Bool, not, List, [], ◌∷◌, map, Text, is_empty, if◌then◌else◌}

-- A value that is no text, as the code sees it: whether Python takes it as true, what an f-string makes of it,
-- what the HTTP client sends for it, and a name of what it is equal to (`0`, `0.0` and `False` share one).
pub record Value : Type 0 where
  pub is_true : Bool
  pub shown : Text
  pub sent : Text
  pub equals : Text

pub data Arg : Type 0 where
  text : Text → Arg
  value : Value → Arg

abbrev pub is_given : Arg → Bool
is_given (text t) = not (is_empty t)
is_given (value v) = v.is_true

-- In the name of a room.
abbrev pub shown : Arg → Text
shown (text t) = t
shown (value v) = v.shown

-- As the doctype of a request for a permission.
abbrev pub sent : Arg → Text
sent (text t) = t
sent (value v) = v.sent

-- As its name: `name or ""`.
abbrev pub sent_name : Arg → Text
sent_name a = if is_given a then sent a else []

-- Under `==`: a text equals no other value.
abbrev pub key : Arg → Text
key (text t) = 0 ∷ t
key (value v) = 1 ∷ v.equals

abbrev pub key_pair : Arg × Arg → Text × Text
key_pair (a, b) = (key a, key b)

abbrev pub keys_of : List (Arg × Arg) → List (Text × Text)
keys_of pairs = map key_pair pairs
