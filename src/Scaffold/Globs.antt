-- ===== src/Scaffold/Globs.antt =====
-- py/frappe_nix_tools/frappe_nix_tools/scaffold/globs.py: globs over tracked paths, as the regular expressions that
-- they are translated to. A `.` of a regular expression matches no newline.
pub mod Segments
pub mod Dialects
mod Tests
use frappe_nix.Prelude.{
  ℕ, ◌≡◌, Bool, true, false, not, ◌&&◌, ◌||◌, List, [], ◌∷◌, ◌++◌, Text, number_eq, ◌==◌, is_empty,
  any, keep, if◌then◌else◌,
}

-- A part of a translated glob: `(?:.*/)?`, `.*`, `[^/]*`, `[^/]`, or an escaped character.
pub data Piece : Type 0 where
  dirs run segment one : Piece
  char : ℕ → Piece

abbrev pub piece_of : ℕ → Piece
piece_of c = if c == b'*' then segment else if c == b'?' then one else char c

abbrev pub is_double : ℕ → ℕ → Bool
is_double a b = a == b'*' && b == b'*'

-- `_translate`
unfoldable pub translate : Text → List Piece
translate [] = []
translate (a ∷ []) = piece_of a ∷ []
translate (a ∷ b ∷ []) = elim (is_double a b) [
  | true ↦ run ∷ []
  | false ↦ piece_of a ∷ translate (b ∷ [])
]
translate (a ∷ b ∷ c ∷ s) = elim (is_double a b) [
  | true ↦ elim (c == b'/') [ true ↦ dirs ∷ translate s | false ↦ run ∷ translate (c ∷ s) ]
  | false ↦ piece_of a ∷ translate (b ∷ c ∷ s)
]

-- The pieces of `glob_to_regex`, which ends in `$`.
unfoldable pub to_regex : Text → List Piece
to_regex [] = []
to_regex (a ∷ []) = piece_of a ∷ []
to_regex (a ∷ b ∷ s) = elim (is_double a b) [
  | true ↦ run ∷ to_regex s
  | false ↦ piece_of a ∷ to_regex (b ∷ s)
]

-- Any number of characters of a class, and then what follows.
abbrev pub star : (ℕ → Bool) → (Text → Bool) → Text → Bool
star is_in next [] = next []
star is_in next (c ∷ s) = let more = star is_in next s in next (c ∷ s) || is_in c && more

-- What follows on a `/` that comes after any characters but newlines.
abbrev pub after_slash : (Text → Bool) → Text → Bool
after_slash next [] = false
after_slash next (c ∷ s) =
    let more = after_slash next s in c == b'/' && next s || not (c == b'\n') && more

abbrev pub step : Piece → (Text → Bool) → Text → Bool
step dirs next s = next s || after_slash next s
step run next s = star (λ c. not (c == b'\n')) next s
step segment next s = star (λ c. not (c == b'/')) next s
step one next [] = false
step one next (c ∷ s) = not (c == b'/') && next s
step (char x) next [] = false
step (char x) next (c ∷ s) = c == x && next s

-- Whether a whole text matches.
abbrev pub matches : List Piece → Text → Bool
matches [] s = is_empty s
matches (p ∷ ps) s = step p (matches ps) s

-- `match`
unfoldable pub match_glob : Text → Text → Bool
match_glob glob path = matches (translate glob) path

abbrev pub match_any : List Text → Text → Bool
match_any globs path = any (λ g. match_glob g path) globs

abbrev pub select : List Text → List Text → List Text
select globs paths = keep (match_any globs) paths

-- Whether the expression of `glob_to_regex` matches a whole path, as prek anchors it.
unfoldable pub regex_matches : Text → Text → Bool
regex_matches glob path = matches (to_regex glob) path
