-- ===== src/Scaffold/Regions.antt =====
-- py/frappe_nix_tools/frappe_nix_tools/scaffold/regions.py: the local regions of a managed file. A file is the list
-- of its lines, without their ends.
pub mod Kept
pub mod Segments
pub mod Spliced
use frappe_nix.Prelude.{
  ℕ, Bool, true, false, not, ◌&&◌, ◌||◌, Option, none, some, List, [], ◌∷◌, ◌++◌, all, any,
  contains, codes, Text, text_eq, number_eq, ◌==◌, is_empty, if◌then◌else◌, leb, strip, map, keep,
}
use frappe_nix.Prelude.Dict.{Dict, lookup, insert}

pub data Marker : Type 0 where
  begins ends : Text → Marker

abbrev pub is_blank : ℕ → Bool
is_blank c = c == b' ' || c == 9

abbrev pub drop_blanks : Text → Text
drop_blanks [] = []
drop_blanks (c ∷ s) = let rest = drop_blanks s in if is_blank c then rest else c ∷ s

abbrev pub is_name_char : ℕ → Bool
is_name_char c =
    leb b'A' c && leb c b'Z'
    || leb b'a' c && leb c b'z'
    || leb b'0' c && leb c b'9'
    || c == b'_'
    || c == b'-'

-- The text behind a prefix
abbrev pub after_prefix : Text → Text → Option Text
after_prefix [] s = some s
after_prefix (p ∷ ps) [] = none
after_prefix (p ∷ ps) (c ∷ s) = let rest = after_prefix ps s in if c == p then rest else none

abbrev pub name_run : Text → Text × Text
name_run [] = ([], [])
name_run (c ∷ s) =
    let (name, rest) = name_run s in if is_name_char c then (c ∷ name, rest) else ([], c ∷ s)

abbrev pub named : (Text → Marker) → Text → Option Marker
named make s =
    let (name, rest) = name_run s in
    if not (is_empty name) && all is_blank rest then some (make name) else none

-- `_MARKER`
unfoldable pub marker : Text → Option Marker
marker line = elim (after_prefix (codes "# frappe-nix:local-") (drop_blanks line)) [
  | none ↦ none
  | some s ↦ elim (after_prefix (codes "begin ") s) [
    | some name ↦ named begins name
    | none ↦ elim (after_prefix (codes "end ") s) [ some name ↦ named ends name | none ↦ none ]
  ]
]

-- The `ConfigError`s.
pub data Fault : Type 0 where
  begins_inside unknown_region appears_twice not_open never_closed : Fault

pub data Parsed (A : Type 0) : Type 0 where
  good : A → Parsed A
  bad : Fault → Parsed A

abbrev pub Bodies : Type 0
Bodies = Dict Text (List Text)

-- `bodies.get(name, [])`
abbrev pub body_or_none : Option (List Text) → List Text
body_or_none none = []
body_or_none (some body) = body

abbrev pub body_of : Text → Bodies → List Text
body_of name d = body_or_none (lookup name d)

abbrev pub is_there : Option (List Text) → Bool
is_there none = false
is_there (some body) = true

abbrev pub is_current : Text → Option Text → Bool
is_current name none = false
is_current name (some current) = current == name

abbrev pub begin_at : List Text → Text → Bodies → Option Text → Parsed (Bodies × Option Text)
begin_at allowed name out (some current) = bad begins_inside
begin_at allowed name out none =
    if not (contains allowed name)
    then bad unknown_region
    else if is_there (lookup name out)
    then bad appears_twice
    else good (insert name [] out, some name)

-- A line of the loop of `parse`, with its marker.
abbrev pub take_line :
    List Text → Text → Option Marker → Bodies → Option Text → Parsed (Bodies × Option Text)
take_line allowed line none out none = good (out, none)
take_line allowed line none out (some current) =
    good (insert current (body_of current out ++ line ∷ []) out, some current)
take_line allowed line (some (begins name)) out current = begin_at allowed name out current
take_line allowed line (some (ends name)) out current =
    if is_current name current then good (out, none) else bad not_open

unfoldable pub parse_from : List Text → Bodies → Option Text → List Text → Parsed Bodies
parse_from allowed out none [] = good out
parse_from allowed out (some current) [] = bad never_closed
parse_from allowed out current (line ∷ lines) =
    elim (take_line allowed line (marker line) out current) [
      | bad fault ↦ bad fault
      | good (out', current') ↦ parse_from allowed out' current' lines
    ]

-- `parse`
unfoldable pub parse : List Text → List Text → Parsed Bodies
parse allowed lines = parse_from allowed [] none lines

abbrev pub begun : Option Marker → Option Text
begun (some (begins name)) = some name
begun _ = none

abbrev pub is_end : Option Marker → Bool
is_end (some (ends name)) = true
is_end _ = false

-- The loop of `splice`; `inside` is the region that it is in.
unfoldable pub fill : Bodies → Option Text → List Text → List Text
fill d inside [] = []
fill d none (line ∷ lines) = line ∷ fill d (begun (marker line)) lines
fill d (some name) (line ∷ lines) =
    let rest = fill d none lines in
    let skipped = fill d (some name) lines in
    if is_end (marker line) then body_of name d ++ line ∷ rest else skipped

abbrev pub fill_parsed : List Text → Parsed Bodies → Parsed (List Text)
fill_parsed rendered (bad fault) = bad fault
fill_parsed rendered (good d) = good (fill d none rendered)

abbrev pub bodies_now : List Text → Option (List Text) → Parsed Bodies
bodies_now allowed none = good []
bodies_now allowed (some current) = parse allowed current

abbrev pub is_nil : List Text → Bool
is_nil [] = true
is_nil (t ∷ ts) = false

-- `splice`
unfoldable pub splice : List Text → List Text → Option (List Text) → Parsed (List Text)
splice allowed rendered current =
    if is_nil allowed then good rendered else fill_parsed rendered (bodies_now allowed current)

abbrev pub names_filled : Parsed Bodies → Parsed (List Text)
names_filled (bad fault) = bad fault
names_filled (good d) = good (
    map (λ (name, body). name)
      (keep (λ (name, body). any (λ line. not (is_empty (strip line))) body) d))

-- `filled`: the names of the regions that hold anything but blank lines.
unfoldable pub filled : List Text → List Text → Parsed (List Text)
filled allowed lines = names_filled (parse allowed lines)
