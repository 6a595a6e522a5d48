-- ===== src/Deps/BenchPatches.antt =====
-- deps/bench_patches.py: the record of the patches that bench need not run. Files are their text as it is read, or
-- none where they are not there.
pub mod Recorded
mod Tests
use frappe_nix.Prelude.{
  ℕ, ◌≡◌, Bool, true, false, not, ◌&&◌, ◌||◌, Option, none, some, List, [], ◌∷◌, ◌++◌, Text, codes,
  text_eq, number_eq, ◌==◌, contains, all, keep, length, is_empty, starts_with, split_at,
  if◌then◌else◌,
}

abbrev pub is_blank_or_tab : ℕ → Bool
is_blank_or_tab c = c == b' ' || c == b'\t'

-- `line.strip(" \t")`
abbrev pub strip_left : Text → Text
strip_left [] = []
strip_left (c ∷ s) = let rest = strip_left s in if is_blank_or_tab c then rest else c ∷ s

abbrev pub strip_right : Text → Text
strip_right [] = []
strip_right (c ∷ s) =
    let rest = strip_right s in if is_blank_or_tab c && is_empty rest then [] else c ∷ rest

abbrev pub strip_blanks : Text → Text
strip_blanks s = strip_right (strip_left s)

abbrev pub entries_of : List Text → List Text
entries_of [] = []
entries_of (raw ∷ raws) =
    let rest = entries_of raws in
    if not (is_empty (strip_blanks raw)) && not (starts_with (strip_blanks raw) (codes "#"))
    then strip_blanks raw ∷ rest
    else rest

-- `entries`
abbrev pub entries : Text → List Text
entries text = entries_of (split_at b'\n' text)

-- `_blank`
abbrev pub is_blank : Text → Bool
is_blank line = all (λ c. is_blank_or_tab c || c == b'\n' || c == b'\r' || c == 11 || c == 12) line

abbrev pub lines_of : Option Text → List Text
lines_of none = []
lines_of (some text) = split_at b'\n' text

abbrev pub missing_of : List Text → List Text → List Text
missing_of wanted have = keep (λ line. not (contains have line)) wanted

abbrev pub kept_of : List Text → List Text
kept_of lines = keep (λ line. not (is_blank line)) lines

abbrev pub write_lines : List Text → Text
write_lines [] = []
write_lines (line ∷ lines) = line ++ b'\n' ∷ write_lines lines

-- What a run ends with: no shipped list, the number of entries that it recorded, or an error in writing.
pub data Result : Type 0 where
  not_shipped : Result
  recorded : ℕ → Result
  failed : Result

abbrev pub record_missing : Bool → List Text → Option Text → Result × Option Text
record_missing writes [] existing = (recorded 0, existing)
record_missing writes (line ∷ lines) existing =
    if writes
    then (
      recorded (length (line ∷ lines)),
      some (write_lines (kept_of (lines_of existing) ++ line ∷ lines)),
    )
    else (failed, existing)

-- `reconcile`, over the shipped list and the record, and whether the new record can be put in place.
unfoldable pub reconcile : Bool → Option Text → Option Text → Result × Option Text
reconcile writes none existing = (not_shipped, existing)
reconcile writes (some shipped) existing =
    record_missing writes (missing_of (entries shipped) (lines_of existing)) existing
