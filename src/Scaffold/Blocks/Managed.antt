-- ===== src/Scaffold/Blocks/Managed.antt =====
-- blocks.py: what stays of a file around its managed block, and of the lines of `__init__.py`.
use frappe_nix.Prelude.{
  ◌≡◌, refl, ap, true, false, some, List, [], ◌∷◌, ◌++◌, contains, Text, text_eq, arith,
  same_text_iff, split_at, rstrip_of,
}
use frappe_nix.Scaffold.Blocks.{
  newline, gitignore_begin, gitignore_end, join, from_line, upto_line, file, lines_from, gitignore,
}

from_line-append :
    (mark : Text) (before after : List Text)
    → contains before mark ≡ false
    → from_line mark (before ++ mark ∷ after) ≡ some (mark ∷ after)
from_line-append mark [] after h = ground (arith, (same_text_iff mark mark).1 refl)
from_line-append mark (line ∷ before) after h =
    ground (arith, h, from_line-append mark before after (ground (arith, h)))

upto_line-append :
    (mark : Text) (before after : List Text)
    → contains before mark ≡ false
    → upto_line mark (before ++ mark ∷ after) ≡ before ++ mark ∷ []
upto_line-append mark [] after h = ground (arith, (same_text_iff mark mark).1 refl)
upto_line-append mark (line ∷ before) after h =
    ground (arith, h, upto_line-append mark before after (ground (arith, h)))

contains_here :
    (before after : List Text) (mark : Text) → contains (before ++ mark ∷ after) mark ≡ true
contains_here [] after mark = ground (arith, (same_text_iff mark mark).1 refl)
contains_here (line ∷ before) after mark = ground (arith, contains_here before after mark)

append_assoc : (xs ys zs : List Text) → (xs ++ ys) ++ zs ≡ xs ++ (ys ++ zs)
append_assoc [] ys zs = refl
append_assoc (x ∷ xs) ys zs = ap (λ rest. x ∷ rest) (append_assoc xs ys zs)

-- In a file with a managed block, the lines between its two marks become the new body, and every line
-- before and after it stays.
pub gitignore_replaces :
    (current body : Text) (before old after : List Text)
    → split_at newline current ≡ before ++ gitignore_begin ∷ (old ++ gitignore_end ∷ after)
    → contains before gitignore_begin ≡ false
    → contains old gitignore_end ≡ false
    → gitignore (some current) body
      ≡ file (join (before ++ gitignore_begin ∷ rstrip_of newline body ∷ gitignore_end ∷ after))
unfolding gitignore
gitignore_replaces current body before old after lines b o =
    rw (lines, there, upto, from)
      (ap (λ l. file (join l)) (append_assoc before (gitignore_begin ∷ []) _))
  where
    there :
        contains (before ++ gitignore_begin ∷ (old ++ gitignore_end ∷ after)) gitignore_begin ≡ true
    there = contains_here before (old ++ gitignore_end ∷ after) gitignore_begin

    upto :
        upto_line gitignore_begin (before ++ gitignore_begin ∷ (old ++ gitignore_end ∷ after))
        ≡ before ++ gitignore_begin ∷ []
    upto = upto_line-append gitignore_begin before (old ++ gitignore_end ∷ after) b

    from :
        lines_from gitignore_end
          (from_line gitignore_begin (before ++ gitignore_begin ∷ (old ++ gitignore_end ∷ after)))
        ≡ some (gitignore_end ∷ after)
    from =
        rw (from_line-append gitignore_begin before (old ++ gitignore_end ∷ after) b)
          (from_line-append gitignore_end (gitignore_begin ∷ old) after o)
