-- ===== src/Scaffold/Globs/Dialects.antt =====
-- globs.py: where the two translations of a glob agree, and where they do not.
use frappe_nix.Prelude.{
  ℕ, ◌≡◌, refl, sym, ◌∙◌, ap, Bool, true, false, not, ◌&&◌, ◌||◌, List, [], ◌∷◌, ◌++◌, Text, codes,
  number_eq, ◌==◌, contains, arith, Bool-cases, inl, inr,
}
use frappe_nix.Scaffold.Globs.{
  Piece, dirs, run, char, piece_of, is_double, translate, to_regex, star, step, matches, match_glob,
  regex_matches,
}

star_needs :
    (is_in : ℕ → Bool) (next : Text → Bool) (x : ℕ)
    → ((s : Text) → next s ≡ true → contains s x ≡ true)
    → (s : Text) → star is_in next s ≡ true
    → contains s x ≡ true
star_needs is_in next x ih [] h = ih [] h
star_needs is_in next x ih (c ∷ s) h = elim (Bool-cases (next (c ∷ s))) [
  | inl now ↦ ih (c ∷ s) now
  | inr later ↦ ground (arith, star_needs is_in next x ih s (ground (arith, h, later)))
]

char_needs :
    (x : ℕ) (next : Text → Bool) (s : Text) → step (char x) next s ≡ true → contains s x ≡ true
char_needs x next [] h = cc
char_needs x next (c ∷ s) h = ground (arith, h)

translate_dirs : (g : Text) → translate (codes "**/" ++ g) ≡ dirs ∷ translate g
unfolding translate
translate_dirs g = refl

to_regex_dirs : (g : Text) → to_regex (codes "**/" ++ g) ≡ run ∷ to_regex (b'/' ∷ g)
unfolding to_regex
to_regex_dirs g = refl

to_regex_slash : (g : Text) → to_regex (b'/' ∷ g) ≡ char b'/' ∷ to_regex g
unfolding to_regex
to_regex_slash [] = refl
to_regex_slash (b ∷ g) = refl

slash_needed : (g p : Text) → regex_matches (codes "**/" ++ g) p ≡ true → contains p b'/' ≡ true
unfolding regex_matches
slash_needed g p h =
    star_needs (λ c. not (c == b'\n')) (matches (to_regex (b'/' ∷ g))) b'/'
      (λ s k.
        char_needs b'/' (matches (to_regex g)) s
          (sym (ap (λ ps. matches ps s) (to_regex_slash g)) ∙ k))
      p (sym (ap (λ ps. matches ps p) (to_regex_dirs g)) ∙ h)

-- Where a path without a slash matches a glob, it matches `**/` and the glob too, as the doc says; but the
-- regular expression that `glob_to_regex` makes of `**/` and the glob does not match it.
pub glob_to_regex_narrower :
    (g p : Text)
    → match_glob g p ≡ true
    → contains p b'/' ≡ false
    → (match_glob (codes "**/" ++ g) p ≡ true) × (regex_matches (codes "**/" ++ g) p ≡ false)
unfolding match_glob
glob_to_regex_narrower g p h flat = (
  ap (λ ps. matches ps p) (translate_dirs g) ∙ rw h refl,
  refused (regex_matches (codes "**/" ++ g) p) (slash_needed g p),
)
  where
    refused : (b : Bool) → (b ≡ true → contains p b'/' ≡ true) → b ≡ false
    refused true k = sym (k refl) ∙ flat
    refused false k = refl

-- Whether a glob has `**` with a slash behind it.
abbrev pub has_dirs : Text → Bool
has_dirs (a ∷ b ∷ c ∷ s) = is_double a b && c == b'/' || has_dirs (b ∷ c ∷ s)
has_dirs _ = false

has_dirs_tail : (a b : ℕ) (s : Text) → has_dirs (a ∷ b ∷ s) ≡ false → has_dirs (b ∷ s) ≡ false
has_dirs_tail a b [] h = refl
has_dirs_tail a b (c ∷ s) h = ground (arith, h)

translations_agree : (g : Text) → has_dirs g ≡ false → translate g ≡ to_regex g
unfolding translate to_regex
translations_agree [] h = refl
translations_agree (a ∷ []) h = refl
translations_agree (a ∷ b ∷ []) h = go (is_double a b)
  where
    go :
        (d : Bool)
        → (let x : List Piece = elim d [
          | true ↦ run ∷ []
          | false ↦ piece_of a ∷ translate (b ∷ [])
        ] in
            x)
          ≡ (let y : List Piece = elim d [
            | true ↦ run ∷ to_regex []
            | false ↦ piece_of a ∷ to_regex (b ∷ [])
          ] in
              y)
    go true = refl
    go false = refl
translations_agree (a ∷ b ∷ c ∷ s) h =
    go (is_double a b) (c == b'/') h (translations_agree (b ∷ c ∷ s) (has_dirs_tail a b (c ∷ s) h))
      (translations_agree (c ∷ s) (has_dirs_tail b c s (has_dirs_tail a b (c ∷ s) h)))
  where
    go :
        (d e : Bool)
        → (d && e || has_dirs (b ∷ c ∷ s)) ≡ false
        → translate (b ∷ c ∷ s) ≡ to_regex (b ∷ c ∷ s)
        → translate (c ∷ s) ≡ to_regex (c ∷ s)
        → (let x : List Piece = elim d [
          | true ↦ elim e [ true ↦ dirs ∷ translate s | false ↦ run ∷ translate (c ∷ s) ]
          | false ↦ piece_of a ∷ translate (b ∷ c ∷ s)
        ] in
            x)
          ≡ (let y : List Piece = elim d [
            | true ↦ run ∷ to_regex (c ∷ s)
            | false ↦ piece_of a ∷ to_regex (b ∷ c ∷ s)
          ] in
              y)
    go true true h' one_on two_on = cc
    go true false h' one_on two_on = ap (λ ps. run ∷ ps) two_on
    go false e h' one_on two_on = ap (λ ps. piece_of a ∷ ps) one_on

-- A glob in which no slash comes right behind `**` means the same to `match` and to the regular expression of
-- `glob_to_regex`.
pub match_glob-eq-regex_matches :
    (g p : Text) → has_dirs g ≡ false → match_glob g p ≡ regex_matches g p
unfolding match_glob regex_matches
match_glob-eq-regex_matches g p h = ap (λ ps. matches ps p) (translations_agree g h)
