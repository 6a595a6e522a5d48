-- ===== src/Scaffold/Globs/Segments.antt =====
-- globs.py: `*` and `?` stay inside one path segment.
use frappe_nix.Prelude.{
  ℕ, ◌+◌, ◌≡◌, refl, sym, ◌∙◌, ap, Bool, true, false, not, ◌&&◌, List, [], ◌∷◌, Text, number_eq,
  ◌==◌, map, arith, if◌then◌else◌, Bool-cases, inl, inr, if_intro,
}
use frappe_nix.Scaffold.Globs.{
  Piece, dirs, run, one, char, piece_of, is_double, translate, star, step, matches, match_glob,
}

-- The slashes of a text.
abbrev pub slashes : Text → ℕ
slashes [] = 0
slashes (c ∷ s) = (if c == b'/' then 1 else 0) + slashes s

-- Whether a glob has no `**`.
abbrev pub has_no_double : Text → Bool
has_no_double [] = true
has_no_double (a ∷ []) = true
has_no_double (a ∷ b ∷ s) = not (is_double a b) && has_no_double (b ∷ s)

translate_plain : (g : Text) → has_no_double g ≡ true → translate g ≡ map piece_of g
unfolding translate
translate_plain [] h = refl
translate_plain (a ∷ []) h = refl
translate_plain (a ∷ b ∷ []) h = go (is_double a b) h
  where
    go :
        (d : Bool)
        → (not d && true) ≡ true
        → (let x : List Piece = elim d [ true ↦ run ∷ [] | false ↦ piece_of a ∷ piece_of b ∷ [] ] in
            x)
          ≡ piece_of a ∷ piece_of b ∷ []
    go true h' = cc
    go false h' = refl
translate_plain (a ∷ b ∷ c ∷ s) h = go (is_double a b) h (λ k. translate_plain (b ∷ c ∷ s) k)
  where
    go :
        (d : Bool)
        → (not d && has_no_double (b ∷ c ∷ s)) ≡ true
        → (has_no_double (b ∷ c ∷ s) ≡ true → translate (b ∷ c ∷ s) ≡ map piece_of (b ∷ c ∷ s))
        → (let x : List Piece = elim d [
          | true ↦ elim (c == b'/') [ true ↦ dirs ∷ translate s | false ↦ run ∷ translate (c ∷ s) ]
          | false ↦ piece_of a ∷ translate (b ∷ c ∷ s)
        ] in
            x)
          ≡ map piece_of (a ∷ b ∷ c ∷ s)
    go true h' ih = cc
    go false h' ih = ap (λ ps. piece_of a ∷ ps) (ih h')

star-slashes :
    (next : Text → Bool) (n : ℕ)
    → ((s : Text) → next s ≡ true → slashes s ≡ n)
    → (s : Text) → star (λ c. not (c == b'/')) next s ≡ true
    → slashes s ≡ n
star-slashes next n ih [] h = ih [] h
star-slashes next n ih (c ∷ s) h = elim (Bool-cases (next (c ∷ s))) [
  | inl now ↦ ih (c ∷ s) now
  | inr later ↦ ground (arith, h, later, star-slashes next n ih s (ground (arith, h, later)))
]

step-slashes :
    (a n : ℕ) (next : Text → Bool)
    → ((s : Text) → next s ≡ true → slashes s ≡ n)
    → (s : Text) → step (piece_of a) next s ≡ true
    → slashes s ≡ (if a == b'/' then 1 else 0) + n
step-slashes a n next ih s =
    if_intro (λ p. step p next s ≡ true → slashes s ≡ (if a == b'/' then 1 else 0) + n) (a == b'*')
      (λ e h. let inside = star-slashes next n ih s h in ground (arith, e, inside))
      (λ e.
        if_intro (λ p. step p next s ≡ true → slashes s ≡ (if a == b'/' then 1 else 0) + n)
          (a == b'?') (λ e' h. single s e' h) (λ e' h. same s h))
  where
    single :
        (s : Text)
        → (a == b'?') ≡ true
        → step one next s ≡ true
        → slashes s ≡ (if a == b'/' then 1 else 0) + n
    single [] e h = cc
    single (c ∷ s) e h = let rest = ih s (ground (arith, h)) in ground (arith, e, h, rest)

    same : (s : Text) → step (char a) next s ≡ true → slashes s ≡ (if a == b'/' then 1 else 0) + n
    same [] h = cc
    same (c ∷ s) h = let rest = ih s (ground (arith, h)) in ground (arith, h, rest)

plain_slashes : (g p : Text) → matches (map piece_of g) p ≡ true → slashes p ≡ slashes g
plain_slashes [] [] h = refl
plain_slashes [] (c ∷ p) h = cc
plain_slashes (a ∷ g) p h =
    step-slashes a (slashes g) (matches (map piece_of g)) (λ s k. plain_slashes g s k) p h

-- A path matches a glob without `**` only if it has as many slashes as the glob: no `*` or `?` reaches over
-- the end of a path segment.
pub match_segments :
    (g p : Text) → has_no_double g ≡ true → match_glob g p ≡ true → slashes p ≡ slashes g
unfolding match_glob
match_segments g p plain h =
    plain_slashes g p (sym (ap (λ ps. matches ps p) (translate_plain g plain)) ∙ h)
