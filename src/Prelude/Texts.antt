-- ===== src/Prelude/Texts.antt =====
-- The `str` methods that the sources call, character by character. Letters outside ASCII are
-- their own lower case here.
use Prim.Native.Nat.{ℕ, ◌+◌}
use Prim.Native.Char.{code}
use Prim.Native.String.{String}
use mathlib.Core.Path.{◌≡◌, refl}
use mathlib.Core.Bool.{Bool, true, false, ◌&&◌, ◌||◌}
use mathlib.Core.List.{List, [], ◌∷◌, map}
use mathlib.Core.Logic.{◌↔◌}
use native.Mathlib.Omega.{arith}
use frappe_nix.Prelude.Tests.{Eq, leb, same_number, string_eq, if◌then◌else◌}

-- The code points of a text.
abbrev pub codes : String → List ℕ
codes String.[] = []
codes (String.◌∷◌ c s) = code c ∷ codes s

-- Text as its code points.
abbrev pub Text : Type 0
Text = List ℕ

abbrev pub same_text : Text → Text → Bool
same_text [] [] = true
same_text [] (y ∷ ys) = false
same_text (x ∷ xs) [] = false
same_text (x ∷ xs) (y ∷ ys) = same_number x y && same_text xs ys

pub same_text_iff : (xs ys : Text) → (same_text xs ys ≡ true) ↔ (xs ≡ ys)
same_text_iff [] [] = (λ h. refl, λ h. refl)
same_text_iff [] (y ∷ ys) = (λ h. cc, λ h. cc)
same_text_iff (x ∷ xs) [] = (λ h. cc, λ h. cc)
same_text_iff (x ∷ xs) (y ∷ ys) =
    (λ h. ground (arith, same_text_iff xs ys), λ h. ground (arith, same_text_iff xs ys))

instance abbrev pub text_eq : Eq Text
text_eq = record { same = same_text; agrees = same_text_iff }

-- `s.startswith(p)`
abbrev pub starts_with : Text → Text → Bool
starts_with s [] = true
starts_with [] (c ∷ p) = false
starts_with (d ∷ s) (c ∷ p) = same_number d c && starts_with s p

-- `p in s`
abbrev pub has_text : Text → Text → Bool
has_text [] p = starts_with [] p
has_text (d ∷ s) p = starts_with (d ∷ s) p || has_text s p

-- `c.lower()`
abbrev pub lower_code : ℕ → ℕ
lower_code c = if leb 65 c && leb c 90 then c + 32 else c

abbrev pub lower : Text → Text
lower = map lower_code

abbrev pub is_space : ℕ → Bool
is_space c = same_number c 32 || leb 9 c && leb c 13

-- `s.lstrip()`, `s.rstrip()` and `s.strip()`, for the blanks of ASCII
abbrev pub lstrip : Text → Text
lstrip [] = []
lstrip (c ∷ s) = let rest = lstrip s in if is_space c then rest else c ∷ s

abbrev pub rstrip : Text → Text
rstrip [] = []
rstrip (c ∷ s) = rstrip_cons c (rstrip s)
  where
    rstrip_cons : ℕ → Text → Text
    rstrip_cons c [] = if is_space c then [] else c ∷ []
    rstrip_cons c (d ∷ r) = c ∷ d ∷ r

abbrev pub strip : Text → Text
strip s = rstrip (lstrip s)

-- `s.partition(c)` for one character: before, whether it is there, and after
abbrev pub partition : ℕ → Text → Text × Bool × Text
partition c [] = ([], false, [])
partition c (d ∷ s) =
    let (before, there, after) = partition c s in
    if same_number d c then ([], true, s) else (d ∷ before, there, after)

-- The part of `s.rpartition(c)` behind the last `c`, the whole text without one
abbrev pub after_last : ℕ → Text → Text
after_last c [] = []
after_last c (d ∷ s) =
    let (before, there, after) = partition c (d ∷ s) in
    let rest = after_last c s in if there then rest else d ∷ s

-- `s.endswith(p)`
abbrev pub ends_with : Text → Text → Bool
ends_with [] p = same_text [] p
ends_with (c ∷ s) p = same_text (c ∷ s) p || ends_with s p

-- `s.split(c)` for one character
abbrev pub split_cons : ℕ → List Text → List Text
split_cons d [] = (d ∷ []) ∷ []
split_cons d (part ∷ parts) = (d ∷ part) ∷ parts

abbrev pub split_at : ℕ → Text → List Text
split_at c [] = [] ∷ []
split_at c (d ∷ s) =
    let parts = split_at c s in if same_number d c then [] ∷ parts else split_cons d parts

-- `s.strip(c)` for one character
abbrev pub lstrip_of : ℕ → Text → Text
lstrip_of c [] = []
lstrip_of c (d ∷ s) = let rest = lstrip_of c s in if same_number d c then rest else d ∷ s

abbrev pub rstrip_cons : ℕ → ℕ → Text → Text
rstrip_cons c d [] = if same_number d c then [] else d ∷ []
rstrip_cons c d (e ∷ r) = d ∷ e ∷ r

abbrev pub rstrip_of : ℕ → Text → Text
rstrip_of c [] = []
rstrip_of c (d ∷ s) = rstrip_cons c d (rstrip_of c s)

abbrev pub strip_of : ℕ → Text → Text
strip_of c s = rstrip_of c (lstrip_of c s)

abbrev pub is_empty : Text → Bool
is_empty [] = true
is_empty (c ∷ s) = false
