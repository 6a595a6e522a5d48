-- ===== src/Scaffold/Regions/Segments.antt =====
-- regions.py: a file as its lines outside the regions and its regions in order, and what `fill` makes of them.
use frappe_nix.Prelude.{
  map, if◌then◌else◌, append_assoc, ◌≡◌, refl, ap, ◌∙◌, true, false, Option, none, some, List, [],
  ◌∷◌, ◌++◌, all, All, Text, text_eq, arith, Bool-cases, inl, inr,
}
use frappe_nix.Scaffold.Regions.{Marker, marker, Bodies, body_of, begun, is_end, fill}
use frappe_nix.Scaffold.Regions.Kept.{is_plain_marker, is_plain, IsRegion, body_of-plain}

-- The lines of a file that are outside the bodies of its regions, the markers among them.
abbrev pub outside : Option Text → List Text → List Text
outside inside [] = []
outside none (line ∷ lines) = line ∷ outside (begun (marker line)) lines
outside (some name) (line ∷ lines) =
    let rest = outside none lines in
    let skipped = outside (some name) lines in if is_end (marker line) then line ∷ rest else skipped

-- The regions of a file in order, each with its name and its body; `body` is what was read of the one that is
-- open.
abbrev pub regions_of : Option Text → List Text → List Text → List (Text × List Text)
regions_of inside body [] = []
regions_of none body (line ∷ lines) = regions_of (begun (marker line)) [] lines
regions_of (some name) body (line ∷ lines) =
    let rest = regions_of none [] lines in
    let more = regions_of (some name) (body ++ line ∷ []) lines in
    if is_end (marker line) then (name, body) ∷ rest else more

-- A region with the body that a dict has for its name, empty if it has none.
abbrev pub refilled : Bodies → Text × List Text → Text × List Text
refilled d (name, body) = (name, body_of name d)

pub append_empty {ℓ} : {A : Type ℓ} → (xs : List A) → xs ++ [] ≡ xs
append_empty [] = refl
append_empty (x ∷ xs) = ap (λ ys. x ∷ ys) (append_empty xs)

not_end : (m : Option Marker) → is_plain_marker m ≡ true → is_end m ≡ false
not_end none h' = refl
not_end (some m) h' = cc

outside_body :
    (name line : Text) (body rest : List Text)
    → all is_plain body ≡ true
    → is_end (marker line) ≡ true
    → outside (some name) (body ++ line ∷ rest) ≡ line ∷ outside none rest
outside_body name line [] rest h e = rw e refl
outside_body name line (x ∷ body) rest h e =
    rw (not_end (marker x) (ground (arith, h)))
      (outside_body name line body rest (ground (arith, h)) e)

regions_of_body :
    (name line : Text) (read body rest : List Text)
    → all is_plain body ≡ true
    → is_end (marker line) ≡ true
    → regions_of (some name) read (body ++ line ∷ rest)
      ≡ (name, read ++ body) ∷ regions_of none [] rest
regions_of_body name line read [] rest h e = rw (e, append_empty read) refl
regions_of_body name line read (x ∷ body) rest h e = rw (not_end (marker x) (ground (arith, h))) (
    regions_of_body name line (read ++ x ∷ []) body rest (ground (arith, h)) e
    ∙ ap (λ b. (name, b) ∷ regions_of none [] rest) (append_assoc read (x ∷ []) body))

-- The regions of a file that may be missing, as a dict.
abbrev pub regions_now : Option (List Text) → Bodies
regions_now none = []
regions_now (some lines) = regions_of none [] lines

module _ (allowed : List Text) where
  pub fill-outside :
      (d : Bodies) (inside : Option Text) (lines : List Text)
      → All (IsRegion allowed) d
      → outside inside (fill d inside lines) ≡ outside inside lines
  unfolding fill
  fill-outside d inside [] h = refl
  fill-outside d none (line ∷ lines) h =
      ap (λ rest. line ∷ rest) (fill-outside d (begun (marker line)) lines h)
  fill-outside d (some name) (line ∷ lines) h = elim (Bool-cases (is_end (marker line))) [
    | inr other ↦ rw other (fill-outside d (some name) lines h)
    | inl e ↦ rw e (
        outside_body name line (body_of name d) (fill d none lines) (body_of-plain allowed name d h)
          e
        ∙ ap (λ rest. line ∷ rest) (fill-outside d none lines h))
  ]

  pub fill-regions_of :
      (d : Bodies) (inside : Option Text) (body lines : List Text)
      → All (IsRegion allowed) d
      → regions_of inside [] (fill d inside lines) ≡ map (refilled d) (regions_of inside body lines)
  unfolding fill
  fill-regions_of d inside body [] h = refl
  fill-regions_of d none body (line ∷ lines) h = fill-regions_of d (begun (marker line)) [] lines h
  fill-regions_of d (some name) body (line ∷ lines) h = elim (Bool-cases (is_end (marker line))) [
    | inr other ↦ rw other (fill-regions_of d (some name) (body ++ line ∷ []) lines h)
    | inl e ↦ rw e (
        regions_of_body name line [] (body_of name d) (fill d none lines)
          (body_of-plain allowed name d h) e
        ∙ ap (λ rest. (name, body_of name d) ∷ rest) (fill-regions_of d none [] lines h))
  ]
