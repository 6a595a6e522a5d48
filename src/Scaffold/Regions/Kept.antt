-- ===== src/Scaffold/Regions/Kept.antt =====
-- regions.py: what the regions of a file can hold, and that splicing twice is splicing once.
use frappe_nix.Prelude.{
  ◌≡◌, refl, sym, ap, ◌∙◌, Bool, true, false, not, ◌&&◌, Option, none, some, List, [], ◌∷◌, ◌++◌,
  all, All, contains, Text, text_eq, ◌==◌, arith, Bool-cases, inl, inr, if_intro,
}
use frappe_nix.Prelude.Dict.{lookup, insert}
use frappe_nix.Scaffold.Regions.{
  Marker, begins, ends, marker, Parsed, good, bad, Bodies, body_or_none, body_of, is_there,
  is_current, begin_at, take_line, parse_from, parse, begun, is_end, fill, fill_parsed, bodies_now,
  is_nil, splice,
}

abbrev pub is_plain_marker : Option Marker → Bool
is_plain_marker none = true
is_plain_marker (some m) = false

abbrev pub is_plain : Text → Bool
is_plain line = is_plain_marker (marker line)

module _ (allowed : List Text) where
  -- A region of an allowed name, with no marker in it.
  abbrev pub IsRegion : Text × List Text → Type 0
  IsRegion (name, body) = (contains allowed name ≡ true) × (all is_plain body ≡ true)

  abbrev Inside : Option Text → Type 0
  Inside none = Unit
  Inside (some name) = contains allowed name ≡ true

  insert-IsRegion :
      (name : Text) (body : List Text) (d : Bodies)
      → contains allowed name ≡ true
      → all is_plain body ≡ true
      → All IsRegion d
      → All IsRegion (insert name body d)
  insert-IsRegion name body [] a p h = ((a, p), tt)
  insert-IsRegion name body ((n, b) ∷ d) a p ((an, pb), h) =
      if_intro (All IsRegion) (n == name) (λ _. ((an, p), h))
        (λ _. ((an, pb), insert-IsRegion name body d a p h))

  pub body_of-plain :
      (name : Text) (d : Bodies) → All IsRegion d → all is_plain (body_of name d) ≡ true
  body_of-plain name [] h = refl
  body_of-plain name ((n, b) ∷ d) ((an, pb), h) =
      if_intro (λ o. all is_plain (body_or_none o) ≡ true) (n == name) (λ _. pb)
        (λ _. body_of-plain name d h)

  all-append : (xs ys : List Text) → all is_plain (xs ++ ys) ≡ (all is_plain xs && all is_plain ys)
  all-append [] ys = refl
  all-append (x ∷ xs) ys = ground (arith, all-append xs ys)

  abbrev Next : Parsed (Bodies × Option Text) → Type 0
  Next (bad fault) = Unit
  Next (good (out, current)) = All IsRegion out × Inside current

  begin_at-Next :
      (name : Text) (out : Bodies) (current : Option Text)
      → All IsRegion out
      → Next (begin_at allowed name out current)
  begin_at-Next name out (some c) h = tt
  begin_at-Next name out none h =
      if_intro Next (not (contains allowed name)) (λ _. tt)
        λ a.
          if_intro Next (is_there (lookup name out)) (λ _. tt)
            (λ _. (insert-IsRegion name [] out (ground (arith, a)) refl h, ground (arith, a)))

  take_line-Next :
      (line : Text) (m : Option Marker) (out : Bodies) (current : Option Text)
      → is_plain_marker m ≡ is_plain line
      → All IsRegion out
      → Inside current
      → Next (take_line allowed line m out current)
  take_line-Next line none out none e h c = (h, tt)
  take_line-Next line none out (some n) e h c = (
    insert-IsRegion n (body_of n out ++ line ∷ []) out c
        (ground (arith, all-append (body_of n out) (line ∷ []), body_of-plain n out h, e)) h,
    c,
  )
  take_line-Next line (some (begins n)) out c e h i = begin_at-Next n out c h
  take_line-Next line (some (ends n)) out c e h i =
      if_intro Next (is_current n c) (λ _. (h, tt)) (λ _. tt)

  abbrev pub AllRegions : Parsed Bodies → Type 0
  AllRegions (bad fault) = Unit
  AllRegions (good d) = All IsRegion d

  parse_from-AllRegions :
      (out : Bodies) (current : Option Text) (lines : List Text)
      → All IsRegion out
      → Inside current
      → AllRegions (parse_from allowed out current lines)
  unfolding parse_from
  parse_from-AllRegions out none [] h c = h
  parse_from-AllRegions out (some n) [] h c = tt
  parse_from-AllRegions out current (line ∷ lines) h c =
      go (take_line allowed line (marker line) out current)
        (take_line-Next line (marker line) out current refl h c)
        (λ out' current' n i. parse_from-AllRegions out' current' lines n i)
    where
      go :
          (r : Parsed (Bodies × Option Text))
          → Next r
          → ((out' : Bodies) (current' : Option Text)
              → All IsRegion out'
              → Inside current'
              → AllRegions (parse_from allowed out' current' lines))
          → AllRegions (
              let p : Parsed Bodies = elim r [
                | bad fault ↦ bad fault
                | good (out', current') ↦ parse_from allowed out' current' lines
              ] in
              p)
      go (bad fault) n rest = tt
      go (good (out', current')) (n, i) rest = rest out' current' n i

  -- Every region that `parse` reads from a file has an allowed name, and no line of it is a marker.
  pub parse-AllRegions : (lines : List Text) → AllRegions (parse allowed lines)
  unfolding parse
  parse-AllRegions lines = parse_from-AllRegions [] none lines tt tt

  skip_plain :
      (c : Bodies) (name : Text) (body lines : List Text)
      → all is_plain body ≡ true
      → fill c (some name) (body ++ lines) ≡ fill c (some name) lines
  unfolding fill
  skip_plain c name [] lines h = refl
  skip_plain c name (line ∷ body) lines h = ground (
    arith,
    not_end (marker line) (ground (arith, h)),
    skip_plain c name body lines (ground (arith, h)),
  )
    where
      not_end : (m : Option Marker) → is_plain_marker m ≡ true → is_end m ≡ false
      not_end none h' = refl
      not_end (some m) h' = cc

  fill-fill :
      (c d : Bodies) (inside : Option Text) (lines : List Text)
      → All IsRegion d
      → fill c inside (fill d inside lines) ≡ fill c inside lines
  unfolding fill
  fill-fill c d inside [] h = refl
  fill-fill c d none (line ∷ lines) h =
      ap (λ rest. line ∷ rest) (fill-fill c d (begun (marker line)) lines h)
  fill-fill c d (some name) (line ∷ lines) h = elim (Bool-cases (is_end (marker line))) [
    | inr other ↦ rw other (fill-fill c d (some name) lines h)
    | inl e ↦
        let skipped =
          skip_plain c name (body_of name d) (line ∷ fill d none lines) (body_of-plain name d h) in
        rw e (skipped ∙ rw e (rw (fill-fill c d none lines h) refl))
  ]

  fill_parsed-fill :
      (rendered : List Text) (d : Bodies) (p : Parsed Bodies)
      → All IsRegion d
      → fill_parsed (fill d none rendered) p ≡ fill_parsed rendered p
  fill_parsed-fill rendered d (bad fault) h = refl
  fill_parsed-fill rendered d (good c) h = ap good (fill-fill c d none rendered h)

  fill_parsed-twice :
      (rendered out : List Text) (p q : Parsed Bodies)
      → AllRegions p
      → fill_parsed rendered p ≡ good out
      → fill_parsed out q ≡ fill_parsed rendered q
  fill_parsed-twice rendered out (bad fault) q h e = cc
  fill_parsed-twice rendered out (good d) q h e =
      rw (sym (good_injective (fill d none rendered) out e)) (fill_parsed-fill rendered d q h)
    where
      good_injective : (x y : List Text) → good x ≡ good y → x ≡ y
      good_injective x y h' = cc

  pub bodies_now-AllRegions :
      (current : Option (List Text)) → AllRegions (bodies_now allowed current)
  bodies_now-AllRegions none = tt
  bodies_now-AllRegions (some lines) = parse-AllRegions lines

  -- A file that `splice` made serves as the template that it was made from: splicing any file into it
  -- gives what splicing that file into the template gives.
  pub splice-splice :
      (rendered out : List Text) (current other : Option (List Text))
      → splice allowed rendered current ≡ good out
      → splice allowed out other ≡ splice allowed rendered other
  unfolding splice
  splice-splice rendered out current other h = elim (Bool-cases (is_nil allowed)) [
    | inl e ↦ ground (arith, e, h)
    | inr e ↦
        let made : fill_parsed rendered (bodies_now allowed current) ≡ good out =
          ground (arith, e, h) in
        rw e (
          fill_parsed-twice rendered out (bodies_now allowed current) (bodies_now allowed other)
            (bodies_now-AllRegions current) made)
  ]
