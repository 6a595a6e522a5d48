-- ===== src/Scaffold/Regions/Spliced.antt =====
-- regions.py: `parse` reads the regions of a file, and `splice` keeps them.
use frappe_nix.Prelude.{
  subst, map, if◌then◌else◌, append_assoc, ◌≡◌, refl, sym, ap, ◌∙◌, true, false, not, Option, none,
  some, List, [], ◌∷◌, ◌++◌, contains, Text, text_eq, ◌==◌, arith, Bool-cases, inl, inr, if_intro,
}
use frappe_nix.Prelude.Dict.{lookup, insert}
use frappe_nix.Scaffold.Regions.{
  Marker, begins, ends, marker, Parsed, good, bad, Bodies, body_of, is_there, take_line, parse_from,
  parse, begun, is_end, fill, fill_parsed, bodies_now, is_nil, splice,
}
use frappe_nix.Scaffold.Regions.Kept.{AllRegions, bodies_now-AllRegions}
use frappe_nix.Scaffold.Regions.Segments.{
  outside, regions_of, refilled, append_empty, fill-outside, fill-regions_of, regions_now,
}

module _ (allowed : List Text) where
  insert_last :
      (name : Text) (body : List Text) (out : Bodies)
      → is_there (lookup name out) ≡ false
      → insert name body out ≡ out ++ (name, body) ∷ []
  insert_last name body [] h = refl
  insert_last name body ((n, b) ∷ out) h = elim (Bool-cases (n == name)) [
    | inl same ↦ absurd (ground (arith, h, same))
    | inr other ↦
        rw other (ap (λ xs. (n, b) ∷ xs) (insert_last name body out (ground (arith, h, other))))
  ]

  insert_again :
      (name : Text) (body new : List Text) (out : Bodies)
      → is_there (lookup name out) ≡ false
      → (body_of name (out ++ (name, body) ∷ []) ≡ body)
        × (insert name new (out ++ (name, body) ∷ []) ≡ out ++ (name, new) ∷ [])
  insert_again name body new [] h =
      let same : (name == name) ≡ true = (text_eq.agrees name name).1 refl in
      (rw same refl, rw same refl)
  insert_again name body new ((n, b) ∷ out) h = elim (Bool-cases (n == name)) [
    | inl same ↦ absurd (ground (arith, h, same))
    | inr other ↦
        let (read, put) = insert_again name body new out (ground (arith, h, other)) in
        (rw other read, rw other (ap (λ xs. (n, b) ∷ xs) put))
  ]

  -- What was read of the regions before a line, with the one that is open behind the others.
  abbrev Open : Bodies → Option Text → List Text → Bodies
  Open out none body = out
  Open out (some name) body = out ++ (name, body) ∷ []

  abbrev IsNew : Bodies → Option Text → Type 0
  IsNew out none = Unit
  IsNew out (some name) = is_there (lookup name out) ≡ false

  -- What a step of the loop leads to, if the rest of the lines then reads as their regions.
  abbrev Leads : List Text → Parsed (Bodies × Option Text) → Bodies → Type 0
  Leads lines r all_regions =
      (d : Bodies)
      → (let p : Parsed Bodies = elim r [
        | bad fault ↦ bad fault
        | good (out', current') ↦ parse_from allowed out' current' lines
      ] in
          p)
        ≡ good d
      → d ≡ all_regions

  parse_from-regions_of :
      (lines : List Text) (out : Bodies) (current : Option Text) (body : List Text)
      → IsNew out current
      → (d : Bodies) → parse_from allowed (Open out current body) current lines ≡ good d
      → d ≡ out ++ regions_of current body lines
  unfolding parse_from
  parse_from-regions_of [] out none body new =
      λ d h. let same : out ≡ d = cc in sym same ∙ sym (append_empty out)
  parse_from-regions_of [] out (some name) body new = λ d h. cc
  parse_from-regions_of (line ∷ lines) out none body new =
      outer (marker line) (parse_from-regions_of lines out none [] tt)
        (λ name. parse_from-regions_of lines out (some name) [])
    where
      outer :
          (m : Option Marker)
          → Leads lines (good (out, none)) (out ++ regions_of none [] lines)
          → ((name : Text)
              → is_there (lookup name out) ≡ false
              → Leads lines
                  (good (out ++ (name, []) ∷ [], some name))
                  (out ++ regions_of (some name) [] lines))
          → Leads lines (take_line allowed line m out none) (out ++ regions_of (begun m) [] lines)
      outer none same open_next = same
      outer (some (ends name)) same open_next = λ d h. cc
      outer (some (begins name)) same open_next =
          if_intro (λ r. Leads lines r (out ++ regions_of (some name) [] lines))
            (not (contains allowed name)) (λ _ d h. cc)
            (λ _.
              if_intro (λ r. Leads lines r (out ++ regions_of (some name) [] lines))
                (is_there (lookup name out)) (λ _ d h. cc)
                (λ new.
                  subst
                    (λ o.
                      Leads lines (good (o, some name)) (out ++ regions_of (some name) [] lines))
                    (sym (insert_last name [] out new)) (open_next name new)))
  parse_from-regions_of (line ∷ lines) out (some name) body new =
      inner (marker line) (parse_from-regions_of lines (out ++ (name, body) ∷ []) none [] tt)
        (parse_from-regions_of lines out (some name) (body ++ line ∷ []) new)
    where
      open' : Bodies
      open' = out ++ (name, body) ∷ []

      inner :
          (m : Option Marker)
          → Leads lines (good (open', none)) (open' ++ regions_of none [] lines)
          → Leads lines
              (good (out ++ (name, body ++ line ∷ []) ∷ [], some name))
              (out ++ regions_of (some name) (body ++ line ∷ []) lines)
          → Leads lines (take_line allowed line m open' (some name)) (
              out
              ++ (let rest = regions_of none [] lines in
                  let more = regions_of (some name) (body ++ line ∷ []) lines in
                  if is_end m then (name, body) ∷ rest else more))
      inner none closed more =
          let (read, put) = insert_again name body (body ++ line ∷ []) out new in
          subst
            (λ o.
              Leads lines (good (o, some name))
                (out ++ regions_of (some name) (body ++ line ∷ []) lines))
            (sym (ap (λ b. insert name (b ++ line ∷ []) open') read ∙ put)) more
      inner (some (begins other)) closed more = λ d h. cc
      inner (some (ends other)) closed more =
          if_intro (λ r. Leads lines r (out ++ (name, body) ∷ regions_of none [] lines))
            (name == other)
            (λ _ d h. closed d h ∙ append_assoc out ((name, body) ∷ []) (regions_of none [] lines))
            (λ _ d h. cc)

  bodies_now-regions_now :
      (current : Option (List Text)) (d : Bodies)
      → bodies_now allowed current ≡ good d
      → d ≡ regions_now current
  unfolding parse
  bodies_now-regions_now none d h = let same : [] ≡ d = cc in sym same
  bodies_now-regions_now (some lines) d h = parse_from-regions_of lines [] none [] tt d h

  -- Where a file may have regions, what `splice` makes of a template has the template's lines outside the
  -- regions, and the template's regions in order, each with the body that the current file's region of its
  -- name has, or an empty one if there is none.
  pub splice_keeps :
      (rendered out : List Text) (current : Option (List Text))
      → is_nil allowed ≡ false
      → splice allowed rendered current ≡ good out
      → (outside none out ≡ outside none rendered)
        × (regions_of none [] out
            ≡ map (refilled (regions_now current)) (regions_of none [] rendered))
  unfolding splice
  splice_keeps rendered out current some_allowed h =
      go (bodies_now allowed current) refl (bodies_now-AllRegions allowed current)
        (ground (arith, some_allowed, h))
    where
      go :
          (p : Parsed Bodies)
          → bodies_now allowed current ≡ p
          → AllRegions allowed p
          → fill_parsed rendered p ≡ good out
          → (outside none out ≡ outside none rendered)
            × (regions_of none [] out
                ≡ map (refilled (regions_now current)) (regions_of none [] rendered))
      go (bad fault) e r made = cc
      go (good d) e r made =
          let same : fill d none rendered ≡ out = cc in
          (
            rw (← same) (fill-outside allowed d none rendered r),
            rw (← same) (
                fill-regions_of allowed d none [] rendered r
                ∙ ap (λ x. map (refilled x) (regions_of none [] rendered))
                    (bodies_now-regions_now current d e)),
          )
