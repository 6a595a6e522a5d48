-- ===== src/Ratchet/Shrinks.antt =====
-- ratchet.py: what a run without violations says of the two sides.
use frappe_nix.Prelude.{
  ℕ, ◌≤◌, ◌≡◌, refl, Bool, true, false, ◌&&◌, Option, none, some, List, [], ◌∷◌, ◌++◌, map,
  contains, Text, text_eq, if◌then◌else◌, ltb, minus, arith, contains-keep,
}
use frappe_nix.Ratchet.{
  Switches, Ignore, Doc, Base, Head, Violation, new_omit, new_untested, new_unchecked, new_items,
  lower_fail_under, ty_more, unjustified, ty_count, ty_violations, base_switches, compare, renamer,
  violations,
}

append_nil : (xs ys : List Violation) → xs ++ ys ≡ [] → (xs ≡ []) × (ys ≡ [])
append_nil [] ys h = (refl, h)
append_nil (x ∷ xs) ys h = cc

map-nil : (v : Violation) (ts : List Text) → map (λ t. v) ts ≡ [] → ts ≡ []
map-nil v [] h = refl
map-nil v (t ∷ ts) h = cc

-- If a rule is on, every item of the head is one of the base.
abbrev pub Shrinks : Bool → List Text → List Text → Type 0
Shrinks on head base = (t : Text) → (on && contains head t) ≡ true → contains base t ≡ true

new_items-Shrinks :
    (v : Violation) (on : Bool) (head base : List Text)
    → new_items v on head base ≡ []
    → Shrinks on head base
new_items-Shrinks v on head base h t c = ground (arith, c, member, none_new)
  where
    none_new : contains (minus head base) t ≡ false
    none_new = rw (map-nil v (minus head base) (ground (arith, h, c))) refl

    member : contains (minus head base) t ≡ (
        contains head t
        && (let b : Bool = elim (contains base t) [ true ↦ false | false ↦ true ] in b))
    member = contains-keep (λ x. elim (contains base x) [ true ↦ false | false ↦ true ]) head t

-- The coverage threshold of the head is not below the base's, where it has one.
abbrev pub Holds : Option ℕ → Option ℕ → Type 0
Holds head none = Unit
Holds none (some b) = ⊥
Holds (some h) (some b) = b ≤ h

lower-Holds :
    (on : Bool) (head base : Option ℕ)
    → on ≡ true
    → lower_fail_under on head base ≡ []
    → Holds head base
lower-Holds on head none o h = tt
lower-Holds on none (some b) o h = absurd (ground (arith, o, h))
lower-Holds on (some x) (some b) o h = ground (arith, o, h)

ty_count_le :
    (on base_on : Bool) (head base : List Ignore)
    → ty_violations on base_on head base ≡ []
    → (on && base_on) ≡ true
    → ty_count head ≤ ty_count base
ty_count_le on base_on head base h o =
    let more : List Violation =
      if base_on && ltb (ty_count base) (ty_count head) then ty_more ∷ [] else [] in
    let none_more : more ≡ [] = (append_nil (unjustified head) more (ground (arith, h, o))).1 in
    ground (arith, none_more, o)

-- A promise that stands only if a rule is on.
abbrev pub IfOn : Bool → Type 0 → Type 0
IfOn false P = Unit
IfOn true P = P

IfOn_intro : {P : Type 0} (on : Bool) → (on ≡ true → P) → IfOn on P
IfOn_intro false h = tt
IfOn_intro true h = h refl

-- What the ratchet promises of a head, over the switches of the two sides and the renaming.
abbrev pub IsShrunk : (Text → Text) → Switches → Doc → Head → Type 0
IsShrunk ren b base h =
    Shrinks (h.switches.coverage && b.coverage) h.doc.coverage_omit (map ren base.coverage_omit)
    × Shrinks (h.switches.testmap && b.testmap) h.doc.untested (map ren base.untested)
    × Shrinks (h.switches.check_js && b.check_js) h.doc.unchecked_js (map ren base.unchecked_js)
    × IfOn (h.switches.coverage && b.coverage) (Holds h.doc.fail_under base.fail_under)
    × IfOn (h.switches.python_types && b.python_types)
        (ty_count h.doc.ignores ≤ ty_count base.ignores)

compare-IsShrunk :
    (ren : Text → Text) (b : Switches) (base : Doc) (h : Head)
    → compare ren b base h ≡ []
    → IsShrunk ren b base h
compare-IsShrunk ren b base h e =
    let (e6, r5) = append_nil _ _ e in
    let (e5, js) = append_nil _ _ e6 in
    let (e4, tests) = append_nil _ _ e5 in
    let (e3, r3) = append_nil _ _ e4 in
    let (e2, ty) = append_nil _ _ e3 in
    let (r1, omit) = append_nil _ _ e2 in
    (
      new_items-Shrinks new_omit (h.switches.coverage && b.coverage) h.doc.coverage_omit
          (map ren base.coverage_omit) omit,
      new_items-Shrinks new_untested (h.switches.testmap && b.testmap) h.doc.untested
          (map ren base.untested) tests,
      new_items-Shrinks new_unchecked (h.switches.check_js && b.check_js) h.doc.unchecked_js
          (map ren base.unchecked_js) js,
      IfOn_intro (h.switches.coverage && b.coverage) (λ on.
          lower-Holds (h.switches.coverage && b.coverage) h.doc.fail_under base.fail_under on r1),
      IfOn_intro (h.switches.python_types && b.python_types) (λ on.
          ty_count_le h.switches.python_types b.python_types h.doc.ignores base.ignores ty on),
    )

-- When the ratchet finds nothing against an opted-in base, then for each of coverage-omit, untested and
-- unchecked-js whose module is on in both: every entry of the head is an entry of the base, under the
-- head's package name. With coverage on in both, the threshold has not gone down, and with python-types on
-- in both, there are no more `ty: ignore` comments than before. A base whose switches cannot be resolved has the head's.
pub violations-IsShrunk :
    (b : Base) (h : Head)
    → b.opted_in ≡ true
    → violations b h ≡ []
    → IsShrunk
        (renamer b.doc.package_name h.doc.package_name)
        (base_switches h.switches b.switches)
        b.doc
        h
unfolding violations
violations-IsShrunk b h o e =
    compare-IsShrunk (renamer b.doc.package_name h.doc.package_name)
      (base_switches h.switches b.switches) b.doc h (ground (arith, o, e))
