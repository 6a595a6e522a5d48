-- ===== src/Ci/Drift/Kept.antt =====
-- drift.py: which issues a reminder touches.
use frappe_nix.Prelude.{
  ℕ, ◌≡◌, refl, ◌∙◌, ap, Bool, true, not, ◌&&◌, ◌||◌, Option, none, some, List, [], ◌∷◌, Text,
  number_eq, ◌==◌, keep, any, if◌then◌else◌, if_intro, arith, inl, inr, ◌⊎◌,
}
use frappe_nix.Ci.Drift.{
  Issue, found_issues, patch, Outcome, close_issue, rewrite, close_all, close_found, write_found,
  keep_issue,
}

-- Whether a reminder finds an issue.
abbrev pub is_found : (Text → Bool) → Issue → Bool
is_found match_title i = i.is_open && not i.is_pull_request && match_title i.title

-- The issues of other numbers than those found.
abbrev pub has_number : List Issue → ℕ → Bool
has_number found n = any (λ i. i.number == n) found

abbrev pub others : List Issue → List Issue → List Issue
others found issues = keep (λ i. not (has_number found i.number)) issues

patch-others :
    (change : Issue → Issue) (found : List Issue) (n : ℕ) (issues : List Issue)
    → ((i : Issue) → (change i).number ≡ i.number)
    → has_number found n ≡ true
    → others found (patch n change issues) ≡ others found issues
patch-others change found n [] same there = refl
patch-others change found n (i ∷ issues) same there =
    if_intro (λ xs. others found xs ≡ others found (i ∷ issues)) (i.number == n)
      (λ e.
        let is : i.number ≡ n = (number_eq.agrees i.number n).0 e in
        let out : has_number found i.number ≡ true = ap (has_number found) is ∙ there in
        let out' : has_number found (change i).number ≡ true =
          ap (has_number found) (same i) ∙ out in
        rw (out, out') (patch-others change found n issues same there))
      (λ e.
        ap (λ xs. if not (has_number found i.number) then i ∷ xs else xs)
          (patch-others change found n issues same there))

close_all-others :
    (refuses : ℕ → Bool) (all_found found issues : List Issue)
    → ((n : ℕ) → has_number found n ≡ true → has_number all_found n ≡ true)
    → others all_found (close_all refuses found issues).1 ≡ others all_found issues
close_all-others refuses all_found [] issues sub = refl
close_all-others refuses all_found (i ∷ found) issues sub =
    if_intro (λ (r : Outcome × List Issue). others all_found r.1 ≡ others all_found issues)
      (refuses i.number) (λ e. refl)
      (λ e.
        close_all-others refuses all_found found (patch i.number close_issue issues)
          (λ n h. sub n (ground (arith, h)))
        ∙ patch-others close_issue all_found i.number issues (λ j. refl)
            (sub i.number (ground arith)))

-- A reminder changes no issue but those that it finds, by its own title among the open ones that are no pull
-- requests: the others are as they were, in their order, also where GitHub refuses a request midway; or it
-- finds none and opens just one.
pub keep_issue-others :
    (refuses : ℕ → Bool) (fresh : ℕ) (match_title : Text → Bool) (title : Text) (body : Option Text)
    (issues : List Issue)
    → (others
          (found_issues match_title issues)
          (keep_issue refuses fresh match_title title body issues).1
        ≡ others (found_issues match_title issues) issues)
      ⊎ ((found_issues match_title issues ≡ [])
          × ((i : Issue) × ((keep_issue refuses fresh match_title title body issues).1
                ≡ i ∷ issues)))
unfolding keep_issue
keep_issue-others refuses fresh match_title title none issues =
    inl (go (found_issues match_title issues))
  where
    go :
        (found : List Issue)
        → others found (close_found refuses found issues).1 ≡ others found issues
    go [] = refl
    go (i ∷ found) = close_all-others refuses (i ∷ found) (i ∷ found) issues (λ n h. h)
keep_issue-others refuses fresh match_title title (some body) issues =
    go (found_issues match_title issues)
  where
    go :
        (found : List Issue)
        → (others found (write_found refuses fresh title body found issues).1 ≡ others found issues)
          ⊎ ((found ≡ [])
              × ((i : Issue) × ((write_found refuses fresh title body found issues).1
                    ≡ i ∷ issues)))
    go [] =
        if_intro
          (λ (r : Outcome × List Issue).
            (others [] r.1 ≡ others [] issues)
            ⊎ ((◌≡◌ {A = List Issue} [] []) × ((i : Issue) × (r.1 ≡ i ∷ issues))))
          (refuses fresh) (λ e. inl refl) (λ e. inr (refl, (_, refl)))
    go (i ∷ found) =
        if_intro
          (λ (r : Outcome × List Issue).
            (others (i ∷ found) r.1 ≡ others (i ∷ found) issues)
            ⊎ ((i ∷ found ≡ []) × ((j : Issue) × (r.1 ≡ j ∷ issues))))
          (refuses i.number) (λ e. inl refl)
          (λ e. inl (
            patch-others (rewrite title body) (i ∷ found) i.number issues (λ j. refl)
              (here i.number (has_number found i.number))))
      where
        here : (n : ℕ) (b : Bool) → (n == n || b) ≡ true
        here n b = ground arith
