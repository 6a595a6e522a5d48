-- ===== src/Ci/Branches/Limit.antt =====
-- branches.py: how many updates a run asks for, and of which pull requests.
use frappe_nix.Prelude.{
  ℕ, zero, suc, ◌-◌, ◌≡◌, refl, sym, ◌∙◌, ap, Bool, true, false, not, ◌&&◌, Option, none, some,
  List, [], ◌∷◌, ◌++◌, Text, text_eq, number_eq, contains, starts_with, any, keep, take, map, leb,
  if◌then◌else◌, arith, subst, if_intro,
}
use frappe_nix.Ci.Branches.{
  Pr, is_bot_pr, Answers, Outcome, update_branch, nothing_done, and_then, updates, sorted,
  run_updates, release_prefix, release_labels,
}

abbrev pub is_behind : Option ℕ → Bool
is_behind (some (suc n)) = true
is_behind _ = false

-- A pull request that the run has to bring up to date.
abbrev pub is_due : Answers → Pr → Bool
is_due g pr = is_bot_pr pr && is_behind (g.behind_by pr.head_sha)

abbrev pub key : Pr → ℕ × Text
key pr = (pr.number, pr.head_sha)

-- What was asked for is the beginning of a list, and all of it if nothing failed.
abbrev pub Begins : Outcome → List (ℕ × Text) → Type 0
Begins o xs = (rest : List (ℕ × Text)) × (xs ≡ o.asked ++ rest) × (o.failed ≡ false → rest ≡ [])

asked_one :
    (g : Answers) (dispatch_ci : Bool) (pr : Pr)
    → (update_branch g dispatch_ci pr).asked ≡ key pr ∷ []
unfolding update_branch
asked_one g dispatch_ci pr =
    if_intro (λ (o : Outcome). o.asked ≡ key pr ∷ []) (not (g.merges pr.number pr.head_sha))
      (λ e. refl) (λ e. refl)

and_then-Begins :
    (o rest : Outcome) (x : ℕ × Text) (xs : List (ℕ × Text))
    → o.asked ≡ x ∷ []
    → Begins rest xs
    → Begins (and_then o rest) (x ∷ xs)
and_then-Begins o rest x xs one (more, e, all_of) =
    if_intro (λ (r : Outcome). Begins r (x ∷ xs)) o.failed
      (λ bad. (xs, rw one refl, λ h. absurd (clash (sym bad ∙ h))))
      (λ good. (more, rw one (ap (λ ys. x ∷ ys) e), all_of))
  where
    clash : true ≡ false → ⊥
    clash h = cc

take_none : (n : ℕ) → map key (take n []) ≡ []
take_none zero = refl
take_none (suc n) = refl

one_more : (limit acted : ℕ) → leb limit acted ≡ false → limit - acted ≡ suc (limit - suc acted)
one_more limit acted h = ground (arith, h)

no_more : (limit acted : ℕ) → leb limit acted ≡ true → limit - acted ≡ 0
no_more limit acted h = ground (arith, h)

updates-Begins :
    (g : Answers) (dispatch_ci : Bool) (limit acted : ℕ) (prs : List Pr)
    → Begins
        (updates g dispatch_ci limit acted prs)
        (map key (take (limit - acted) (keep (is_due g) prs)))
unfolding updates
updates-Begins g dispatch_ci limit acted [] = ([], take_none (limit - acted), λ h. refl)
updates-Begins g dispatch_ci limit acted (pr ∷ prs) =
    go (is_bot_pr pr) (g.behind_by pr.head_sha) (updates-Begins g dispatch_ci limit acted prs)
      (updates-Begins g dispatch_ci limit (suc acted) prs)
  where
    due : List Pr
    due = keep (is_due g) prs

    act :
        (full : Bool)
        → leb limit acted ≡ full
        → Begins
            (updates g dispatch_ci limit (suc acted) prs)
            (map key (take (limit - suc acted) due))
        → Begins
            (elim full [
              | true ↦ nothing_done
              | false ↦
                  and_then
                    (update_branch g dispatch_ci pr)
                    (updates g dispatch_ci limit (suc acted) prs)
            ])
            (map key (take (limit - acted) (pr ∷ due)))
    act true e ih = rw (no_more limit acted e) ([], refl, λ h. refl)
    act false e ih = rw (one_more limit acted e) (
        and_then-Begins (update_branch g dispatch_ci pr)
          (updates g dispatch_ci limit (suc acted) prs) (key pr)
          (map key (take (limit - suc acted) due)) (asked_one g dispatch_ci pr) ih)

    go :
        (bot : Bool) (behind : Option ℕ)
        → Begins (updates g dispatch_ci limit acted prs) (map key (take (limit - acted) due))
        → Begins
            (updates g dispatch_ci limit (suc acted) prs)
            (map key (take (limit - suc acted) due))
        → Begins
            (elim bot [
              | false ↦ updates g dispatch_ci limit acted prs
              | true ↦ elim behind [
                | none ↦ record nothing_done { failed = true }
                | some zero ↦ updates g dispatch_ci limit acted prs
                | some (suc n) ↦ elim (leb limit acted) [
                  | true ↦ nothing_done
                  | false ↦
                      and_then
                        (update_branch g dispatch_ci pr)
                        (updates g dispatch_ci limit (suc acted) prs)
                ]
              ]
            ])
            (map key (take (limit - acted) (if bot && is_behind behind then pr ∷ due else due)))
    go false behind same more = same
    go true none same more = (map key (take (limit - acted) due), refl, λ h. cc)
    go true (some zero) same more = same
    go true (some (suc n)) same more = act (leb limit acted) refl more

-- A run asks GitHub to bring up to date the first pull requests, by number, of those that are a bot's and
-- behind the integration branch, each with the head that was listed, and at most `limit` of them; it leaves
-- out one of these only if an error of GitHub ended it.
pub run_updates_first :
    (g : Answers) (dispatch_ci : Bool) (limit : ℕ) (prs : List Pr)
    → Begins
        (run_updates g dispatch_ci limit prs)
        (map key (take limit (keep (is_due g) (sorted prs))))
unfolding run_updates
run_updates_first g dispatch_ci limit prs =
    let whole : limit - 0 ≡ limit = omega arith in
    subst
      (λ n.
        Begins (updates g dispatch_ci limit 0 (sorted prs))
          (map key (take n (keep (is_due g) (sorted prs)))))
      whole (updates-Begins g dispatch_ci limit 0 (sorted prs))

-- A pull request that comes from a fork, or whose branch or labels are release-please's, is not one that a
-- run brings up to date, whoever its author is.
pub is_bot_pr_guarded :
    (pr : Pr)
    → is_bot_pr pr ≡ true
    → (pr.is_cross_repository ≡ false)
      × (starts_with pr.head_ref release_prefix ≡ false)
      × (any (λ label. contains release_labels label) pr.labels ≡ false)
unfolding is_bot_pr
is_bot_pr_guarded pr h = (ground (arith, h), ground (arith, h), ground (arith, h))
