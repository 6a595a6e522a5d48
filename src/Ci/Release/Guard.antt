-- ===== src/Ci/Release/Guard.antt =====
-- release.py: the release branch equals the release tag, or the run fails.
use frappe_nix.Prelude.{
  [], ◌∷◌, ◌&&◌, ◌≡◌, refl, true, false, not, ◌||◌, text_eq, number_eq, ◌==◌, arith, is_empty,
  same_text_iff, if_intro,
}
use frappe_nix.Ci.Release.{
  Server, FastForward, Got, got, missing, raised, Written, written, refused, failed, Sha, scheme_ok,
  peeled, Exit, succeeded, write_ref, left_at, run_assets, compare_head, after_write, run, head_sha,
}

module _ (G : Server) where
  -- The branch is at the commit that the tag peels to; in a dry run, which writes nothing, that commit is the
  -- one that it would write.
  abbrev pub AtTag : FastForward → G.State → Type 0
  AtTag f s =
      (c : Sha) × (peeled G s ≡ got c)
      × (is_empty c ≡ false)
      × (f.dry_run ≡ false → G.branch_head s ≡ got c)
      × (f.dry_run ≡ true → f.sha ≡ c)

  head_sha-got : (g : Got Sha) (c : Sha) → is_empty c ≡ false → head_sha G g ≡ got c → g ≡ got c
  head_sha-got (got a) c full e = e
  head_sha-got missing c full e = absurd (clash c full e)
    where
      clash : (d : Sha) → is_empty d ≡ false → head_sha G missing ≡ got d → ⊥
      clash [] empty same = cc
      clash (x ∷ d) empty same = cc
  head_sha-got raised c full e = cc

  left_at-AtTag :
      (f : FastForward) (s : G.State) (c : Sha)
      → left_at G f s ≡ got c
      → peeled G s ≡ got c
      → is_empty c ≡ false
      → AtTag f s
  left_at-AtTag f s c left tagged full = (
    c,
    tagged,
    full,
    λ wet. head_sha-got (G.branch_head s) c full (rw wet at left),
    λ dry. got-injective f.sha c (rw dry at left),
  )
    where
      got-injective : (a b : Sha) → got a ≡ got b → a ≡ b
      got-injective a b e = cc

  -- A run that succeeded after a write that left the state `s`.
  abbrev pub Done : FastForward → G.State → Exit × G.State → Type 0
  Done f s r = r.0 ≡ succeeded → AtTag f s × (r.1 ≡ (run_assets G f s).1)

  compare_head-Done :
      (f : FastForward) (s : G.State) (head tagged : Got Sha)
      → left_at G f s ≡ head
      → peeled G s ≡ tagged
      → Done f s (compare_head G f head tagged s)
  compare_head-Done f s (got a) (got b) ea eb =
      if_intro (Done f s) (is_empty a || not (a == b)) (λ _ h. cc)
        (λ t h. (
          left_at-AtTag f s a ea (rw ((same_text_iff a b).0 (ground (arith, t))) eb)
              (ground (arith, t)),
          refl,
        ))
  compare_head-Done f s (got a) missing ea eb = λ h. cc
  compare_head-Done f s (got a) raised ea eb = λ h. cc
  compare_head-Done f s missing t ea eb = λ h. cc
  compare_head-Done f s raised t ea eb = λ h. cc

  after_write-Done : (f : FastForward) (w : Written × G.State) → Done f w.1 (after_write G f w)
  after_write-Done f (failed, s) = λ h. cc
  after_write-Done f (refused status, s) = λ h. absurd (ground (arith, h))
  after_write-Done f (written, s) = compare_head-Done f s (left_at G f s) (peeled G s) refl refl

  -- When a run exits 0, the tag has the prefix that the scheme asks for, and in the state right after the
  -- write the tag peels to a commit: if the run is not dry, the one at which the branch then stands, and in a
  -- dry run, which writes nothing, the one that it would write. After the write it does no more than
  -- dispatch the assets' workflow.
  pub run_guard :
      (f : FastForward) (s : G.State)
      → (run G f s).0 ≡ succeeded
      → (scheme_ok f ≡ true)
        × AtTag f (write_ref G f (G.branch_head s) s).1
        × ((run G f s).1 ≡ (run_assets G f (write_ref G f (G.branch_head s) s).1).1)
  unfolding run
  run_guard f s =
      let w = write_ref G f (G.branch_head s) s in
      if_intro
        (λ (r : Exit × G.State).
          r.0 ≡ succeeded → (scheme_ok f ≡ true) × AtTag f w.1 × (r.1 ≡ (run_assets G f w.1).1))
        (not (scheme_ok f)) (λ _ h. cc)
        (λ ok h. let (at, same) = after_write-Done f w h in (ground (arith, ok), at, same))

  compare_head-dry :
      (f : FastForward) (s : G.State) (head tagged : Got Sha)
      → f.dry_run ≡ true
      → (compare_head G f head tagged s).1 ≡ s
  compare_head-dry f s (got a) (got b) dry = ground (arith, dry)
  compare_head-dry f s (got a) missing dry = refl
  compare_head-dry f s (got a) raised dry = refl
  compare_head-dry f s missing t dry = refl
  compare_head-dry f s raised t dry = refl

  after_write-dry :
      (f : FastForward) (s : G.State) (head : Got Sha)
      → f.dry_run ≡ true
      → (after_write G f (write_ref G f head s)).1 ≡ s
  after_write-dry f s (got a) dry = simp dry (compare_head-dry f s (got f.sha) (peeled G s) dry)
  after_write-dry f s missing dry = simp dry (compare_head-dry f s (got f.sha) (peeled G s) dry)
  after_write-dry f s raised dry = refl

  -- A run with a tag outside the scheme, and a dry run, leave GitHub as it is, whatever they find there.
  pub run_writes_nothing :
      (f : FastForward) (s : G.State) → (scheme_ok f && not f.dry_run) ≡ false → (run G f s).1 ≡ s
  unfolding run
  run_writes_nothing f s h =
      if_intro (λ (r : Exit × G.State). r.1 ≡ s) (not (scheme_ok f)) (λ _. refl)
        (λ ok. after_write-dry f s (G.branch_head s) (ground (arith, h, ok)))
