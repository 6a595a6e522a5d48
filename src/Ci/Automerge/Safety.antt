-- ===== src/Ci/Automerge/Safety.antt =====
-- automerge.py: nothing merges by itself unless the checks must pass first.
use frappe_nix.Prelude.{
  String, ◌≡◌, refl, Bool, true, false, List, [], ◌∷◌, any, all, contains, Text, text_eq, codes,
  ◌++◌, string_eq, ◌==◌, arith, Bool-cases, inl, inr, subst, same_text_iff,
}
use frappe_nix.Ci.Verdict.{Verdict, auto, review, relock, close, nix_verdict}
use frappe_nix.Ci.Automerge.{
  Github, required_contexts, gate_contexts, gates_protected, Command, label_review, enable_merge,
  needs_review, enable, apply,
}

abbrev pub is_enable : Command → Bool
is_enable enable_merge = true
is_enable _ = false

-- The verdicts under which a pull request may merge, once its relock is known.
abbrev pub lets_merge : Verdict → String → Bool
lets_merge auto state = true
lets_merge relock state = state == "empty"
lets_merge _ state = false

all_map :
    (contexts gates : List Text)
    → all (contains contexts) (gate_contexts gates) ≡ true
    → (gate : Text) → contains gates gate ≡ true
    → contains contexts (codes "ci / " ++ gate) ≡ true
unfolding gate_contexts
all_map contexts [] h gate m = absurd (ground (arith, m))
all_map contexts (g ∷ gates) h gate m = elim (Bool-cases (g == gate)) [
  | inl same ↦
      subst (λ (t : Text). contains contexts (codes "ci / " ++ t) ≡ true)
        ((same_text_iff g gate).0 same) (ground (arith, h))
  | inr other ↦ all_map contexts gates (ground (arith, h)) gate (ground (arith, m, other))
]

protected :
    (g : Github) (gates : List Text)
    → gates_protected g gates ≡ true
    → (gate : Text) → contains gates gate ≡ true
    → contains (required_contexts g).0 (codes "ci / " ++ gate) ≡ true
unfolding gates_protected
protected g gates h = all_map (required_contexts g).0 gates (ground (arith, h))

enables :
    (g : Github) (gates : List Text) (state : String) (v : Verdict)
    → any is_enable (apply g gates state v).1 ≡ true
    → (lets_merge v state ≡ true) × (gates_protected g gates ≡ true)
unfolding apply enable nix_verdict
enables g gates state auto h = (refl, ground (arith, h))
enables g gates state review h = absurd (ground (arith, h))
enables g gates state close h = absurd (ground (arith, h))
enables g gates state relock h = (ground (arith, h), ground (arith, h))

-- Auto-merge is asked for only on a verdict that lets the pull request merge, and only if the branch
-- requires the context of every enabled gate.
pub apply_enables :
    (g : Github) (gates : List Text) (state : String) (v : Verdict)
    → any is_enable (apply g gates state v).1 ≡ true
    → (lets_merge v state ≡ true)
      × ((gate : Text)
          → contains gates gate ≡ true
          → contains (required_contexts g).0 (codes "ci / " ++ gate) ≡ true)
apply_enables g gates state v h =
    let (lets, safe) = enables g gates state v h in (lets, protected g gates safe)

-- A branch whose protection cannot be read, or that requires not every gate, never gets auto-merge:
-- a pull request that would merge is labelled for a person instead.
pub apply_unprotected :
    (g : Github) (gates : List Text) (state : String) (v : Verdict)
    → gates_protected g gates ≡ false
    → lets_merge v state ≡ true
    → apply g gates state v ≡ (needs_review, label_review ∷ [])
unfolding apply enable nix_verdict
apply_unprotected g gates state auto u l = ground (arith, u)
apply_unprotected g gates state relock u l = ground (arith, u, l)
apply_unprotected g gates state review u l = cc
apply_unprotected g gates state close u l = cc
