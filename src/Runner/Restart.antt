-- ===== src/Runner/Restart.antt =====
-- `RestartWatch` of runner.py: when the process restarts by itself.
use frappe_nix.Prelude.{
  ◌⊎◌, ℕ, ◌-◌, ◌≡◌, Bool, true, false, not, ◌&&◌, ◌||◌, List, [], ◌∷◌, leb, if◌then◌else◌, arith,
  Bool-cases, inl, inr, subst, all, ◌++◌,
}
use frappe_nix.Runner.Config.{Config, is_set}
use frappe_nix.Runner.Traffic.{Counts}

-- What one round of the watch reads, in this order, while requests, jobs and signals go on: whether the wait met
-- a drain, the work in progress, the counts for the limits, the counts for the idle time, and the last
-- request and the time.
pub record Look : Type 0 where
  pub draining : Bool
  pub in_flight : ℕ
  pub at_limit : Counts
  pub at_idle : Counts
  pub last_web_request : ℕ
  pub now : ℕ

unfoldable pub idle_seconds : Look → ℕ
idle_seconds l = l.now - l.last_web_request

unfoldable pub is_limit_reached : Config → Counts → Bool
is_limit_reached c counts =
    is_set c.restart_after_requests && leb c.restart_after_requests counts.web
    || is_set c.restart_after_jobs && leb c.restart_after_jobs counts.jobs

-- `any(counts.values())`
abbrev pub has_worked : Counts → Bool
has_worked n = is_set n.web || is_set n.realtime || is_set n.jobs

unfoldable pub is_idle : Config → Look → Bool
unfolding idle_seconds
is_idle c l =
    is_set c.restart_idle_seconds
    && has_worked l.at_idle
    && leb c.restart_idle_seconds (idle_seconds l)

-- The end of `_watch`: it sent SIGHUP after a round, by when a drain may have begun; the drain ended it; or it
-- still watches.
pub data Watched : Type 0 where
  sent_hup : Look → Watched
  drained watching : Watched

unfoldable pub watch : Config → List Look → Watched
watch c [] = watching
watch c (l ∷ ls) =
    let rest = watch c ls in
    if l.draining
    then drained
    else if is_set l.in_flight
    then rest
    else if is_limit_reached c l.at_limit || is_idle c l
    then sent_hup l
    else rest

-- The looks that would restart the process.
abbrev pub restarts_at : Config → Look → Bool
restarts_at c l = not (is_set l.in_flight) && (is_limit_reached c l.at_limit || is_idle c l)

-- Why a round restarts the process: after the reading of no work in progress, the counts that were read reach
-- a limit that is set, or there was work and the idle time that is set is over.
abbrev pub Reason : Config → Look → Type 0
Reason c l =
    (is_set c.restart_after_requests ≡ true × leb c.restart_after_requests l.at_limit.web ≡ true)
    ⊎ (is_set c.restart_after_jobs ≡ true × leb c.restart_after_jobs l.at_limit.jobs ≡ true)
    ⊎ (is_set c.restart_idle_seconds ≡ true
        × has_worked l.at_idle ≡ true
        × leb c.restart_idle_seconds (l.now - l.last_web_request) ≡ true)

Reason-intro :
    (c : Config) (l : Look) → (is_limit_reached c l.at_limit || is_idle c l) ≡ true → Reason c l
unfolding is_limit_reached is_idle idle_seconds
Reason-intro c l h =
    elim (Bool-cases
      (is_set c.restart_after_requests && leb c.restart_after_requests l.at_limit.web)) [
        | inl web ↦ inl (ground (arith, web), ground (arith, web))
        | inr no_web ↦
            elim (Bool-cases
              (is_set c.restart_after_jobs && leb c.restart_after_jobs l.at_limit.jobs)) [
                | inl jobs ↦ inr (inl (ground (arith, jobs), ground (arith, jobs)))
                | inr no_jobs ↦ inr (
                    inr (
                      ground (arith, h, no_web, no_jobs),
                      ground (arith, h, no_web, no_jobs),
                      ground (arith, h, no_web, no_jobs),
                    ))
              ]
      ]

-- The watch sends SIGHUP only after a round whose wait met no drain, which then read no request and no job in
-- progress, and which then read a reason: a set limit that the counts reach, or, after some work, a set idle
-- time that is over. A drain may begin after the wait, and the signal comes then during it.
pub watch_safe :
    (c : Config) (ls : List Look) {l : Look}
    → watch c ls ≡ sent_hup l
    → (l.draining ≡ false) × (l.in_flight ≡ 0) × Reason c l
unfolding watch
watch_safe c [] h = cc
watch_safe c (m ∷ ls) {l} h = elim (Bool-cases m.draining) [
  | inl d ↦ absurd (ground (arith, d, h))
  | inr d ↦ elim (Bool-cases (restarts_at c m)) [
    | inr r ↦ watch_safe c ls {l = l} (ground (arith, d, r, h))
    | inl r ↦
        let e : m ≡ l = ground (arith, d, r, h) in
        subst (λ (x : Look). (x.draining ≡ false) × (x.in_flight ≡ 0) × Reason c x) e
          (d, ground (arith, r), Reason-intro c m (ground (arith, r)))
  ]
]

-- A round that reads a reason to restart, with no drain up to it, is not missed.
pub watch_due :
    (c : Config) (before after : List Look) (l : Look)
    → all (λ m. not m.draining) before ≡ true
    → l.draining ≡ false
    → restarts_at c l ≡ true
    → (m : Look) × (watch c (before ++ l ∷ after) ≡ sent_hup m)
unfolding watch
watch_due c [] after l b d r = (l, ground (arith, d, r))
watch_due c (k ∷ before) after l b d r = elim (Bool-cases (restarts_at c k)) [
  | inl due ↦ (k, ground (arith, b, due))
  | inr not_due ↦
      let (m, found) = watch_due c before after l (ground (arith, b)) d r in
      (m, ground (arith, b, not_due, found))
]
