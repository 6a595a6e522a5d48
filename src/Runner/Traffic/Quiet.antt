-- ===== src/Runner/Traffic/Quiet.antt =====
-- runner.py: the calls that `TrafficMiddleware` does not count.
use frappe_nix.Prelude.{
  ℕ, zero, suc, ◌≡◌, refl, Bool, true, false, List, [], ◌∷◌, all, ◌∙◌, string_eq, arith,
}
use frappe_nix.Runner.Traffic.{
  Traffic, Work, lifespan_call, realtime_call, health_check, web_request, job, begin, finish, End,
  Process, Event, begins, finishes, finish_nth, drop_nth, step, steps,
}

-- Work that no user waits for.
abbrev pub is_quiet : Work → Bool
is_quiet lifespan_call = true
is_quiet health_check = true
is_quiet _ = false

abbrev pub begins_quiet : Event → Bool
begins_quiet (begins w) = is_quiet w
begins_quiet (finishes n e) = true

finish-quiet : (w : Work) (e : End) (t : Traffic) → is_quiet w ≡ true → finish w e t ≡ t
unfolding finish
finish-quiet lifespan_call e t h = refl
finish-quiet health_check e t h = refl
finish-quiet realtime_call e t h = cc
finish-quiet web_request e t h = cc
finish-quiet job e t h = cc

begin-quiet : (w : Work) (t : Traffic) → is_quiet w ≡ true → begin w t ≡ t
unfolding begin
begin-quiet lifespan_call t h = refl
begin-quiet health_check t h = refl
begin-quiet realtime_call t h = cc
begin-quiet web_request t h = cc
begin-quiet job t h = cc

finish_nth-quiet :
    (n : ℕ) (e : End) (t : Traffic) (ws : List Work)
    → all is_quiet ws ≡ true
    → finish_nth n e t ws ≡ t
finish_nth-quiet n e t [] h = refl
finish_nth-quiet zero e t (w ∷ ws) h = finish-quiet w e t (ground (arith, h))
finish_nth-quiet (suc n) e t (w ∷ ws) h = finish_nth-quiet n e t ws (ground (arith, h))

drop_nth-quiet :
    (n : ℕ) (ws : List Work) → all is_quiet ws ≡ true → all is_quiet (drop_nth n ws) ≡ true
drop_nth-quiet n [] h = refl
drop_nth-quiet zero (w ∷ ws) h = ground (arith, h)
drop_nth-quiet (suc n) (w ∷ ws) h = ground (arith, h, drop_nth-quiet n ws)

-- Health checks and lifespan calls, in any number and order and however they end, leave the counts,
-- the work in flight and the time of the last web request as they were.
pub steps_quiet :
    (es : List Event) (p : Process)
    → all is_quiet p.active ≡ true
    → all begins_quiet es ≡ true
    → (steps es p).traffic ≡ p.traffic
unfolding steps step
steps_quiet [] p a h = refl
steps_quiet (begins w ∷ es) p a h =
    steps_quiet es (step (begins w) p) (ground (arith, a, h)) (ground (arith, h))
    ∙ begin-quiet w p.traffic (ground (arith, h))
steps_quiet (finishes n e ∷ es) p a h =
    steps_quiet es (step (finishes n e) p) (drop_nth-quiet n p.active a) (ground (arith, h))
    ∙ finish_nth-quiet n e p.traffic p.active a
