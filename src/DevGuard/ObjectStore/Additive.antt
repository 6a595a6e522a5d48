-- ===== src/DevGuard/ObjectStore/Additive.antt =====
-- objectstore.py: what is in the store stays in the store.
use frappe_nix.Prelude.{
  String, ◌≡◌, refl, ◌∙◌, Bool, true, false, not, ◌&&◌, none, some, contains, string_eq, arith, inl,
  inr, ◌⊎◌, if_intro,
}
use frappe_nix.DevGuard.ObjectStore.{
  Settings, local, mode, is_push, Client, guarded, Params, Answer, reply, failure, Outcome, Store,
  is_read, deletes, writes, conditional, creates_key, refuse_overwrite, may_write, probe, send,
  condition, write_checked, vetted, make_api_call, truthy,
}
use frappe_nix.DevGuard.ObjectStore.Lawful.{IsLawful, part_writes}

-- Every object of `s` is in `t`, unchanged.
abbrev pub Keeps : (S : Store) → S.State → S.State → Type 0
Keeps S s t = (b k : String) (o : S.Object) → S.object s b k ≡ some o → S.object t b k ≡ some o

-- `s` and `t` have the same objects.
abbrev pub SameObjects : (S : Store) → S.State → S.State → Type 0
SameObjects S s t = (b k : String) → S.object t b k ≡ S.object s b k

pub writes_split :
    (op : String)
    → contains writes op ≡ true
    → (contains conditional op ≡ true) ⊎ (contains part_writes op ≡ true)
writes_split op h = ground (arith, h)

is_read-head : is_read "HeadObject" ≡ true
unfolding is_read
is_read-head = refl

module _ (S : Store) (lawful : IsLawful S) (st : Settings) (meanwhile : S.State → S.State) where
  -- HeadObject changes no object.
  pub refuse_overwrite-same :
      (op : String) (p : Params S.Body) (s : S.State)
      → SameObjects S s (refuse_overwrite S st op p s).1
  unfolding refuse_overwrite
  refuse_overwrite-same op p s b k =
      ground (arith, lawful.object-read "HeadObject" (probe S st p) s is_read-head b k)

  send_conditional-Keeps :
      (op : String) (p : Params S.Body) (s : S.State)
      → contains writes op ≡ true
      → st.conditional_writes ≡ true
      → Keeps S s (send S st op (condition S st op p) s).1
  send_conditional-Keeps op p s w c b k o h = elim (writes_split op w) [
    | inl commit ↦ ground (
      arith,
      commit,
      c,
      h,
      lawful.object-write_conditional op (record p { if_none_match = some "*" }) s commit refl b k
          o,
    )
    | inr part ↦ lawful.object-part_write op (condition S st op p) s part b k ∙ h
  ]

  write_checked-Keeps :
      (op : String) (p : Params S.Body) (s : S.State) (r : Bool × S.State)
      → contains writes op ≡ true
      → st.conditional_writes ≡ true
      → ((t : S.State) → Keeps S t (meanwhile t))
      → SameObjects S s r.1
      → Keeps S s (write_checked S st meanwhile op p r).1
  write_checked-Keeps op p s (false, t) w c others same b k o h = same b k ∙ h
  write_checked-Keeps op p s (true, t) w c others same b k o h =
      send_conditional-Keeps op p (meanwhile t) w c b k o (others t b k o (same b k ∙ h))

  -- A property of what `vetted` gives, from its branches.
  pub vetted_cases :
      (P : Outcome S.Reply × S.State → Type 0) (op : String) (p : Params S.Body) (s : S.State)
      → (is_read op ≡ true → P (send S st op p s))
      → ((out : Outcome S.Reply) → P (out, s))
      → (contains writes op ≡ true
          → is_push (mode st) ≡ true
          → P (write_checked S st meanwhile op p (refuse_overwrite S st op p s)))
      → P (vetted S st meanwhile op p s)
  unfolding vetted
  vetted_cases P op p s read rest write = if_intro P (is_read op) read λ _.
      if_intro P (contains deletes op) (λ _. rest _)
        λ _.
          if_intro P (contains writes op && is_push (mode st))
            (λ w.
              if_intro P (truthy p.if_match) (λ _. rest _)
                (λ _. write (ground (arith, w)) (ground (arith, w))))
            (λ _. rest _)

  -- The same for a call under the guard.
  pub make_api_call_cases :
      (P : Outcome S.Reply × S.State → Type 0) (client : Client) (op : String) (p : Params S.Body)
      (s : S.State)
      → guarded st client ≡ true
      → P (vetted S st meanwhile op p s)
      → P (make_api_call S st meanwhile client op p s)
  unfolding make_api_call
  make_api_call_cases P client op p s g h =
      if_intro P (not (guarded st client)) (λ n. absurd (ground (arith, g, n))) (λ _. h)

  -- On a guarded client of a store with conditional writes, no call whatever removes or changes an
  -- object, also when other clients add objects between the check and the write.
  pub make_api_call-Keeps :
      (client : Client) (op : String) (p : Params S.Body) (s : S.State)
      → guarded st client ≡ true
      → st.conditional_writes ≡ true
      → ((t : S.State) → Keeps S t (meanwhile t))
      → Keeps S s (make_api_call S st meanwhile client op p s).1
  make_api_call-Keeps client op p s g c others =
      make_api_call_cases (λ r. Keeps S s r.1) client op p s g
        (vetted_cases (λ r. Keeps S s r.1) op p s (λ r b k o h. lawful.object-read op p s r b k ∙ h)
          (λ out b k o h. h)
          (λ w _. write_checked-Keeps op p s _ w c others (refuse_overwrite-same op p s)))

  -- In local mode, a guarded client leaves every object of the store as it is, and adds none.
  pub make_api_call_local :
      (client : Client) (op : String) (p : Params S.Body) (s : S.State)
      → guarded st client ≡ true
      → mode st ≡ local
      → SameObjects S s (make_api_call S st meanwhile client op p s).1
  make_api_call_local client op p s g l =
      make_api_call_cases (λ r. SameObjects S s r.1) client op p s g
        (vetted_cases (λ r. SameObjects S s r.1) op p s (λ r. lawful.object-read op p s r)
          (λ out b k. refl) (λ _ m. absurd (ground (arith, l, m))))

module _ (S : Store) (lawful : IsLawful S) (st : Settings) where
  -- A check that lets a write to a key pass has found that the key has no object, unless the
  -- store's own condition stands behind it.
  pub refuse_overwrite-absent :
      (op : String) (p : Params S.Body) (s : S.State) (b k : String)
      → contains creates_key op ≡ true
      → p.bucket ≡ some b
      → p.key ≡ some k
      → st.conditional_writes ≡ false
      → (refuse_overwrite S st op p s).0 ≡ true
      → S.object s b k ≡ none
  unfolding refuse_overwrite
  refuse_overwrite-absent op p s b k c hb hk off passed =
      go (S.call "HeadObject" (probe S st p) s).0 refl (ground (arith, c, hk, off, passed))
    where
      go :
          (a : Answer S.Reply)
          → (S.call "HeadObject" (probe S st p) s).0 ≡ a
          → may_write S st a ≡ true
          → S.object s b k ≡ none
      go (reply r) e m = cc
      go (failure x) e m =
          lawful.head_absent (probe S st p) s b k x hb hk e (ground (arith, m, off))
