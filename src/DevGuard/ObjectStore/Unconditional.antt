-- ===== src/DevGuard/ObjectStore/Unconditional.antt =====
-- objectstore.py over a store without conditional writes, where HeadObject is the only check.
use frappe_nix.Prelude.{
  String, ◌≡◌, ◌≢◌, refl, ◌∙◌, Bool, true, false, ◌&&◌, Option, none, some, contains, string_eq,
  ◌==◌, arith, Bool-cases, inl, inr, ◌⊎◌, eq_iff,
}
use frappe_nix.DevGuard.ObjectStore.{
  Settings, push, mode, Client, guarded, Params, Store, is_read, writes, conditional, creates_key,
  refuse_overwrite, condition, write_checked, vetted, make_api_call,
}
use frappe_nix.DevGuard.ObjectStore.Lawful.{IsLawful}
use frappe_nix.DevGuard.ObjectStore.Additive.{
  Keeps, refuse_overwrite-same, refuse_overwrite-absent, vetted_cases, make_api_call_cases,
  writes_split,
}

-- A call names the object at a bucket's key, or another.
names_object :
    (bucket key : Option String) (b k : String)
    → ((bucket ≡ some b) × (key ≡ some k)) ⊎ ((bucket ≢ some b) ⊎ (key ≢ some k))
names_object none key b k = inr (inl (λ h. cc))
names_object (some c) none b k = inr (inr (λ h. cc))
names_object (some c) (some j) b k = elim (Bool-cases (c == b && j == k)) [
  | inl same ↦ inl (ground (arith, same, eq_iff c b), ground (arith, same, eq_iff j k))
  | inr other ↦ elim (Bool-cases (c == b)) [
    | inl cb ↦ inr (inr (λ h. ground (arith, h, other, cb, eq_iff j k)))
    | inr cb ↦ inr (inl (λ h. ground (arith, h, cb, eq_iff c b)))
  ]
]

commits_create :
    (op : String)
    → contains conditional op ≡ true
    → op ≢ "CompleteMultipartUpload"
    → contains creates_key op ≡ true
commits_create op c n = ground (arith, c, n, eq_iff "CompleteMultipartUpload" op)

module _ (S : Store) (lawful : IsLawful S) (st : Settings)
    (off : st.conditional_writes ≡ false) where
  write_checked-Keeps :
      (op : String) (p : Params S.Body) (s : S.State)
      → contains writes op ≡ true
      → op ≢ "CompleteMultipartUpload"
      → Keeps S s (write_checked S st (λ t. t) op p (refuse_overwrite S st op p s)).1
  write_checked-Keeps op p s w n b k o h =
      go (refuse_overwrite S st op p s) (refuse_overwrite-same S lawful st (λ t. t) op p s b k)
        (refuse_overwrite-absent S lawful st op p s b k)
    where
      plain : condition S st op p ≡ p
      plain = ground (arith, off)

      go :
          (r : Bool × S.State)
          → S.object r.1 b k ≡ S.object s b k
          → (contains creates_key op ≡ true
              → p.bucket ≡ some b
              → p.key ≡ some k
              → st.conditional_writes ≡ false
              → r.0 ≡ true
              → S.object s b k ≡ none)
          → S.object (write_checked S st (λ t. t) op p r).1 b k ≡ some o
      go (false, t) same absent = same ∙ h
      go (true, t) same absent = rw plain (elim (writes_split op w) [
        | inr part ↦ lawful.object-part_write op p t part b k ∙ same ∙ h
        | inl commit ↦ elim (names_object p.bucket p.key b k) [
          | inr other ↦ lawful.object-write_ne op p t commit b k other ∙ same ∙ h
          | inl named ↦
              absurd
                (ground (arith, h, absent (commits_create op commit n) named.0 named.1 off refl))
        ]
      ])

  -- Without conditional writes, and with no other client between the check and the write, a
  -- guarded client's calls remove and change no object, but for CompleteMultipartUpload.
  pub make_api_call_unconditional :
      (client : Client) (op : String) (p : Params S.Body) (s : S.State)
      → guarded st client ≡ true
      → op ≢ "CompleteMultipartUpload"
      → Keeps S s (make_api_call S st (λ t. t) client op p s).1
  make_api_call_unconditional client op p s g n =
      make_api_call_cases S lawful st (λ t. t) (λ r. Keeps S s r.1) client op p s g
        (vetted_cases S lawful st (λ t. t) (λ r. Keeps S s r.1) op p s
          (λ r b k o h. lawful.object-read op p s r b k ∙ h) (λ out b k o h. h)
          (λ w _. write_checked-Keeps op p s w n))

module _ (S : Store) (st : Settings) where
  -- Without conditional writes, push mode sends a CompleteMultipartUpload as it came, with no check
  -- of its key, so it replaces an object wherever the store lets it.
  pub complete_replaces :
      (meanwhile : S.State → S.State) (client : Client) (p : Params S.Body) (s : S.State)
      (b k : String) (o : S.Object)
      → st.conditional_writes ≡ false
      → guarded st client ≡ true
      → mode st ≡ push
      → p.if_match ≡ none
      → S.object (meanwhile s) b k ≡ some o
      → S.object (S.call "CompleteMultipartUpload" p (meanwhile s)).1 b k ≢ some o
      → S.object (make_api_call S st meanwhile client "CompleteMultipartUpload" p s).1 b k ≢ some o
  unfolding make_api_call vetted refuse_overwrite is_read
  complete_replaces meanwhile client p s b k o off g m nm there gone kept =
      gone (ground (arith, off, g, m, nm, kept))
