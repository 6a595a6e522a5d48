-- ===== src/DevGuard/ObjectStore/Memory.antt =====
-- A store in memory that meets what the guard relies on: versions by bucket and key.
use frappe_nix.Prelude.{
  ℕ, String, ◌≡◌, ◌≢◌, refl, ap, Bool, true, false, ◌&&◌, Option, none, some, contains, number_eq,
  string_eq, ◌==◌, if◌then◌else◌, arith, Bool-cases, inl, inr, ◌⊎◌, eq_iff, contains_all,
}
use frappe_nix.DevGuard.ObjectStore.{
  Params, Answer, reply, failure, Failure, Store, is_read, conditional, has,
}
use frappe_nix.DevGuard.ObjectStore.Lawful.{IsLawful, part_writes}

abbrev pub Versions : Type 0
Versions = String → String → Option ℕ

abbrev refusal : String → Answer ℕ
refusal c = failure (record { response = some (some c) })

abbrev set_version : String → String → ℕ → Versions → Versions
set_version b k v s c j = if b == c && k == j then some v else s c j

-- The version that a write commits: its body, or 0.
abbrev body_of : Option ℕ → ℕ
body_of none = 0
body_of (some v) = v

abbrev is_star : Option String → Bool
is_star none = false
is_star (some c) = c == "*"

abbrev write_at : Params ℕ → Versions → Option String → Option String → Answer ℕ × Versions
write_at p s (some b) (some k) =
    if is_star p.if_none_match && has (s b k)
    then (refusal "412", s)
    else (reply 200, set_version b k (body_of p.body) s)
write_at p s _ _ = (refusal "400", s)

abbrev head_at : Params ℕ → Versions → Option String → Option String → Answer ℕ
head_at p s (some b) (some k) = elim (s b k) [ none ↦ refusal "404" | some v ↦ reply v ]
head_at p s _ _ = refusal "400"

unfoldable pub memory_call : String → Params ℕ → Versions → Answer ℕ × Versions
memory_call op p s =
    if contains conditional op
    then write_at p s p.bucket p.key
    else if op == "HeadObject"
    then (head_at p s p.bucket p.key, s)
    else (reply 200, s)

abbrev pub memory : Store
memory = record {
  State = Versions;
  Body = ℕ;
  Reply = ℕ;
  Object = ℕ;
  call = memory_call;
  object = λ s b k. s b k;
}

read_not_conditional : (op : String) → is_read op ≡ true → contains conditional op ≡ false
unfolding is_read
read_not_conditional op r = elim (Bool-cases (contains conditional op)) [
  | inr c ↦ c
  | inl c ↦
      cc (r, contains_all (λ o. is_read o ≡ false) conditional op (refl, (refl, (refl, tt))) c)
]

part_not_conditional :
    (op : String) → contains part_writes op ≡ true → contains conditional op ≡ false
part_not_conditional op r =
    contains_all (λ o. contains conditional o ≡ false) part_writes op
      (refl, (refl, (refl, (refl, tt)))) r

write_at_ne :
    (p : Params ℕ) (s : Versions) (bucket key : Option String) (b k : String)
    → (bucket ≢ some b) ⊎ (key ≢ some k)
    → (write_at p s bucket key).1 b k ≡ s b k
write_at_ne p s none key b k h = refl
write_at_ne p s (some c) none b k h = refl
write_at_ne p s (some c) (some j) b k (inl h) =
    ground (arith, eq_iff c b, λ (e : c ≡ b). h (ap some e))
write_at_ne p s (some c) (some j) b k (inr h) =
    ground (arith, eq_iff j k, λ (e : j ≡ k). h (ap some e))

write_at_star :
    (p : Params ℕ) (s : Versions) (bucket key : Option String) (b k : String) (o : ℕ)
    → p.if_none_match ≡ some "*"
    → s b k ≡ some o
    → (write_at p s bucket key).1 b k ≡ some o
write_at_star p s none key b k o i h = h
write_at_star p s (some c) none b k o i h = h
write_at_star p s (some c) (some j) b k o i h = ground (arith, i, h, eq_iff c b, eq_iff j k)

head_at_absent :
    (p : Params ℕ) (s : Versions) (b k : String) (bucket key : Option String) (e : Failure)
    → bucket ≡ some b
    → key ≡ some k
    → head_at p s bucket key ≡ failure e
    → s b k ≡ none
head_at_absent p s b k none key e hb hk h = cc
head_at_absent p s b k (some c) none e hb hk h = cc
head_at_absent p s b k (some c) (some j) e hb hk h = cc (missing (s c j) h)
  where
    missing :
        (o : Option ℕ)
        → (let a : Answer ℕ = elim o [ none ↦ refusal "404" | some v ↦ reply v ] in a) ≡ failure e
        → o ≡ none
    missing none r = refl
    missing (some v) r = cc

pub memory-IsLawful : IsLawful memory
unfolding memory_call
memory-IsLawful = record {
  object-read = λ op p s r b k. ground (arith, read_not_conditional op r);
  head_absent = λ p s b k e hb hk h a. head_at_absent p s b k p.bucket p.key e hb hk h;
  object-part_write = λ op p s r b k. ground (arith, part_not_conditional op r);
  object-write_ne = λ op p s c b k h. rw c (write_at_ne p s p.bucket p.key b k h);
  object-write_conditional =
      λ op p s c i b k o h. rw c (write_at_star p s p.bucket p.key b k o i h);
}
