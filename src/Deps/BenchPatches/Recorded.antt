-- ===== src/Deps/BenchPatches/Recorded.antt =====
-- bench_patches.py: what the record has after a run, and that the next run changes nothing.
use frappe_nix.Prelude.{
  ℕ, ◌≡◌, refl, sym, ◌∙◌, ap, Bool, true, false, not, ◌&&◌, ◌||◌, Option, none, some, List, [], ◌∷◌,
  ◌++◌, Text, codes, text_eq, number_eq, ◌==◌, contains, contains-append, contains-keep,
  contains_head, contains_all, all, All, keep, length, is_empty, starts_with, split_at, split_cons,
  arith, if_intro, Bool-cases, inl, inr,
}
use frappe_nix.Deps.BenchPatches.{
  is_blank_or_tab, strip_left, strip_right, strip_blanks, entries_of, entries, is_blank, lines_of,
  missing_of, kept_of, write_lines, recorded, record_missing, reconcile,
}

-- A text on one line.
abbrev one_line : Text → Bool
one_line s = all (λ c. not (c == b'\n')) s

abbrev OneLined : List Text → Type 0
OneLined ls = All (λ l. one_line l ≡ true) ls

strip_left_lem : (s : Text) → one_line s ≡ true → one_line (strip_left s) ≡ true
strip_left_lem [] h = refl
strip_left_lem (c ∷ s) h =
    if_intro (λ x. one_line x ≡ true) (is_blank_or_tab c)
      (λ e. strip_left_lem s (ground (arith, h))) (λ e. h)

strip_right_lem : (s : Text) → one_line s ≡ true → one_line (strip_right s) ≡ true
strip_right_lem [] h = refl
strip_right_lem (c ∷ s) h =
    if_intro (λ x. one_line x ≡ true) (is_blank_or_tab c && is_empty (strip_right s)) (λ e. refl)
      (λ e. let rest = strip_right_lem s (ground (arith, h)) in ground (arith, h, rest))

split_cons-OneLined :
    (c : ℕ) (ls : List Text) → (c == b'\n') ≡ false → OneLined ls → OneLined (split_cons c ls)
split_cons-OneLined c [] other h = (ground (arith, other), tt)
split_cons-OneLined c (l ∷ ls) other (h, hs) = (ground (arith, other, h), hs)

split-OneLined : (s : Text) → OneLined (split_at b'\n' s)
split-OneLined [] = (refl, tt)
split-OneLined (c ∷ s) =
    if_intro OneLined (c == b'\n') (λ e. (refl, split-OneLined s))
      (λ e. split_cons-OneLined c (split_at b'\n' s) e (split-OneLined s))

lines_of-OneLined : (f : Option Text) → OneLined (lines_of f)
lines_of-OneLined none = tt
lines_of-OneLined (some t) = split-OneLined t

keep-OneLined : (p : Text → Bool) (ls : List Text) → OneLined ls → OneLined (keep p ls)
keep-OneLined p [] h = tt
keep-OneLined p (l ∷ ls) (h, hs) =
    if_intro OneLined (p l) (λ e. (h, keep-OneLined p ls hs)) (λ e. keep-OneLined p ls hs)

append-OneLined : (ls ms : List Text) → OneLined ls → OneLined ms → OneLined (ls ++ ms)
append-OneLined [] ms h k = k
append-OneLined (l ∷ ls) ms (h, hs) k = (h, append-OneLined ls ms hs k)

entries_of-OneLined : (raws : List Text) → OneLined raws → OneLined (entries_of raws)
entries_of-OneLined [] h = tt
entries_of-OneLined (raw ∷ raws) (h, hs) =
    if_intro OneLined
      (not (is_empty (strip_blanks raw)) && not (starts_with (strip_blanks raw) (codes "#")))
      (λ e. (strip_right_lem (strip_left raw) (strip_left_lem raw h), entries_of-OneLined raws hs))
      (λ e. entries_of-OneLined raws hs)

-- Reading back what was written.
split_line :
    (s t : Text) → one_line s ≡ true → split_at b'\n' (s ++ b'\n' ∷ t) ≡ s ∷ split_at b'\n' t
split_line [] t h = refl
split_line (c ∷ s) t h =
    let other : (c == b'\n') ≡ false = ground (arith, h) in
    rw (other, split_line s t (ground (arith, h))) refl

split-write_lines : (ls : List Text) → OneLined ls → split_at b'\n' (write_lines ls) ≡ ls ++ [] ∷ []
split-write_lines [] h = refl
split-write_lines (l ∷ ls) (h, hs) =
    split_line l (write_lines ls) h ∙ ap (λ x. l ∷ x) (split-write_lines ls hs)

-- No entry of the list is blank, as for the patches that bench ships.
abbrev pub NonBlank : List Text → Type 0
NonBlank ls = All (λ l. is_blank l ≡ false) ls

module _ (wanted : List Text) (existing : Option Text) (one : OneLined wanted)
    (solid : NonBlank wanted) where
  abbrev have : List Text
  have = lines_of existing

  abbrev put : List Text
  put = kept_of have ++ missing_of wanted have

  put_lines : lines_of (some (write_lines put)) ≡ put ++ [] ∷ []
  put_lines = split-write_lines put (
      append-OneLined (kept_of have) (missing_of wanted have)
        (keep-OneLined (λ l. not (is_blank l)) have (lines_of-OneLined existing))
        (keep-OneLined (λ l. not (contains have l)) wanted one))

  put_all :
      (e : Text) → contains wanted e ≡ true → contains (lines_of (some (write_lines put))) e ≡ true
  put_all e is =
      let solid_one : is_blank e ≡ false =
        contains_all (λ l. is_blank l ≡ false) wanted e solid is in
      ap (λ ls. contains ls e) put_lines
      ∙ contains-append put ([] ∷ []) e
      ∙ ap (λ b. b || contains ([] ∷ []) e)
          (contains-append (kept_of have) (missing_of wanted have) e)
      ∙ either (contains have e) (is_blank e) (contains wanted e) (contains ([] ∷ []) e)
          (contains-keep (λ l. not (is_blank l)) have e)
          (contains-keep (λ l. not (contains have l)) wanted e) solid_one is
    where
      either :
          (h b w r : Bool) {k m : Bool}
          → k ≡ (h && not b)
          → m ≡ (w && not h)
          → b ≡ false
          → w ≡ true
          → (k || m || r) ≡ true
      either h b w r {k} {m} ek em eb ew = ground (arith, ek, em, eb, ew)

keep_none :
    (p : Text → Bool) (ls : List Text)
    → ((e : Text) → contains ls e ≡ true → p e ≡ false)
    → keep p ls ≡ []
keep_none p [] h = refl
keep_none p (l ∷ ls) h =
    rw (h l (contains_head ls l))
      (keep_none p ls (λ e k. h e (or_right (l == e) (contains ls e) k)))
  where
    or_right : (a b : Bool) → b ≡ true → (a || b) ≡ true
    or_right a b e = ground (arith, e)

kept_none :
    (p : Text → Bool) (ls : List Text)
    → keep p ls ≡ []
    → (e : Text) → contains ls e ≡ true
    → p e ≡ false
kept_none p ls h e is = elim (Bool-cases (p e)) [
  | inr no' ↦ no'
  | inl yes' ↦
      let there : contains (keep p ls) e ≡ true =
        contains-keep p ls e ∙ both (contains ls e) (p e) is yes' in
      absurd (
        let clash : false ≡ true = sym (ap (λ xs. contains xs e) h) ∙ there in
        ground (arith, clash))
]
  where
    both : (a b : Bool) → a ≡ true → b ≡ true → (a && b) ≡ true
    both a b e f = ground (arith, e, f)

-- Every entry of a list is a line of a record.
abbrev pub Records : List Text → Option Text → Type 0
Records wanted file = (e : Text) → contains wanted e ≡ true → contains (lines_of file) e ≡ true

after-Records :
    (wanted : List Text) (existing : Option Text)
    → OneLined wanted
    → NonBlank wanted
    → (ms : List Text) → missing_of wanted (lines_of existing) ≡ ms
    → Records wanted (record_missing true ms existing).1
after-Records wanted existing one solid [] none_missing e is =
    unnot (kept_none (λ l. not (contains (lines_of existing) l)) wanted none_missing e is)
  where
    unnot : {b : Bool} → not b ≡ false → b ≡ true
    unnot {b} h = ground (arith, h)
after-Records wanted existing one solid (m ∷ ms) is_missing e is =
    rw (← is_missing) (put_all wanted existing one solid e is)

-- If none of the patches that bench ships is blank, each of them is a line of the record after a run that can
-- write, whatever the record was before or if there was none; so the next run finds nothing to do and leaves the record as it is.
pub reconcile-Records :
    (shipped : Text) (existing : Option Text)
    → NonBlank (entries shipped)
    → Records (entries shipped) (reconcile true (some shipped) existing).1
      × (reconcile true (some shipped) (reconcile true (some shipped) existing).1
          ≡ (recorded 0, (reconcile true (some shipped) existing).1))
unfolding reconcile
reconcile-Records shipped existing solid =
    let wanted = entries shipped in
    let one = entries_of-OneLined (split_at b'\n' shipped) (split-OneLined shipped) in
    let after = (record_missing true (missing_of wanted (lines_of existing)) existing).1 in
    let has : Records wanted after =
      after-Records wanted existing one solid (missing_of wanted (lines_of existing)) refl in
    let done : missing_of wanted (lines_of after) ≡ [] =
      keep_none (λ l. not (contains (lines_of after) l)) wanted (λ e is. ap not (has e is)) in
    (has, rw done refl)

-- A record that lacks some of the entries keeps its lines, but for blank ones, in their order, and the entries
-- that it lacks come behind them in theirs; the run says how many these are.
pub reconcile_appends :
    (shipped : Text) (existing : Option Text) (m : Text) (ms : List Text)
    → missing_of (entries shipped) (lines_of existing) ≡ m ∷ ms
    → NonBlank (entries shipped)
    → ((reconcile true (some shipped) existing).0 ≡ recorded (length (m ∷ ms)))
      × (lines_of (reconcile true (some shipped) existing).1
          ≡ (kept_of (lines_of existing) ++ m ∷ ms) ++ [] ∷ [])
unfolding reconcile
reconcile_appends shipped existing m ms lacks solid =
    let one = entries_of-OneLined (split_at b'\n' shipped) (split-OneLined shipped) in
    rw lacks (refl, rw (← lacks) (put_lines (entries shipped) existing one solid))
