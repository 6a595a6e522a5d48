-- ===== src/Scaffold/Blocks/Version.antt =====
-- blocks.py: `init_py` on a file that has the version block.
use frappe_nix.Prelude.{
  ℕ, ◌≡◌, refl, sym, ap, ◌∙◌, Bool, true, false, not, ◌&&◌, Option, none, some, List, [], ◌∷◌, ◌++◌,
  all, keep, length, Text, text_eq, ◌==◌, arith, split_at, strip,
}
use frappe_nix.Scaffold.Blocks.{
  newline, init_begin, init_end, join, Scan, initial, take_version, scan_line, scan,
  drop_last_empty, split_nth, version_block, is_offending, text_or_empty, init_py,
}

append_nil : (xs : List Text) → xs ++ [] ≡ xs
append_nil [] = refl
append_nil (x ∷ xs) = ap (λ rest. x ∷ rest) (append_nil xs)

append_assoc : (xs ys zs : List Text) → (xs ++ ys) ++ zs ≡ xs ++ (ys ++ zs)
append_assoc [] ys zs = refl
append_assoc (x ∷ xs) ys zs = ap (λ rest. x ∷ rest) (append_assoc xs ys zs)

split_nth-append :
    (before after : List Text) → split_nth (length before) (before ++ after) ≡ (before, after)
split_nth-append [] after = refl
split_nth-append (line ∷ before) after = rw (split_nth-append before after) refl

abbrev is_none : Option Text → Bool
is_none none = true
is_none (some t) = false

module _ (version_of : Text → Option Text) where
  -- A line that is neither the start of a block nor a version line.
  abbrev pub is_plain : Text → Bool
  is_plain line = not (strip line == init_begin) && is_none (version_of (strip line))

  take_plain :
      (line : Text) (o : Option Text) (s : Scan)
      → is_none o ≡ true
      → take_version line o s ≡ record s { kept = s.kept ++ line ∷ [] }
  take_plain line none s h = refl
  take_plain line (some v) s h = cc

  scan_plain :
      (plain lines : List Text) (s : Scan)
      → all is_plain plain ≡ true
      → s.inside ≡ false
      → scan version_of (plain ++ lines) s
        ≡ scan version_of lines (record s { kept = s.kept ++ plain })
  unfolding scan
  scan_plain [] lines s h i =
      ap (λ k. scan version_of lines (record s { kept = k })) (sym (append_nil s.kept))
  scan_plain (line ∷ plain) lines s h i =
      ap (scan version_of (plain ++ lines)) one
      ∙ scan_plain plain lines (record s { kept = s.kept ++ line ∷ [] }) (ground (arith, h)) i
      ∙ ap (λ k. scan version_of lines (record s { kept = k }))
          (append_assoc s.kept (line ∷ []) plain)
    where
      one : scan_line version_of line s ≡ record s { kept = s.kept ++ line ∷ [] }
      one = ground (arith, h, i, take_plain line (version_of (strip line)) s)

  -- The lines of a file in block form.
  abbrev pub block_form : List Text → Text → Text → Text → List Text → List Text
  block_form before first line last after = before ++ first ∷ line ∷ last ∷ after

  scan_block :
      (before after : List Text) (first line last : Text) {v : Text}
      → all is_plain before ≡ true
      → all is_plain after ≡ true
      → (strip first == init_begin) ≡ true
      → (strip line == init_begin) ≡ false
      → (strip line == init_end) ≡ false
      → version_of (strip line) ≡ some v
      → (strip last == init_begin) ≡ false
      → (strip last == init_end) ≡ true
      → scan version_of (block_form before first line last after) initial ≡ record {
        version = some v;
        kept = before ++ after;
        at = some (length before);
        inside = false;
      }
  unfolding scan
  scan_block before after first line last {v} hb ha f lb le lv nb ne =
      scan_plain before (first ∷ line ∷ last ∷ after) initial hb refl
      ∙ ap (λ s. scan version_of (line ∷ last ∷ after) s) one
      ∙ ap (λ s. scan version_of (last ∷ after) s) two
      ∙ ap (λ s. scan version_of after s) three
      ∙ ap (λ (l : List Text). scan version_of l s3) (sym (append_nil after))
      ∙ scan_plain after [] s3 ha refl
    where
      s0 : Scan
      s0 = record { version = none; kept = before; at = none; inside = false }

      s1 : Scan
      s1 = record { version = none; kept = before; at = some (length before); inside = true }

      s2 : Scan
      s2 = record { version = some v; kept = before; at = some (length before); inside = true }

      s3 : Scan
      s3 = record s2 { inside = false }

      one : scan_line version_of first s0 ≡ s1
      one = rw f refl

      two : scan_line version_of line s1 ≡ s2
      two = rw (lb, le, lv) refl

      three : scan_line version_of last s2 ≡ s3
      three = rw (nb, ne) refl

  -- A file in block form keeps it: the version stays, the lines before the block stay before it and those
  -- behind it behind it, and only they are looked at for what breaks the rule.
  pub init_py_stable :
      (current : Option Text) (default : Text) (before after : List Text) (first line last : Text)
      (c : ℕ) (v : Text)
      → drop_last_empty (split_at newline (text_or_empty current))
        ≡ block_form before first line last after
      → all is_plain before ≡ true
      → all is_plain after ≡ true
      → (strip first == init_begin) ≡ true
      → (strip line == init_begin) ≡ false
      → (strip line == init_end) ≡ false
      → version_of (strip line) ≡ some (c ∷ v)
      → (strip last == init_begin) ≡ false
      → (strip last == init_end) ≡ true
      → init_py version_of current default ≡ (
        join (before ++ version_block (c ∷ v) ++ after) ++ newline ∷ [],
        keep is_offending (before ++ after),
      )
  unfolding init_py
  init_py_stable current default before after first line last c v e hb ha f lb le lv nb ne = rw e (
      rw (scan_block before after first line last hb ha f lb le lv nb ne)
        (rw (split_nth-append before after) refl))
