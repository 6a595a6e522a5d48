-- ===== src/Nar/Injective.antt =====
-- nar.py: a serialisation stands for one tree.
use frappe_nix.Prelude.{
  ℕ, ◌≡◌, refl, sym, ap, ◌∙◌, Bool, true, false, some, List, [], ◌∷◌, codes, All, arith,
}
use frappe_nix.Nar.{
  Bytes, Node, Entries, symlink, regular, directory, other, nil, entry, str, visited, serialise,
}
use frappe_nix.Nar.Frames.{Fits, feed_injective}
use frappe_nix.Nar.Tokens.{
  is_dumpable, are_dumpable, executable_tokens, tokens, entry_tokens, dump_node-feed,
}

-- The first letter of the third token, which tells the kinds of nodes apart.
abbrev kind_letter : List Bytes → ℕ
kind_letter (a ∷ b ∷ (c ∷ word) ∷ k) = c
kind_letter k = 0

same_contents :
    (x y : Bool) (c d : Bytes) (k l : List Bytes)
    → executable_tokens x (codes "contents" ∷ c ∷ codes ")" ∷ k)
      ≡ executable_tokens y (codes "contents" ∷ d ∷ codes ")" ∷ l)
    → (x ≡ y) × (c ≡ d) × (k ≡ l)
same_contents true true c d k l e = (refl, cc, cc)
same_contents false false c d k l e = (refl, cc, cc)
same_contents true false c d k l e = cc
same_contents false true c d k l e = cc

mutual
  unfolding tokens is_dumpable

  tokens_injective :
      (a b : Node) (k l : List Bytes)
      → is_dumpable a ≡ true
      → is_dumpable b ≡ true
      → tokens a k ≡ tokens b l
      → (a ≡ b) × (k ≡ l)
  tokens_injective other b k l p q e = cc
  tokens_injective (symlink s) other k l p q e = cc
  tokens_injective (regular x s) other k l p q e = cc
  tokens_injective (directory es) other k l p q e = cc
  tokens_injective (symlink s) (symlink t) k l p q e = (cc, cc)
  tokens_injective (symlink s) (regular y t) k l p q e = absurd (omega (arith, ap kind_letter e))
  tokens_injective (symlink s) (directory fs) k l p q e = absurd (omega (arith, ap kind_letter e))
  tokens_injective (regular x s) (symlink t) k l p q e = absurd (omega (arith, ap kind_letter e))
  tokens_injective (regular x s) (directory fs) k l p q e = absurd (omega (arith, ap kind_letter e))
  tokens_injective (directory es) (symlink t) k l p q e = absurd (omega (arith, ap kind_letter e))
  tokens_injective (directory es) (regular y t) k l p q e = absurd (omega (arith, ap kind_letter e))
  tokens_injective (regular x s) (regular y t) k l p q e =
      let (ex, es, ek) = same_contents x y s t k l (cc) in (cc, ek)
  tokens_injective (directory es) (directory fs) k l p q e =
      let (ee, ek) = entries_injective es fs k l p q (cc) in (cc, ek)

  entries_injective :
      (es fs : Entries) (k l : List Bytes)
      → are_dumpable es ≡ true
      → are_dumpable fs ≡ true
      → entry_tokens es (codes ")" ∷ k) ≡ entry_tokens fs (codes ")" ∷ l)
      → (es ≡ fs) × (k ≡ l)
  entries_injective nil nil k l p q e = (refl, cc)
  entries_injective nil (entry m b fs) k l p q e = cc
  entries_injective (entry n a es) nil k l p q e = cc
  entries_injective (entry n a es) (entry m b fs) k l p q e =
      let (ab, rest) =
        tokens_injective a b (codes ")" ∷ entry_tokens es (codes ")" ∷ k))
          (codes ")" ∷ entry_tokens fs (codes ")" ∷ l)) (ground (arith, p)) (ground (arith, q))
          (cc) in
      let (ef, ek) = entries_injective es fs k l (ground (arith, p)) (ground (arith, q)) (cc) in
      let nm : n ≡ m = cc in (cc, ek)

-- No name, target or file of the tree has 2^64 bytes or more.
abbrev pub TreeFits : Node → Type 0
TreeFits tree = All Fits (tokens (visited tree) [])

-- Two trees of one serialisation, none of whose names, targets and files has 2^64 bytes or more, are one tree,
-- up to the order in which their directories are listed: the same names, files, executable bits and link
-- targets.
pub serialise_injective :
    (a b : Node) (out : Bytes)
    → serialise a ≡ some out
    → serialise b ≡ some out
    → TreeFits a
    → TreeFits b
    → visited a ≡ visited b
unfolding serialise
serialise_injective a b out ea eb fa fb =
    let header = str (codes "nix-archive-1") [] in
    let (da, oa) = dump_node-feed (visited a) header out ea in
    let (db, ob) = dump_node-feed (visited b) header out eb in
    let ts =
      feed_injective (tokens (visited a) []) (tokens (visited b) []) header fa fb (sym oa ∙ ob) in
    (tokens_injective (visited a) (visited b) [] [] da db ts).0
