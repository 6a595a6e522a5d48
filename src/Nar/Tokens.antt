-- ===== src/Nar/Tokens.antt =====
-- nar.py: the frames that `_dump` feeds the hash, as a list.
use frappe_nix.Prelude.{
  ◌≡◌, refl, sym, ◌∙◌, Bool, true, false, ◌&&◌, Option, none, some, List, [], ◌∷◌, codes,
  if◌then◌else◌,
}
use frappe_nix.Nar.{
  Bytes, Node, Entries, symlink, regular, directory, other, nil, entry, str, ◌>>=◌, dump_node,
  dump_entries,
}
use frappe_nix.Nar.Frames.{feed}

unfoldable mutual
  pub is_dumpable : Node → Bool
  is_dumpable other = false
  is_dumpable (directory es) = are_dumpable es
  is_dumpable (symlink target) = true
  is_dumpable (regular x contents) = true

  pub are_dumpable : Entries → Bool
  are_dumpable nil = true
  are_dumpable (entry name node es) = is_dumpable node && are_dumpable es

abbrev pub executable_tokens : Bool → List Bytes → List Bytes
executable_tokens true k = codes "executable" ∷ [] ∷ k
executable_tokens false k = k

-- The frames of a node, in front of those of the list.
unfoldable mutual
  pub tokens : Node → List Bytes → List Bytes
  tokens (symlink target) k =
      codes "(" ∷ codes "type" ∷ codes "symlink" ∷ codes "target" ∷ target ∷ codes ")" ∷ k
  tokens (regular x contents) k =
      codes "("
      ∷ codes "type"
      ∷ codes "regular"
      ∷ executable_tokens x (codes "contents" ∷ contents ∷ codes ")" ∷ k)
  tokens (directory es) k =
      codes "(" ∷ codes "type" ∷ codes "directory" ∷ entry_tokens es (codes ")" ∷ k)
  tokens other k = k

  pub entry_tokens : Entries → List Bytes → List Bytes
  entry_tokens nil k = k
  entry_tokens (entry name node es) k =
      codes "entry"
      ∷ codes "("
      ∷ codes "name"
      ∷ name
      ∷ codes "node"
      ∷ tokens node (codes ")" ∷ entry_tokens es k)

-- What is fed after a dump that may have failed.
abbrev pub then_feed : List Bytes → Option Bytes → Option Bytes
then_feed k none = none
then_feed k (some h) = some (feed k h)

abbrev fed_if : Bool → Bytes → Option Bytes
fed_if b h = if b then some h else none

join :
    (k : List Bytes) (o : Option Bytes)
    → then_feed k (o >>= λ h. some (str (codes ")") h)) ≡ then_feed (codes ")" ∷ k) o
join k none = refl
join k (some h) = refl

chain :
    (k rest : List Bytes) (a b : Bool) (next : Bytes → Option Bytes) (x : Bytes) (o : Option Bytes)
    → ((h : Bytes) → then_feed k (next h) ≡ fed_if b (feed rest h))
    → then_feed rest o ≡ fed_if a x
    → then_feed k (o >>= next) ≡ fed_if (a && b) x
chain k rest true b next x none n e = cc
chain k rest false b next x none n e = refl
chain k rest false b next x (some h) n e = cc
chain k rest true true next x (some h) n e = rw (n h) e
chain k rest true false next x (some h) n e = n h

mutual
  unfolding dump_node tokens is_dumpable

  dump_lem :
      (node : Node) (k : List Bytes) (h : Bytes)
      → then_feed k (dump_node node h) ≡ fed_if (is_dumpable node) (feed (tokens node k) h)
  dump_lem (symlink target) k h = refl
  dump_lem (regular true contents) k h = refl
  dump_lem (regular false contents) k h = refl
  dump_lem other k h = refl
  dump_lem (directory es) k h =
      join k (dump_entries es (str (codes "directory") (str (codes "type") (str (codes "(") h))))
      ∙ dump_entries_lem es (codes ")" ∷ k)
          (str (codes "directory") (str (codes "type") (str (codes "(") h)))

  dump_entries_lem :
      (es : Entries) (k : List Bytes) (h : Bytes)
      → then_feed k (dump_entries es h) ≡ fed_if (are_dumpable es) (feed (entry_tokens es k) h)
  dump_entries_lem nil k h = refl
  dump_entries_lem (entry name node es) k h =
      let h' =
        str (codes "node")
          (str name (str (codes "name") (str (codes "(") (str (codes "entry") h)))) in
      chain k (codes ")" ∷ entry_tokens es k) (is_dumpable node) (are_dumpable es)
        (λ x. dump_entries es (str (codes ")") x))
        (feed (tokens node (codes ")" ∷ entry_tokens es k)) h') (dump_node node h')
        (λ x. dump_entries_lem es k (str (codes ")") x))
        (dump_lem node (codes ")" ∷ entry_tokens es k) h')

then_feed_nil : (o : Option Bytes) → then_feed [] o ≡ o
then_feed_nil none = refl
then_feed_nil (some h) = refl

-- A dump that succeeds fed exactly the frames of the node.
pub dump_node-feed :
    (node : Node) (h out : Bytes)
    → dump_node node h ≡ some out
    → (is_dumpable node ≡ true) × (out ≡ feed (tokens node []) h)
dump_node-feed node h out e =
    split (is_dumpable node) (sym e ∙ sym (then_feed_nil (dump_node node h)) ∙ dump_lem node [] h)
  where
    split :
        (b : Bool)
        → some out ≡ fed_if b (feed (tokens node []) h)
        → (b ≡ true) × (out ≡ feed (tokens node []) h)
    split true p = (refl, cc)
    split false p = cc
