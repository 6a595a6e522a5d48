-- ===== src/Nar.antt =====
-- py/frappe_nix_tools/frappe_nix_tools/common/nar.py: the NAR serialisation of a tree. The running SHA-256 is the
-- list of the bytes that it was fed; the digest itself is the standard library's.
pub mod Frames
pub mod Tokens
pub mod Injective
mod Tests
use frappe_nix.Prelude.{
  ℕ, zero, suc, ◌+◌, ◌-◌, ◌/◌, ◌%◌, Bool, true, false, Option, none, some, List, [], ◌∷◌, ◌++◌,
  codes, Text, if◌then◌else◌, length, ltb, same_number,
}

abbrev pub Bytes : Type 0
Bytes = List ℕ

-- What `lstat` finds at a path; `other` is a device, a socket or a pipe. A directory has its entries in
-- the order of `listdir`.
mutual
  pub data Node : Type 0 where
    symlink : Bytes → Node
    regular : Bool → Bytes → Node
    directory : Entries → Node
    other : Node

  pub data Entries : Type 0 where
    nil : Entries
    entry : Bytes → Node → Entries → Entries

-- `n.to_bytes(k, "little")`, for an `n` that fits
abbrev pub to_bytes : ℕ → ℕ → Bytes
to_bytes zero n = []
to_bytes (suc k) n = (n % 256) ∷ to_bytes k (n / 256)

abbrev pub zeros : ℕ → Bytes
zeros zero = []
zeros (suc n) = 0 ∷ zeros n

-- `-n % 8`
abbrev pub padding : ℕ → ℕ
padding n = (8 - n % 8) % 8

-- What `_str` feeds the hash.
unfoldable pub frame : Bytes → Bytes
frame data' = to_bytes 8 (length data') ++ (data' ++ zeros (padding (length data')))

-- `_str`
abbrev pub str : Bytes → Bytes → Bytes
str data' h = h ++ frame data'

-- Python's order of `bytes`: whether the first comes before the second.
abbrev pub before : Bytes → Bytes → Bool
before [] [] = false
before [] (b ∷ bs) = true
before (a ∷ as') [] = false
before (a ∷ as') (b ∷ bs) =
    let rest = before as' bs in if ltb a b then true else if same_number a b then rest else false

abbrev pub insert_entry : Bytes → Node → Entries → Entries
insert_entry name node nil = entry name node nil
insert_entry name node (entry n a es) =
    let rest = insert_entry name node es in
    if before n name then entry n a rest else entry name node (entry n a es)

-- The tree as `_dump` visits it: every directory sorted by name.
unfoldable mutual
  pub visited : Node → Node
  visited (directory es) = directory (visited_entries es)
  visited (symlink target) = symlink target
  visited (regular is_executable contents) = regular is_executable contents
  visited other = other

  pub visited_entries : Entries → Entries
  visited_entries nil = nil
  visited_entries (entry name node es) = insert_entry name (visited node) (visited_entries es)

infixl 10 ◌>>=◌
abbrev pub ◌>>=◌ : Option Bytes → (Bytes → Option Bytes) → Option Bytes
none >>= next = none
some h >>= next = next h

abbrev pub str_executable : Bool → Bytes → Bytes
str_executable true h = str [] (str (codes "executable") h)
str_executable false h = h

-- `_dump` on a tree in the order of its visit; `none` is its `ValueError`. The contents of a file are fed
-- in chunks, which together are their `_str`.
unfoldable mutual
  pub dump_node : Node → Bytes → Option Bytes
  dump_node (symlink target) h =
      let opened = str (codes "symlink") (str (codes "type") (str (codes "(") h)) in
      some (str (codes ")") (str target (str (codes "target") opened)))
  dump_node (directory es) h =
      dump_entries es (str (codes "directory") (str (codes "type") (str (codes "(") h))) >>= λ h'.
      some (str (codes ")") h')
  dump_node (regular is_executable contents) h =
      let opened = str (codes "regular") (str (codes "type") (str (codes "(") h)) in
      some (
        str (codes ")")
          (str contents (str (codes "contents") (str_executable is_executable opened))))
  dump_node other h = none

  pub dump_entries : Entries → Bytes → Option Bytes
  dump_entries nil h = some h
  dump_entries (entry name node es) h =
      dump_node node (
        str (codes "node")
          (str name (str (codes "name") (str (codes "(") (str (codes "entry") h)))))
      >>= λ h'. dump_entries es (str (codes ")") h')

-- `nar_hash`, up to the digest: all that the hash is fed.
unfoldable pub serialise : Node → Option Bytes
serialise tree = dump_node (visited tree) (str (codes "nix-archive-1") [])
