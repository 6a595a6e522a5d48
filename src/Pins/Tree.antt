-- ===== src/Pins/Tree.antt =====
-- `pin_path` of pins.py: the tree that it answers with. A `Disk` is what stands at the store path and at the
-- pins directory's entry; how a tree is fetched, copied and hashed is given.
use frappe_nix.Prelude.{
  ◌⊎◌, inl, inr, ◌≡◌, refl, Bool, true, false, not, ◌&&◌, ◌||◌, Option, none, some, [], ◌∷◌, Text,
  text_eq, ◌==◌, codes, starts_with, ◌++◌, length, keep, split_at, is_empty, number_eq,
  if◌then◌else◌, arith, if_intro,
}

-- What stands at a path: for the store's path with links followed, as `is_dir` does.
pub data Entry (Tree : Type 0) : Type 0 where
  absent symlink file : Entry Tree
  directory : Tree → Entry Tree

pub record Disk (Tree : Type 0) : Type 0 where
  pub in_store : Entry Tree
  pub dest : Entry Tree

pub record Pin : Type 0 where
  pub name : Text
  pub rev : Text
  pub nar_hash : Text

-- The path that is answered, `ConfigError`, or `EnvError` and the errors of the file system.
pub data Answer : Type 0 where
  at_store at_dest config_error env_error : Answer

-- How the removal of the destination and the rename to it go: both are done, or an error of the file system
-- ends one of them and leaves an entry at the destination.
pub data Replacing (Tree : Type 0) : Type 0 where
  done : Replacing Tree
  fails : Entry Tree → Replacing Tree

-- The entry is one path below the pins directory, and its name has no leading dot.
abbrev pub is_hidden : Text → Bool
is_hidden [] = false
is_hidden (c ∷ s) = c == b'.'

-- The parts of a path that `pathlib` keeps
abbrev pub is_part : Text → Bool
is_part part = not (is_empty part) && not (part == codes ".")

abbrev pub leaves_pins : Pin → Bool
leaves_pins p =
    let entry = p.name ++ b'-' ∷ p.rev in
    starts_with entry (codes "/")
    || not (length (keep is_part (split_at b'/' entry)) == 1)
    || is_hidden p.name

module _ {Tree : Type 0} (nar_hash : Tree → Option Text) (copy : Tree → Tree)
    (obtain : Pin → Option Tree) where
  abbrev pub store_tree : Entry Tree → Option Tree
  store_tree (directory t) = some t
  store_tree _ = none

  abbrev pub hash_is : Text → Option Text → Bool
  hash_is wanted none = false
  hash_is wanted (some got) = got == wanted

  -- `_holds`: an error while hashing counts as a mismatch.
  unfoldable pub holds : Entry Tree → Text → Bool
  holds (directory t) wanted = hash_is wanted (nar_hash t)
  holds _ wanted = false

  abbrev pub tree_of : Pin → Entry Tree → Option Tree
  tree_of p (directory t) = some (copy t)
  tree_of p _ = obtain p

  -- The destination is removed before the tree is renamed to it: an error of either leaves there what it
  -- leaves (nothing, or a part of what was there).
  abbrev pub replace_dest : Replacing Tree → Disk Tree → Tree → Answer × Disk Tree
  replace_dest done d t = (at_dest, record d { dest = directory t })
  replace_dest (fails left) d t = (env_error, record d { dest = left })

  abbrev pub install : Replacing Tree → Pin → Disk Tree → Option Tree → Answer × Disk Tree
  install replacing p d none = (env_error, d)
  install replacing p d (some t) =
      if hash_is p.nar_hash (nar_hash t) then replace_dest replacing d t else (env_error, d)

  abbrev pub is_directory : Entry Tree → Bool
  is_directory (directory t) = true
  is_directory _ = false

  unfoldable pub pin_path : Replacing Tree → Bool → Pin → Disk Tree → Answer × Disk Tree
  unfolding holds
  pin_path replacing writable p d =
      if is_directory d.in_store && not writable
      then (at_store, d)
      else if leaves_pins p
      then (config_error, d)
      else if holds d.dest p.nar_hash
      then (at_dest, d)
      else install replacing p d (tree_of p d.in_store)

  -- What became of the disk: nothing, or a tree with the locked hash was ready and the destination is what the
  -- replacement that failed left.
  abbrev pub Failed : Replacing Tree → Pin → Disk Tree → Disk Tree → Type 0
  Failed done p d d' = d' ≡ d
  Failed (fails left) p d d' =
      (d' ≡ d)
      ⊎ ((t : Tree) × (tree_of p d.in_store ≡ some t)
          × (hash_is p.nar_hash (nar_hash t) ≡ true)
          × (d' ≡ record d { dest = left }))

  -- What each answer says of the disk.
  abbrev pub Right : Replacing Tree → Bool → Pin → Disk Tree → Answer × Disk Tree → Type 0
  Right replacing writable p d (at_store, d') =
      (writable ≡ false) × (is_directory d'.in_store ≡ true) × (d' ≡ d)
  Right replacing writable p d (at_dest, d') =
      (holds d'.dest p.nar_hash ≡ true) × (leaves_pins p ≡ false) × (d'.in_store ≡ d.in_store)
  Right replacing writable p d (config_error, d') = (d' ≡ d) × (leaves_pins p ≡ true)
  Right replacing writable p d (env_error, d') =
      (holds d.dest p.nar_hash ≡ false) × Failed replacing p d d'

  Failed-refl : (replacing : Replacing Tree) (p : Pin) (d : Disk Tree) → Failed replacing p d d
  Failed-refl done p d = refl
  Failed-refl (fails left) p d = inl refl

  install-Right :
      (replacing : Replacing Tree) (writable : Bool) (p : Pin) (d : Disk Tree) (o : Option Tree)
      → tree_of p d.in_store ≡ o
      → leaves_pins p ≡ false
      → holds d.dest p.nar_hash ≡ false
      → Right replacing writable p d (install replacing p d o)
  unfolding holds
  install-Right replacing writable p d none e l n = (n, Failed-refl replacing p d)
  install-Right done writable p d (some t) e l n =
      if_intro (Right done writable p d) (hash_is p.nar_hash (nar_hash t)) (λ y. (y, l, refl))
        (λ _. (n, refl))
  install-Right (fails left) writable p d (some t) e l n =
      if_intro (Right (fails left) writable p d) (hash_is p.nar_hash (nar_hash t))
        (λ y. (n, inr (t, e, y, refl))) (λ _. (n, inl refl))

  -- Whatever stood at the destination before, `pin_path` answers with it only when a directory with the
  -- locked hash stands there afterwards, and the store is as it was; it answers with the store's tree only
  -- if that is there and the caller does not write to it; and an error leaves the disk as it was, but where
  -- a tree with the locked hash was ready and the removal of the destination or the rename to it failed:
  -- then the destination is what that left, and the store is as it was.
  pub pin_path_verified :
      (replacing : Replacing Tree) (writable : Bool) (p : Pin) (d : Disk Tree)
      → Right replacing writable p d (pin_path replacing writable p d)
  unfolding pin_path
  pin_path_verified replacing writable p d =
      if_intro (Right replacing writable p d) (is_directory d.in_store && not writable)
        (λ s. (ground (arith, s), ground (arith, s), refl))
        λ _.
          if_intro (Right replacing writable p d) (leaves_pins p) (λ l. (refl, l))
            λ l.
              if_intro (Right replacing writable p d) (holds d.dest p.nar_hash) (λ y. (y, l, refl))
                (λ n. install-Right replacing writable p d (tree_of p d.in_store) refl l n)
