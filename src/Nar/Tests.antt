-- ===== src/Nar/Tests.antt =====
-- Serialisations of small trees.
use frappe_nix.Prelude.{◌≡◌, refl, sym, ◌∙◌, true, Option, none, some, [], ◌∷◌, ◌++◌, codes, arith}
use frappe_nix.Nar.{
  Bytes, Node, symlink, regular, directory, other, nil, entry, frame, visited, dump_node, serialise,
}
use frappe_nix.Nar.Tokens.{tokens}
use frappe_nix.Nar.Injective.{TreeFits, serialise_injective}

abbrev script : Node
script = regular true (codes "#!sh")

abbrev listed : Node
listed = directory (entry (codes "run") script (entry (codes "a") (symlink (codes "run")) nil))

abbrev listed_again : Node
listed_again =
    directory (entry (codes "a") (symlink (codes "run")) (entry (codes "run") script nil))

abbrev bytes_or_nil : Option Bytes → Bytes
bytes_or_nil none = []
bytes_or_nil (some h) = h

framed : frame (codes "type") ≡ 4 ∷ 0 ∷ 0 ∷ 0 ∷ 0 ∷ 0 ∷ 0 ∷ 0 ∷ (codes "type" ++ 0 ∷ 0 ∷ 0 ∷ 0 ∷ [])
unfolding frame
framed = refl

sorted_by_name : visited listed ≡ listed_again
unfolding visited
sorted_by_name = refl

socket_refused : serialise (directory (entry (codes "s") other nil)) ≡ none
unfolding serialise dump_node visited
socket_refused = refl

one_serialisation : serialise listed ≡ serialise listed_again
unfolding serialise visited
one_serialisation = refl

serialised : serialise listed ≡ some (bytes_or_nil (serialise listed))
unfolding serialise dump_node visited frame
serialised = refl

listed_fits : TreeFits listed
unfolding visited tokens
listed_fits = omega arith

listed_again_fits : TreeFits listed_again
unfolding visited tokens
listed_again_fits = omega arith

serialise_injective_example : visited listed ≡ visited listed_again
serialise_injective_example =
    serialise_injective listed listed_again (bytes_or_nil (serialise listed)) serialised
      (sym one_serialisation ∙ serialised) listed_fits listed_again_fits
