-- ===== src/Flake/Confined.antt =====
-- flakelock.py and pins.py: the directory of a locked pin stays in the pins directory.
use frappe_nix.Prelude.{
  ℕ, ◌≡◌, refl, Bool, true, false, not, ◌&&◌, [], ◌∷◌, ◌++◌, all, codes, Text, text_eq, number_eq,
  ◌==◌, arith, starts_with, split_at, String, string_eq, subst, if_intro,
}
use frappe_nix.Prelude.Dict.{Dict, lookup}
use frappe_nix.Pins.Tree.{is_part, is_hidden, leaves_pins}
use frappe_nix.Flake.{Lock, Value, input_node, frappe_nix_pins}
use frappe_nix.Flake.Names.{is_host, is_name_char, is_name, is_hex, is_rev}
use frappe_nix.Flake.Coordinates.{
  at_url, on_host, is_hidden as is_hidden_name, Pin, name_of, Read, read, config_error, env_error,
  too_deep, ◌>>=◌, require, field, kind_of, locked_table, host_or, default_host, owner_ok,
  is_expected, git_pin, hub_pin, pin_of, locked_pin, remove_prefix,
}

-- The pin as pins.py reads it.
abbrev pub on_disk : Pin → frappe_nix.Pins.Tree.Pin
on_disk p = record { name = name_of p; rev = p.rev; nar_hash = p.nar_hash }

abbrev no_slash : Text → Bool
no_slash s = all (λ c. not (c == b'/')) s

split-no_slash : (s : Text) → no_slash s ≡ true → split_at b'/' s ≡ s ∷ []
split-no_slash [] h = refl
split-no_slash (c ∷ s) h = ground (arith, h, split-no_slash s (ground (arith, h)))

all_weaker :
    (p q : ℕ → Bool) (s : Text)
    → ((c : ℕ) → p c ≡ true → q c ≡ true)
    → all p s ≡ true
    → all q s ≡ true
all_weaker p q [] w h = refl
all_weaker p q (c ∷ s) w h =
    ground (arith, w c (ground (arith, h)), all_weaker p q s w (ground (arith, h)))

no_slash-append : (s t : Text) → no_slash s ≡ true → no_slash t ≡ true → no_slash (s ++ t) ≡ true
no_slash-append [] t h k = k
no_slash-append (c ∷ s) t h k = ground (arith, h, no_slash-append s t (ground (arith, h)) k)

name-no_slash : (s : Text) → is_name s ≡ true → no_slash s ≡ true
unfolding is_name
name-no_slash s h =
    all_weaker is_name_char (λ c. not (c == b'/')) s (λ c k. ground (arith, k)) (ground (arith, h))

rev-no_slash : (s : Text) → is_rev s ≡ true → no_slash s ≡ true
unfolding is_rev
rev-no_slash s h =
    all_weaker is_hex (λ c. not (c == b'/')) s (λ c k. ground (arith, k)) (ground (arith, h))

entry-is_part : (name rev : Text) → is_part (name ++ b'-' ∷ rev) ≡ true
entry-is_part [] rev = refl
entry-is_part (c ∷ []) rev = ground arith
entry-is_part (c ∷ d ∷ s) rev = ground arith

not_rooted : (s : Text) → no_slash s ≡ true → starts_with s (codes "/") ≡ false
not_rooted [] h = refl
not_rooted (c ∷ s) h = ground (arith, h)

same_hidden : (s : Text) → starts_with s (codes ".") ≡ is_hidden s
same_hidden [] = refl
same_hidden (c ∷ s) = ground arith

-- What every pin that is read satisfies.
abbrev IsConfined : Pin → Type 0
IsConfined p =
    (is_name (name_of p) ≡ true)
    × (starts_with (name_of p) (codes ".") ≡ false)
    × (is_rev p.rev ≡ true)

IsConfined-leaves_pins : (p : Pin) → IsConfined p → leaves_pins (on_disk p) ≡ false
IsConfined-leaves_pins p (n, h, r) =
    let inside : no_slash (name_of p ++ b'-' ∷ p.rev) ≡ true =
      no_slash-append (name_of p) (b'-' ∷ p.rev) (name-no_slash (name_of p) n)
        (rev-no_slash p.rev r) in
    rw (split-no_slash (name_of p ++ b'-' ∷ p.rev) inside) (
      ground (
        arith,
        not_rooted (name_of p ++ b'-' ∷ p.rev) inside,
        entry-is_part (name_of p) p.rev,
        same_hidden (name_of p),
        h,
      ))

-- If a pin is read, it is confined.
abbrev ReadsConfined : Read Pin → Type 0
ReadsConfined (read p) = IsConfined p
ReadsConfined _ = Unit

bind-ReadsConfined {ℓ} :
    {A : Type ℓ} (r : Read A) (next : A → Read Pin)
    → ((a : A) → r ≡ read a → ReadsConfined (next a))
    → ReadsConfined (r >>= next)
bind-ReadsConfined (read a) next h = h a refl
bind-ReadsConfined config_error next h = tt
bind-ReadsConfined env_error next h = tt
bind-ReadsConfined too_deep next h = tt

require_lem : (b : Bool) (u : Unit {0}) → require b ≡ read u → b ≡ true
require_lem true u h = refl
require_lem false u h = cc

git_pin-ReadsConfined :
    (name rev nar_hash raw : Text)
    → is_rev rev ≡ true
    → ReadsConfined (git_pin name rev nar_hash raw)
git_pin-ReadsConfined name rev nar_hash raw r =
    let q : Pin = at_url name rev nar_hash (remove_prefix raw (codes "git+")) in
    bind-ReadsConfined (require _) _ λ u e.
      bind-ReadsConfined (require (is_name (name_of q) && not (is_hidden_name (name_of q))))
        (λ x. read q)
        λ v e'.
          let ok = require_lem (is_name (name_of q) && not (is_hidden_name (name_of q))) v e' in
          let c : IsConfined q = (ground (arith, ok), ground (arith, ok), r) in c

not_git : (p : Pin) → (p.kind == codes "git") ≡ false → name_of p ≡ p.repo
unfolding name_of
not_git p g = rw g refl

hub_pin-ReadsConfined :
    (name kind rev nar_hash : Text) (d : Dict String Value)
    → is_rev rev ≡ true
    → (kind == codes "git") ≡ false
    → ReadsConfined (hub_pin name kind rev nar_hash d)
hub_pin-ReadsConfined name kind rev nar_hash d r g =
    bind-ReadsConfined (field d "owner") _ λ owner e1.
      bind-ReadsConfined (field d "repo") _ λ repo e2.
        bind-ReadsConfined (host_or (default_host kind) (lookup "host" d)) _ λ host e3.
          bind-ReadsConfined (require (owner_ok kind owner)) _ λ u e4.
            bind-ReadsConfined (require (is_name repo && not (is_hidden_name repo))) _ λ v e5.
              bind-ReadsConfined (require (is_host host)) _ λ w e6.
                bind-ReadsConfined
                  (require (is_expected (lookup name frappe_nix_pins) kind host owner repo))
                  (λ x. read (on_host name kind rev nar_hash owner repo host))
                  λ x e7.
                    let ok = require_lem (is_name repo && not (is_hidden_name repo)) v e5 in
                    let same = not_git (on_host name kind rev nar_hash owner repo host) g in
                    let c : IsConfined (on_host name kind rev nar_hash owner repo host) =
                      (rw same (ground (arith, ok)), rw same (ground (arith, ok)), r) in
                    c

pin_of-ReadsConfined : (name : Text) (d : Dict String Value) → ReadsConfined (pin_of name d)
pin_of-ReadsConfined name d = bind-ReadsConfined (require _) _ λ u e.
    bind-ReadsConfined (field d "rev") _ λ rev e1.
      bind-ReadsConfined (field d "narHash") _ λ nar_hash e2.
        bind-ReadsConfined (require (is_rev rev)) _ λ v e3.
          let commit = require_lem (is_rev rev) v e3 in
          if_intro ReadsConfined (kind_of (lookup "type" d) == codes "git")
            (λ g.
              bind-ReadsConfined (field d "url") (git_pin name rev nar_hash)
                (λ raw e4. git_pin-ReadsConfined name rev nar_hash raw commit))
            (λ g. hub_pin-ReadsConfined name (kind_of (lookup "type" d)) rev nar_hash d commit g)

-- Whatever a flake.lock says, a pin that `locked_pin` reads from it has a directory of its own right
-- below the pins directory: `pin_path` never refuses it as a path that leads elsewhere.
pub locked_pin_confined :
    (fuel : ℕ) (lock : Lock) (name : Text) (p : Pin)
    → locked_pin fuel lock name ≡ read p
    → leaves_pins (on_disk p) ≡ false
unfolding locked_pin
locked_pin_confined fuel lock name p h = IsConfined-leaves_pins p (
    subst ReadsConfined h (
      bind-ReadsConfined (locked_table lock (input_node fuel lock name)) (pin_of name)
        (λ d e. pin_of-ReadsConfined name d)))
