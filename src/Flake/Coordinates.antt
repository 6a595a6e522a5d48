-- ===== src/Flake/Coordinates.antt =====
-- flakelock.py: `locked_pin`, from the name of an input to its locked coordinates.
use frappe_nix.Prelude.{
  ℕ, String, Bool, true, false, not, ◌&&◌, Option, none, some, List, [], ◌∷◌, codes, Text, text_eq,
  number_eq, string_eq, ◌==◌, is_empty, starts_with, lower, if◌then◌else◌, contains, rstrip_of,
  strip_of, after_last,
}
use frappe_nix.Prelude.Dict.{Dict, lookup}
use frappe_nix.Prelude.Url.{urlsplit, url_path}
use frappe_nix.Flake.Names.{is_name, is_gitlab_owner, is_host, is_rev}
use frappe_nix.Flake.{
  Lock, Node, Locked, Value, text, falsy, any_other, not_locked, locked, Found, found, missing,
  endless, input_node, frappe_nix_pins,
}

-- `Pin`
pub record Pin : Type 0 where
  pub input : Text
  pub kind : Text
  pub rev : Text
  pub nar_hash : Text
  pub owner : Text
  pub repo : Text
  pub host : Text
  pub url : Text

abbrev pub after_prefix : Text → Text → Text → Text
after_prefix whole [] s = s
after_prefix whole (p ∷ ps) [] = whole
after_prefix whole (p ∷ ps) (c ∷ s) =
    let rest = after_prefix whole ps s in if c == p then rest else whole

-- `s.removeprefix(p)`
abbrev pub remove_prefix : Text → Text → Text
remove_prefix s p = after_prefix s p s

-- `s.removesuffix(p)` for a `p` that is not empty
abbrev pub remove_suffix : Text → Text → Text
remove_suffix [] p = []
remove_suffix (c ∷ s) p = let rest = remove_suffix s p in if (c ∷ s) == p then [] else c ∷ rest

abbrev pub or_source : Text → Text
or_source [] = codes "source"
or_source (c ∷ s) = c ∷ s

-- `Pin.name`
unfoldable pub name_of : Pin → Text
name_of p =
    if p.kind == codes "git"
    then or_source (remove_suffix (after_last b'/' (rstrip_of b'/' p.url)) (codes ".git"))
    else p.repo

pub data Read {ℓ} (A : Type ℓ) : Type ℓ where
  read : A → Read A
  config_error env_error too_deep : Read A

infixl 10 ◌>>=◌
abbrev pub ◌>>=◌ {ℓ κ} : {A : Type ℓ} {B : Type κ} → Read A → (A → Read B) → Read B
read a >>= next = next a
config_error >>= next = config_error
env_error >>= next = env_error
too_deep >>= next = too_deep

-- A check that raises `ConfigError`.
abbrev pub require : Bool → Read (Unit {0})
require true = read tt
require false = config_error

-- `_field`
abbrev pub text_of : Option Value → Read Text
text_of (some (text t)) = read t
text_of _ = env_error

abbrev pub field : Dict String Value → String → Read Text
field d key = text_of (lookup key d)

abbrev pub kind_of : Option Value → Text
kind_of (some (text t)) = t
kind_of _ = []

abbrev pub pin_types : List Text
pin_types = codes "github" ∷ codes "gitlab" ∷ codes "git" ∷ []

abbrev pub git_schemes : List Text
git_schemes = codes "https" ∷ codes "http" ∷ codes "ssh" ∷ codes "file" ∷ []

abbrev pub locked_of : Option Node → Locked
locked_of none = not_locked
locked_of (some node) = node.locked

abbrev pub table_of : Locked → Read (Dict String Value)
table_of not_locked = config_error
table_of (locked d) = read d

-- The `locked` table of the node that was found.
abbrev pub locked_table : Lock → Found → Read (Dict String Value)
locked_table lock (found name) = table_of (locked_of (lookup name lock.nodes))
locked_table lock missing = config_error
locked_table lock Found.env_error = env_error
locked_table lock endless = too_deep

abbrev pub default_host : Text → Text
default_host kind = if kind == codes "gitlab" then codes "gitlab.com" else codes "github.com"

-- `locked.get("host") or default`, which must be a text.
abbrev pub host_or : Text → Option Value → Read Text
host_or default none = read default
host_or default (some (text t)) = read (if is_empty t then default else t)
host_or default (some falsy) = read default
host_or default (some any_other) = config_error

abbrev pub is_hidden : Text → Bool
is_hidden s = starts_with s (codes ".")

abbrev pub at_url : Text → Text → Text → Text → Pin
at_url name rev nar_hash url = record {
  input = name;
  kind = codes "git";
  rev = rev;
  nar_hash = nar_hash;
  owner = [];
  repo = [];
  host = [];
  url = url;
}

abbrev pub on_host : Text → Text → Text → Text → Text → Text → Text → Pin
on_host name kind rev nar_hash owner repo host = record {
  input = name;
  kind = kind;
  rev = rev;
  nar_hash = nar_hash;
  owner = owner;
  repo = repo;
  host = host;
  url = [];
}

abbrev pub git_pin : Text → Text → Text → Text → Read Pin
git_pin name rev nar_hash raw = do
  let url = remove_prefix raw (codes "git+")
  let p = at_url name rev nar_hash url
  is_url ←
      require (
        contains git_schemes (urlsplit url).scheme && not (is_empty (strip_of b'/' (url_path url))))
  is_named ← require (is_name (name_of p) && not (is_hidden (name_of p)))
  read p

abbrev pub owner_ok : Text → Text → Bool
owner_ok kind owner =
    (if kind == codes "gitlab" then is_gitlab_owner owner else is_name owner)
    && not (is_hidden owner)

-- The repository that frappe-nix pins the input to, where it pins it.
abbrev pub is_expected : Option (Text × Text) → Text → Text → Text → Text → Bool
is_expected none kind host owner repo = true
is_expected (some (want_owner, want_repo)) kind host owner repo =
    kind == codes "github"
    && lower host == codes "github.com"
    && lower owner == want_owner
    && lower repo == want_repo

abbrev pub hub_pin : Text → Text → Text → Text → Dict String Value → Read Pin
hub_pin name kind rev nar_hash d = do
  owner ← field d "owner"
  repo ← field d "repo"
  host ← host_or (default_host kind) (lookup "host" d)
  is_owner ← require (owner_ok kind owner)
  is_repo ← require (is_name repo && not (is_hidden repo))
  is_hosted ← require (is_host host)
  is_ours ← require (is_expected (lookup name frappe_nix_pins) kind host owner repo)
  read (on_host name kind rev nar_hash owner repo host)

-- `locked_pin`, behind the walk to the node.
abbrev pub pin_of : Text → Dict String Value → Read Pin
pin_of name d = do
  let kind = kind_of (lookup "type" d)
  is_type ← require (contains pin_types kind)
  rev ← field d "rev"
  nar_hash ← field d "narHash"
  is_commit ← require (is_rev rev)
  (if kind == codes "git"
      then field d "url" >>= git_pin name rev nar_hash
      else hub_pin name kind rev nar_hash d)

unfoldable pub locked_pin : ℕ → Lock → Text → Read Pin
locked_pin fuel lock name = locked_table lock (input_node fuel lock name) >>= pin_of name
