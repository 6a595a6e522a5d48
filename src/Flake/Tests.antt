-- ===== src/Flake/Tests.antt =====
-- Examples of Flake: a lock whose frappe-nix follows an input of the root.
use frappe_nix.Prelude.{ℕ, ◌≤◌, ◌≡◌, refl, [], ◌∷◌, codes, Text, text_eq, some, true, false}
use frappe_nix.Flake.{
  Lock, Node, table, node_name, follows, Locked, locked, not_locked, text, found, endless, node_at,
  input_node, step_at, to, arrive, walk, tool_input, rev, locked_rev,
}
use frappe_nix.Flake.Names.{is_gitlab_owner, is_host, is_rev, is_name}
use frappe_nix.Flake.Coordinates.{Pin, locked_pin, read, config_error, name_of, at_url}
use frappe_nix.Prelude.Url.{urlsplit, url_path}
use frappe_nix.Flake.Resolve.{LeadsTo, here, direct, through, node_at-LeadsTo, node_at_cycle}
use frappe_nix.Flake.Confined.{locked_pin_confined, on_disk}
use frappe_nix.Pins.Tree.{leaves_pins}

abbrev commit : Text
commit = codes "0123456789abcdef0123456789abcdef01234567"

abbrev hash : Text
hash = codes "sha256-AAA"

abbrev plain : Locked → Node
plain l = record { inputs = table []; locked = l }

abbrev pilot_locked : Locked
pilot_locked = locked (
    ("type", text (codes "github"))
    ∷ ("rev", text commit)
    ∷ ("narHash", text hash)
    ∷ ("owner", text (codes "Frappe"))
    ∷ ("repo", text (codes "pilot"))
    ∷ [])

abbrev escaping_locked : Locked
escaping_locked = locked (
    ("type", text (codes "git"))
    ∷ ("rev", text commit)
    ∷ ("narHash", text hash)
    ∷ ("url", text (codes "git+https://host/.."))
    ∷ [])

abbrev lock : Lock
lock = record {
  root = codes "root";
  nodes =
      (
        codes "root",
        record {
          inputs = table (
              (codes "frappe-nix", node_name (codes "tool"))
              ∷ (codes "mine", node_name (codes "pilot_1"))
              ∷ (codes "odd", node_name (codes "escaping"))
              ∷ (codes "me", follows (codes "me" ∷ []))
              ∷ []);
          locked = not_locked;
        },
      )
      ∷ (
        codes "tool",
        record {
          inputs = table ((codes "pilot", follows (codes "mine" ∷ [])) ∷ []);
          locked = not_locked;
        },
      )
      ∷ (codes "pilot_1", plain pilot_locked)
      ∷ (codes "escaping", plain escaping_locked)
      ∷ [];
}

abbrev pilot_pin : Pin
pilot_pin = record {
  input = codes "pilot";
  kind = codes "github";
  rev = commit;
  nar_hash = hash;
  owner = codes "Frappe";
  repo = codes "pilot";
  host = codes "github.com";
  url = [];
}

pilot_read : locked_pin 1 lock (codes "pilot") ≡ read pilot_pin
unfolding locked_pin input_node step_at arrive walk is_rev is_name is_host
pilot_read = refl

odd_refused : locked_pin 1 lock (codes "odd") ≡ config_error
unfolding locked_pin input_node step_at arrive walk is_rev urlsplit url_path is_name name_of
odd_refused = refl

locked_rev_lem : locked_rev 1 lock (codes "pilot") ≡ rev (some commit)
unfolding locked_rev input_node step_at arrive walk
locked_rev_lem = refl

owner_groups : is_gitlab_owner (codes "a/b%2Fc") ≡ true
unfolding is_gitlab_owner
owner_groups = refl

owner_open : is_gitlab_owner (codes "a/") ≡ false
unfolding is_gitlab_owner
owner_open = refl

host_port : is_host (codes "h.org:8") ≡ true
unfolding is_host
host_port = refl

host_no_port : is_host (codes "h.org:") ≡ false
unfolding is_host
host_no_port = refl

source_name : name_of (at_url [] [] [] (codes "https://host/x/repo.git/")) ≡ codes "repo"
unfolding name_of
source_name = refl

leads : LeadsTo lock (codes "root") (tool_input ∷ codes "pilot" ∷ []) (codes "pilot_1")
unfolding step_at arrive
leads = direct refl (through refl (direct refl (here refl)) (here refl))

node_at-LeadsTo_example :
    (f : ℕ) × ((g : ℕ)
      → f ≤ g
      → node_at g lock (tool_input ∷ codes "pilot" ∷ []) ≡ found (codes "pilot_1"))
node_at-LeadsTo_example =
    (node_at-LeadsTo lock (tool_input ∷ codes "pilot" ∷ []) (codes "pilot_1")).0 leads

locked_pin_confined_example : leaves_pins (on_disk pilot_pin) ≡ false
locked_pin_confined_example = locked_pin_confined 1 lock (codes "pilot") pilot_pin pilot_read

follows_itself : step_at lock (codes "root") (codes "me") ≡ to (follows (codes "me" ∷ []))
unfolding step_at
follows_itself = refl

node_at_cycle_example : node_at 1000 lock (codes "me" ∷ []) ≡ endless
node_at_cycle_example = node_at_cycle lock 1000 (codes "me") follows_itself
