-- ===== src/Flake.antt =====
-- py/frappe_nix_tools/frappe_nix_tools/common/flakelock.py: the nodes of a flake.lock, its `follows` paths, and the
-- pins that it locks. A lock is what `parse` lets through.
pub mod Resolve
pub mod Names
pub mod Coordinates
pub mod Confined
mod Tests
use frappe_nix.Prelude.{
  ℕ, zero, suc, Bool, true, false, not, ◌&&◌, ◌||◌, Option, none, some, List, [], ◌∷◌, ◌++◌, all,
  codes, Text, text_eq, number_eq, string_eq, ◌==◌, is_empty, starts_with, lower, length, leb,
  if◌then◌else◌, contains, String,
}
use frappe_nix.Prelude.Dict.{Dict, lookup}
use frappe_nix.Prelude.Url.{Split}

-- The reference of an input: a node's name, a `follows` path from the root, or a value of another type
-- (an input whose reference is null counts as one that is not there).
pub data Ref : Type 0 where
  node_name : Text → Ref
  follows : List Text → Ref
  bad_ref : Ref

-- `inputs`: a table, or a value of another type.
pub data Inputs : Type 0 where
  table : Dict Text Ref → Inputs
  not_table : Inputs

-- A field of `locked`: a text, a value that is false for Python, or any other.
pub data Value : Type 0 where
  text : Text → Value
  falsy any_other : Value

-- `locked`: a table, or a value of another type.
pub data Locked : Type 0 where
  locked : Dict String Value → Locked
  not_locked : Locked

pub record Node : Type 0 where
  pub inputs : Inputs
  pub locked : Locked

pub record Lock : Type 0 where
  pub nodes : Dict Text Node
  pub root : Text

-- What a walk over the inputs finds: a node's name, `None`, or `EnvError`. The source recurs into a
-- `follows` path with no bound; `endless` is a recursion deeper than the fuel.
pub data Found : Type 0 where
  found : Text → Found
  missing env_error endless : Found

-- The references of a node, `none` for a node that the lock does not have.
abbrev pub inputs_of : Lock → Text → Option Inputs
inputs_of lock name = elim (lookup name lock.nodes) [ none ↦ none | some node ↦ some node.inputs ]

-- A step of `node_at`: the reference of the input, or the end of the walk.
pub data Step : Type 0 where
  to : Ref → Step
  ends : Found → Step

abbrev pub step_in : Option Inputs → Text → Step
step_in none step = ends env_error
step_in (some not_table) step = ends env_error
step_in (some (table d)) step = elim (lookup step d) [ none ↦ ends missing | some ref ↦ to ref ]

unfoldable pub step_at : Lock → Text → Text → Step
step_at lock name step = step_in (inputs_of lock name) step

-- The end of a path: the node is there.
abbrev pub arrive_at : Lock → Text → Option Node → Found
arrive_at lock name none = env_error
arrive_at lock name (some node) = found name

unfoldable pub arrive : Lock → Text → Found
arrive lock name = arrive_at lock name (lookup name lock.nodes)

-- `node_at`, from the node of a name; the fuel bounds how deep `follows` paths lead into one another.
unfoldable pub walk : ℕ → Lock → Text → List Text → Found
walk fuel lock name [] = arrive lock name
walk zero lock name (step ∷ path) = elim (step_at lock name step) [
  | ends result ↦ result
  | to (node_name next) ↦ walk zero lock next path
  | to (follows other) ↦ endless
  | to bad_ref ↦ env_error
]
walk (suc fuel) lock name (step ∷ path) = elim (step_at lock name step) [
  | ends result ↦ result
  | to (node_name next) ↦ walk (suc fuel) lock next path
  | to (follows other) ↦ elim (walk fuel lock lock.root other) [
    | found next ↦ walk (suc fuel) lock next path
    | result ↦ result
  ]
  | to bad_ref ↦ env_error
]

abbrev pub node_at : ℕ → Lock → List Text → Found
node_at fuel lock path = walk fuel lock lock.root path

abbrev pub tool_input : Text
tool_input = codes "frappe-nix"

abbrev pub profile_input : Text
profile_input = codes "standards-profile"

-- `FRAPPE_NIX_PINS`
abbrev pub frappe_nix_pins : Dict Text (Text × Text)
frappe_nix_pins =
    (codes "frappe-semgrep-rules", (codes "frappe", codes "semgrep-rules"))
    ∷ (codes "marketplace", (codes "frappe", codes "marketplace"))
    ∷ (codes "pilot", (codes "frappe", codes "pilot"))
    ∷ []

abbrev pub is_pinned : Option (Text × Text) → Bool
is_pinned none = false
is_pinned (some expected) = true

-- `a or b` of two walks: the second is made only if the first finds nothing.
abbrev pub or_else : Found → Found → Found
or_else missing second = second
or_else first second = first

-- What follows on `node_at(...) is not None`, where an error ends the function.
abbrev pub if_there : Found → Found → Found → Found
if_there (found name) yes_there absent = yes_there
if_there missing yes_there absent = absent
if_there env_error yes_there absent = env_error
if_there endless yes_there absent = endless

-- The rest of `input_node`, for an input that is not frappe-nix's.
abbrev pub own_input : ℕ → Lock → Text → Found
own_input fuel lock name =
    if name == profile_input
    then node_at fuel lock (name ∷ [])
    else or_else (node_at fuel lock (name ∷ [])) (node_at fuel lock (tool_input ∷ name ∷ []))

unfoldable pub input_node : ℕ → Lock → Text → Found
input_node fuel lock name =
    if is_pinned (lookup name frappe_nix_pins)
    then if_there (node_at fuel lock (tool_input ∷ [])) (node_at fuel lock (tool_input ∷ name ∷ []))
        (own_input fuel lock name)
    else own_input fuel lock name

-- The text of a key of the `locked` table of what was found, where it is one.
abbrev pub text_or_none : Option Value → Option Text
text_or_none (some (text t)) = some t
text_or_none _ = none

abbrev pub locked_rev_of : Locked → Option Text
locked_rev_of not_locked = none
locked_rev_of (locked d) = text_or_none (lookup "rev" d)

abbrev pub rev_at : Option Node → Option Text
rev_at none = none
rev_at (some node) = locked_rev_of node.locked

-- A revision, `None`, or an error on the way to it.
pub data Rev : Type 0 where
  rev : Option Text → Rev
  env_error too_deep : Rev

abbrev pub rev_of : Lock → Found → Rev
rev_of lock (found name) = rev (rev_at (lookup name lock.nodes))
rev_of lock missing = rev none
rev_of lock Found.env_error = Rev.env_error
rev_of lock endless = too_deep

unfoldable pub frappe_nix_rev : ℕ → Lock → Rev
frappe_nix_rev fuel lock = rev_of lock (node_at fuel lock (tool_input ∷ []))

unfoldable pub locked_rev : ℕ → Lock → Text → Rev
locked_rev fuel lock name = rev_of lock (input_node fuel lock name)
