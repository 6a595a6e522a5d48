-- ===== src/Deps/SetupRequirements.antt =====
-- deps/setup_requirements.py: `bench setup requirements`, over what the commands that it runs answer.
pub mod Checks
mod Tests
use frappe_nix.Prelude.{
  ℕ, zero, suc, ◌≡◌, Bool, true, false, not, ◌&&◌, ◌||◌, List, [], ◌∷◌, ◌++◌, String, string_eq,
  number_eq, ◌==◌, if◌then◌else◌,
}

-- What the words ask for: node, Python, and to change nothing.
pub record Asked : Type 0 where
  pub node : Bool
  pub python : Bool
  pub check : Bool

-- `parse` ends with the options, or with the exit status of help or of an unknown word.
pub data Parsed : Type 0 where
  options : Asked → Parsed
  exits : ℕ → Parsed

unfoldable pub parse_from : Asked → List String → Parsed
parse_from a [] = options a
parse_from a (arg ∷ args) =
    if arg == "--node"
    then parse_from (record a { python = false }) args
    else if arg == "--python"
    then parse_from (record a { node = false }) args
    else if arg == "--check"
    then parse_from (record a { check = true }) args
    else if arg == "--dev"
    then parse_from a args
    else if arg == "-h" || arg == "--help"
    then exits 0
    else exits 2

abbrev pub parse : List String → Parsed
parse args = parse_from (record { node = true; python = true; check = false }) args

-- The commands: node_verify, with or without `--check`, node_modules, which installs, and requirements_check.
pub data Command : Type 0 where
  verify : Bool → Command
  install requirements : Command

-- The configuration: whether an app has a package.json, and whether the project is one app.
pub record Config : Type 0 where
  pub has_apps_with_node : Bool
  pub is_app_mode : Bool

-- The commands that are attempted: each of them, whatever the ones before it answer.
abbrev pub node_commands : Bool → List Command
node_commands check = verify check ∷ (if check then [] else install ∷ [])

abbrev pub commands : Config → Asked → List Command
commands config a =
    (if config.has_apps_with_node && a.node then node_commands a.check else [])
    ++ (if not config.is_app_mode && a.python then requirements ∷ [] else [])

-- `rc`, after the commands' exit statuses.
abbrev pub rc_after : (Command → ℕ) → ℕ → List Command → ℕ
rc_after attempt rc [] = rc
rc_after attempt rc (c ∷ cs) = rc_after attempt (if attempt c == 0 then rc else 1) cs

abbrev pub run_parsed : Config → (Command → ℕ) → Parsed → ℕ × List Command
run_parsed config attempt (exits status) = (status, [])
run_parsed config attempt (options a) = (rc_after attempt 0 (commands config a), commands config a)

-- `_body`: the exit status, and the commands that it attempted.
unfoldable pub body : Config → (Command → ℕ) → List String → ℕ × List Command
body config attempt args = run_parsed config attempt (parse args)
