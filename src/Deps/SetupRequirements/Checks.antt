-- ===== src/Deps/SetupRequirements/Checks.antt =====
-- setup_requirements.py: what `--check` keeps it from, and what its exit status says.
use frappe_nix.Prelude.{
  ℕ, ◌≡◌, refl, ◌∙◌, ap, Bool, true, false, not, ◌&&◌, ◌||◌, List, [], ◌∷◌, ◌++◌, String, string_eq,
  number_eq, ◌==◌, contains, all, if◌then◌else◌, if_intro, arith,
}
use frappe_nix.Deps.SetupRequirements.{
  Asked, Parsed, options, exits, parse_from, parse, Command, verify, install, requirements, Config,
  node_commands, commands, rc_after, run_parsed, body,
}

-- What is asked for with `--check`: a verification that is passed `--check` on, the requirements of Python,
-- and never an installation. A verification with `--check` that finds nothing still writes its stamp.
abbrev pub is_checked : Command → Bool
is_checked (verify check) = check
is_checked install = false
is_checked requirements = true

abbrev ChecksOnly : Parsed → Type 0
ChecksOnly (options a) = a.check ≡ true
ChecksOnly (exits status) = Unit

parse_from-ChecksOnly :
    (a : Asked) (args : List String)
    → (a.check || contains args "--check") ≡ true
    → ChecksOnly (parse_from a args)
unfolding parse_from
parse_from-ChecksOnly a [] h = ground (arith, h)
parse_from-ChecksOnly a (arg ∷ args) h =
    if_intro ChecksOnly (arg == "--node")
      (λ e.
        parse_from-ChecksOnly (record a { python = false }) args
          (later a.check (arg == "--check") (contains args "--check") (other "--node" e refl) h))
      (λ n.
        if_intro ChecksOnly (arg == "--python")
          (λ e.
            parse_from-ChecksOnly (record a { node = false }) args
              (later a.check (arg == "--check") (contains args "--check") (other "--python" e refl)
                h))
          (λ p.
            if_intro ChecksOnly (arg == "--check")
              (λ e. parse_from-ChecksOnly (record a { check = true }) args refl)
              (λ c.
                if_intro ChecksOnly (arg == "--dev")
                  (λ e.
                    parse_from-ChecksOnly a args
                      (later a.check (arg == "--check") (contains args "--check") c h))
                  (λ d. if_intro ChecksOnly (arg == "-h" || arg == "--help") (λ e. tt) (λ e. tt)))))
  where
    later : (a b c : Bool) → b ≡ false → (a || (b || c)) ≡ true → (a || c) ≡ true
    later a b c e h = ground (arith, e, h)

    other :
        (word : String)
        → (arg == word) ≡ true
        → (word == "--check") ≡ false
        → (arg == "--check") ≡ false
    other word e d = ap (λ w. w == "--check") ((string_eq.agrees arg word).0 e) ∙ d

commands_checked :
    (config : Config) (a : Asked) → a.check ≡ true → all is_checked (commands config a) ≡ true
commands_checked config a h =
    go (config.has_apps_with_node && a.node) (not config.is_app_mode && a.python) a.check h
  where
    go :
        (node python check : Bool)
        → check ≡ true
        → all is_checked (
            (if node then node_commands check else [])
            ++ (if python then requirements ∷ [] else []))
          ≡ true
    go true true true h = refl
    go true false true h = refl
    go false true true h = refl
    go false false true h = refl
    go node python false h = cc

-- With `--check` among its words, wherever it stands, the command attempts no installation, and passes `--check`
-- on to every verification that it attempts.
pub check_attempts :
    (config : Config) (attempt : Command → ℕ) (args : List String)
    → contains args "--check" ≡ true
    → all is_checked (body config attempt args).1 ≡ true
unfolding body
check_attempts config attempt args h = go (parse args) (parse_from-ChecksOnly _ args h)
  where
    go : (p : Parsed) → ChecksOnly p → all is_checked (run_parsed config attempt p).1 ≡ true
    go (options a) k = commands_checked config a k
    go (exits status) k = refl

rc_after_lem :
    (attempt : Command → ℕ) (rc : ℕ) (cs : List Command)
    → (rc_after attempt rc cs == 0) ≡ (rc == 0 && all (λ c. attempt c == 0) cs)
rc_after_lem attempt rc [] = ground arith
rc_after_lem attempt rc (c ∷ cs) =
    rc_after_lem attempt (if attempt c == 0 then rc else 1) cs ∙ ground arith

-- If its words are understood, the command exits with 0 exactly if every command that it attempted did, and
-- with 1 otherwise: a failure never keeps the others from being attempted, nor is it forgotten.
pub body_exit :
    (config : Config) (attempt : Command → ℕ) (args : List String) (a : Asked)
    → parse args ≡ options a
    → ((body config attempt args).1 ≡ commands config a)
      × (((body config attempt args).0 == 0) ≡ all (λ c. attempt c == 0) (commands config a))
unfolding body
body_exit config attempt args a h = rw h (refl, rc_after_lem attempt 0 (commands config a))
