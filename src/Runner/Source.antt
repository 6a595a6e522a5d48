-- ===== src/Runner/Source.antt =====
-- `SourceWatch` of runner.py: one reload for a burst of changes of Python files.
use frappe_nix.Prelude.{
  ℕ, ◌+◌, String, ◌≡◌, refl, Bool, true, false, not, ◌&&◌, ◌||◌, List, [], ◌∷◌, any, contains,
  codes, Text, ends_with, ◌∙◌, string_eq, if◌then◌else◌, arith,
}

-- A file system event: its kind, whether it is about a directory, its path, and the path that a
-- rename ends at, which is empty for the others.
pub record Change : Type 0 where
  pub event_type : String
  pub is_directory : Bool
  pub src_path : Text
  pub dest_path : Text

abbrev pub changes : List String
changes = "created" ∷ "modified" ∷ "moved" ∷ "deleted" ∷ []

abbrev pub path_or : Text → Text → Text
path_or [] src = src
path_or (c ∷ dest) src = c ∷ dest

-- `path.endswith(".py")`
abbrev pub is_python : Text → Bool
is_python path = ends_with path (codes ".py")

abbrev pub is_ignored : Change → Bool
is_ignored e =
    e.is_directory
    || not (contains changes e.event_type)
    || not (is_python (path_or e.dest_path e.src_path))

-- The flag `fired`, and the timers that were started.
pub record Watch : Type 0 where
  pub fired : Bool
  pub timers : ℕ

unfoldable pub dispatch : Bool → Change → Watch → Watch
dispatch draining e w =
    if is_ignored e
    then w
    else if draining || w.fired
    then w
    else record { fired = true; timers = w.timers + 1 }

-- `reload`, when a timer ends: whether it sends SIGHUP.
unfoldable pub reload : Bool → Bool
reload draining = not draining

-- The events, each with whether the drain has begun.
unfoldable pub dispatch_all : List (Bool × Change) → Watch → Watch
dispatch_all [] w = w
dispatch_all ((draining, e) ∷ es) w = dispatch_all es (dispatch draining e w)

abbrev pub reloads : List (Bool × Change) → Bool
reloads = any (λ (draining, e). not draining && not (is_ignored e))

dispatch_all_fired :
    (es : List (Bool × Change)) (w : Watch) → w.fired ≡ true → dispatch_all es w ≡ w
unfolding dispatch_all dispatch
dispatch_all_fired [] w f = refl
dispatch_all_fired ((draining, e) ∷ es) w f =
    dispatch_all_fired es (dispatch draining e w) (ground (arith, f)) ∙ ground (arith, f)

-- A burst of events starts exactly one timer if one of them, before the drain, is a change of a
-- Python file, and none otherwise.
pub timers-dispatch_all :
    (es : List (Bool × Change))
    → (dispatch_all es (record { fired = false; timers = 0 })).timers
      ≡ (if reloads es then 1 else 0)
unfolding dispatch_all dispatch
timers-dispatch_all [] = refl
timers-dispatch_all ((draining, e) ∷ es) = ground (
  arith,
  timers-dispatch_all es,
  dispatch_all_fired es (record { fired = true; timers = 1 }) refl,
)
