-- ===== src/Realtime/Dispatch.antt =====
-- registry.py and dispatch.py: which handlers an event runs.
use frappe_nix.Prelude.{
  ◌≡◌, refl, Bool, true, false, not, ◌&&◌, List, [], ◌∷◌, ◌++◌, codes, Text, text_eq, ◌==◌, arith,
  keep, contains, if◌then◌else◌, Option, none, some,
}
use frappe_nix.Prelude.Dict.{Dict, lookup, insert, lookup-insert}

-- What a handler leaves of the state: an exception keeps what it did before.
pub data Ran (W : Type 0) : Type 0 where
  returned raised : W → Ran W

-- `Handler`; W is what handlers change.
pub record Handler (W : Type 0) : Type 0 where
  pub event : Text
  pub fn : W → Ran W
  pub frappe_context : Bool
  pub is_async : Bool
  pub allow_guest : Bool
  pub app : Text

-- `Registry`
pub record Registry (W : Type 0) : Type 0 where
  pub handlers : Dict Text (List (Handler W))
  pub current_app : Text

abbrev pub core_app : Text
core_app = codes "frappe"

abbrev pub is_guest : Text → Bool
is_guest user = user == codes "Guest"

module _ {W : Type 0} where
  abbrev pub empty_registry : Registry W
  empty_registry = record { handlers = []; current_app = core_app }

  abbrev pub or_nothing : Option (List (Handler W)) → List (Handler W)
  or_nothing none = []
  or_nothing (some hs) = hs

  abbrev pub handlers_for : Registry W → Text → List (Handler W)
  handlers_for r event = or_nothing (lookup event r.handlers)

  -- The handler of a registration, and the registry that has it.
  abbrev pub made : Text → Bool → Bool → Bool → (W → Ran W) → Text → Handler W
  made event frappe_context allow_guest is_async fn app = record {
    event = event;
    fn = fn;
    frappe_context = frappe_context;
    is_async = is_async;
    allow_guest = allow_guest;
    app = app;
  }

  abbrev pub registered : Handler W → Registry W → Registry W
  registered h r = record r {
    handlers = insert h.event (handlers_for r h.event ++ h ∷ []) r.handlers;
  }

  -- `Registry.on`: `none` is the TypeError for a coroutine that wants a Frappe context.
  unfoldable pub on : Text → Bool → Bool → Bool → (W → Ran W) → Registry W → Option (Registry W)
  on event frappe_context allow_guest is_async fn r =
      if frappe_context && is_async
      then none
      else some (registered (made event frappe_context allow_guest is_async fn r.current_app) r)

  -- `importing_app`, around an import that may end in an error and leaves a registry either way.
  unfoldable pub importing_app :
      Text → (Registry W → Ran (Registry W)) → Registry W → Ran (Registry W)
  importing_app app body r = elim (body (record r { current_app = app })) [
    | returned after ↦ returned (record after { current_app = r.current_app })
    | raised after ↦ raised (record after { current_app = r.current_app })
  ]

  -- The two tests before a handler is called.
  abbrev pub is_called : List Text → Text → Handler W → Bool
  is_called installed_apps user h =
      contains installed_apps h.app && not (is_guest user && not h.allow_guest)

  -- What the state is after a handler, whose error is only logged.
  abbrev pub state_of : Ran W → W
  state_of (returned w) = w
  state_of (raised w) = w

  unfoldable pub run_handlers : List Text → Text → List (Handler W) → W → W
  run_handlers installed_apps user [] w = w
  run_handlers installed_apps user (h ∷ hs) w =
      if not (contains installed_apps h.app)
      then run_handlers installed_apps user hs w
      else if is_guest user && not h.allow_guest
      then run_handlers installed_apps user hs w
      else run_handlers installed_apps user hs (state_of (h.fn w))

  -- Every handler of a list, in order.
  abbrev pub call_all : List (Handler W) → W → W
  call_all [] w = w
  call_all (h ∷ hs) w = call_all hs (state_of (h.fn w))

  -- An event calls, in the order of their registration, exactly the handlers whose app the site has
  -- installed and which a guest may call if the user is one; an error of one keeps none of the others away.
  pub run_handlers-call_all :
      (installed_apps : List Text) (user : Text) (hs : List (Handler W)) (w : W)
      → run_handlers installed_apps user hs w ≡ call_all (keep (is_called installed_apps user) hs) w
  unfolding run_handlers
  run_handlers-call_all installed_apps user [] w = refl
  run_handlers-call_all installed_apps user (h ∷ hs) w = ground (
    arith,
    run_handlers-call_all installed_apps user hs w,
    run_handlers-call_all installed_apps user hs (state_of (h.fn w)),
  )

  for_event :
      (o : Option (List (Handler W))) (same : Bool) (hs : List (Handler W))
      → or_nothing (if same then some hs else o) ≡ (if same then hs else or_nothing o)
  for_event o true hs = refl
  for_event o false hs = refl

  registered-handlers_for :
      (h : Handler W) (r : Registry W) (other : Text)
      → handlers_for (registered h r) other
        ≡ (if h.event == other then handlers_for r h.event ++ h ∷ [] else handlers_for r other)
  registered-handlers_for h r other =
      rw (lookup-insert h.event other (handlers_for r h.event ++ h ∷ []) r.handlers)
        (for_event (lookup other r.handlers) (h.event == other) (handlers_for r h.event ++ h ∷ []))

  -- A registration puts the handler behind those of its event, under the app that is being imported, and
  -- leaves the handlers of every other event as they were; it is refused just for a coroutine that wants
  -- a Frappe context.
  pub on-handlers_for :
      (event other : Text) (frappe_context allow_guest is_async : Bool) (fn : W → Ran W)
      (r r' : Registry W)
      → on event frappe_context allow_guest is_async fn r ≡ some r'
      → (handlers_for r' other ≡ (
          if event == other
          then handlers_for r event
            ++ made event frappe_context allow_guest is_async fn r.current_app ∷ []
          else handlers_for r other))
        × ((frappe_context && is_async) ≡ false)
  unfolding on
  on-handlers_for event other true allow_guest true fn r r' h = cc
  on-handlers_for event other true allow_guest false fn r r' h =
      let same : registered (made event true allow_guest false fn r.current_app) r ≡ r' = cc in
      (
        rw (← same)
            (registered-handlers_for (made event true allow_guest false fn r.current_app) r other),
        refl,
      )
  on-handlers_for event other false allow_guest is_async fn r r' h =
      let same : registered (made event false allow_guest is_async fn r.current_app) r ≡ r' = cc in
      (
        rw (← same) (
            registered-handlers_for (made event false allow_guest is_async fn r.current_app) r
              other),
        refl,
      )
