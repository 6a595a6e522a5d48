-- ===== src/Realtime/Auth.antt =====
-- runtime/src/frappe_runtime/auth.py: the checks of a connection, in order. The web process is a function from a
-- request's headers and the number of the call to its answer, the cookie parser is the standard library's, and
-- redis holds at most one shared secret.
use frappe_nix.Realtime.Args.{Arg}
use frappe_nix.Prelude.{
  ℕ, Bool, true, false, not, ◌&&◌, ◌||◌, Option, none, some, List, [], ◌∷◌, ◌++◌, codes, Text,
  text_eq, ◌==◌, is_empty, lstrip_of, if◌then◌else◌,
}
use frappe_nix.Prelude.Dict.{Dict, insert}
use frappe_nix.Realtime.Site.{Environ, given, get_hostname, resolve_site_name}

-- The messages of `ConnectionRefusedError`.
pub data Refusal : Type 0 where
  invalid_namespace invalid_origin missing_headers no_authentication unauthorized : Refusal

pub data Result {ℓ} (A : Type ℓ) : Type ℓ where
  accept : A → Result A
  reject : Refusal → Result A

infixl 10 ◌>>=◌
abbrev pub ◌>>=◌ {ℓ κ} : {A : Type ℓ} {B : Type κ} → Result A → (A → Result B) → Result B
accept a >>= next = next a
reject why >>= next = reject why

pub record Credentials : Type 0 where
  pub sid : Option Text
  pub authorization : Option Text

abbrev pub text_or_empty : Option Text → Text
text_or_empty none = []
text_or_empty (some t) = t

-- `Credentials.headers`
unfoldable pub headers : Credentials → Dict Text Text
headers c =
    if given c.authorization
    then (codes "Authorization", text_or_empty c.authorization) ∷ []
    else if given c.sid
    then (codes "Cookie", codes "sid=" ++ text_or_empty c.sid) ∷ []
    else []

abbrev pub same_host : Option Text → Option Text → Bool
same_host none none = true
same_host (some a) (some b) = a == b
same_host _ _ = false

unfoldable pub validate_site : (Text → Bool) → Text → Environ → Text → Result Text
validate_site is_site_dir default_site e namespace =
    elim (resolve_site_name is_site_dir default_site e) [
      | none ↦ reject invalid_namespace
      | some site ↦
          if is_empty site || not (lstrip_of b'/' namespace == site)
          then reject invalid_namespace
          else accept site
    ]

unfoldable pub validate_origin : Environ → Result (Unit {0})
validate_origin e =
    if not (given e.host)
    then reject invalid_origin
    else if given e.origin && not (same_host (get_hostname e.host) (get_hostname e.origin))
    then reject invalid_origin
    else accept tt

unfoldable pub read_sid : (Text → Option Text) → Option Text → Option Text
read_sid parse_cookie none = none
read_sid parse_cookie (some []) = none
read_sid parse_cookie (some (c ∷ header)) = parse_cookie (c ∷ header)

unfoldable pub read_credentials : (Text → Option Text) → Environ → Result Credentials
read_credentials parse_cookie e =
    let c : Credentials = record {
      sid = read_sid parse_cookie e.cookie;
      authorization = e.authorization;
    } in
    if not (given e.cookie) && not (given e.authorization)
    then reject missing_headers
    else if not (given c.sid) && not (given c.authorization)
    then reject no_authentication
    else accept c

-- `get_socketio_secret`: the secret and what redis holds after, for a fresh random text.
abbrev pub get_socketio_secret : Text → Option Text → Text × Option Text
get_socketio_secret random (some value) = (value, some value)
get_socketio_secret random none = (random, some random)

-- `_auth_headers`
unfoldable pub auth_headers : Credentials → Text → Text → Dict Text Text
auth_headers c site secret =
    insert (codes "X-Frappe-Socket-Secret") secret
      (insert (codes "X-Frappe-Site-Name") site (headers c))

-- The `message` of get_user_info; an empty user is a missing one.
pub record UserInfo : Type 0 where
  pub user : Text
  pub user_type : Option Text
  pub installed_apps : List Text

abbrev pub no_info : UserInfo
no_info = record { user = []; user_type = none; installed_apps = [] }

abbrev pub no_apps : List Text → Bool
no_apps [] = true
no_apps (a ∷ apps) = false

abbrev pub asks_again : UserInfo → Bool
asks_again m = not (is_empty m.user) && not (m.user == codes "Guest") && no_apps m.installed_apps

abbrev pub check_user : UserInfo → Result UserInfo
check_user m = if is_empty m.user then reject unauthorized else accept m

abbrev pub answer_or_reject : Option UserInfo → Result UserInfo
answer_or_reject none = reject unauthorized
answer_or_reject (some m) = accept m

-- `_get_user_info`: `none` is an exception of the request.
unfoldable pub get_user_info : (ℕ → Option UserInfo) → Result UserInfo
get_user_info request = do
  first ← answer_or_reject (request 0)
  last ← (if asks_again first then answer_or_reject (request 1) else accept first)
  check_user last

-- `Session`, with the one value that handlers keep in its `data` bag.
pub record Session : Type 0 where
  pub site : Text
  pub user : Text
  pub user_type : Option Text
  pub installed_apps : List Text
  pub request_headers : Dict Text Text
  pub subscribed_documents : List (Arg × Arg)

pub record Server : Type 0 where
  pub is_site_dir : Text → Bool
  pub default_site : Text
  pub parse_cookie : Text → Option Text
  pub web : Dict Text Text → ℕ → Option UserInfo

abbrev pub make_session : Text → Dict Text Text → UserInfo → Session
make_session site hs info = record {
  site = site;
  user = info.user;
  user_type = info.user_type;
  installed_apps = info.installed_apps;
  request_headers = hs;
  subscribed_documents = [];
}

unfoldable pub authenticate : Server → Text → Environ → Text → Result Session
authenticate srv secret e namespace = do
  site ← validate_site srv.is_site_dir srv.default_site e namespace
  allowed ← validate_origin e
  credentials ← read_credentials srv.parse_cookie e
  info ← get_user_info (srv.web (auth_headers credentials site secret))
  accept (make_session site (auth_headers credentials site secret) info)
