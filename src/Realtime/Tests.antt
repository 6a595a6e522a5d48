-- ===== src/Realtime/Tests.antt =====
-- The connect path at concrete requests.
use frappe_nix.Prelude.{
  ◌≡◌, refl, Bool, false, none, some, List, [], ◌∷◌, codes, Text, text_eq, ◌==◌, is_empty,
  lstrip_of, inr,
}
use frappe_nix.Prelude.Dict.{lookup}
use frappe_nix.Prelude.Url.{urlsplit, hostname}
use frappe_nix.Realtime.Site.{
  Environ, get_hostname, is_site, resolve_site_name, with_default_site, web_site,
  resolve_site_name-eq-web_site,
}
use frappe_nix.Realtime.Auth.{
  accept, reject, invalid_origin, UserInfo, Session, Server, headers, auth_headers, validate_site,
  validate_origin, read_credentials, read_sid, get_user_info, make_session, authenticate,
}
use frappe_nix.Realtime.Checks.{SameOrigin, Answered, authenticate_sound}

abbrev sites : Text → Bool
sites name = name == codes "a.test"

abbrev pub page : Environ
page = record {
  site_name = none;
  origin = some (codes "https://a.test:8000");
  host = some (codes "a.test");
  cookie = some (codes "sid=1");
  authorization = none;
}

abbrev info : UserInfo
info = record {
  user = codes "ada";
  user_type = some (codes "System User");
  installed_apps = codes "frappe" ∷ [];
}

abbrev pub server : Server
server = record {
  is_site_dir = sites;
  default_site = codes "b.test";
  parse_cookie = λ header. some (codes "1");
  web = λ hs n. some info;
}

abbrev cookie_headers : List (Text × Text)
cookie_headers =
    (codes "Cookie", codes "sid=1")
    ∷ (codes "X-Frappe-Site-Name", codes "a.test")
    ∷ (codes "X-Frappe-Socket-Secret", codes "s")
    ∷ []

abbrev pub session : Session
session = make_session (codes "a.test") cookie_headers info

pub lets_in : authenticate server (codes "s") page (codes "/a.test") ≡ accept session
unfolding authenticate validate_site validate_origin read_credentials read_sid get_user_info
    auth_headers headers resolve_site_name is_site get_hostname urlsplit hostname
lets_in = refl

authenticate_sound_example :
    SameOrigin page
    × (resolve_site_name sites (codes "b.test") page ≡ some (codes "a.test"))
    × (lstrip_of b'/' (codes "/a.test") ≡ codes "a.test")
    × (lookup (codes "X-Frappe-Site-Name") cookie_headers ≡ some (codes "a.test"))
    × (lookup (codes "X-Frappe-Socket-Secret") cookie_headers ≡ some (codes "s"))
    × (is_empty (codes "ada") ≡ false)
    × ((i : UserInfo) × (Answered (λ n. some info) i) × (i.user ≡ codes "ada"))
authenticate_sound_example =
    authenticate_sound server (codes "s") page (codes "/a.test") session lets_in

cross_site :
    authenticate server
      (codes "s")
      (record page { origin = some (codes "https://evil.test"); site_name = some (codes "a.test") })
      (codes "/a.test")
    ≡ reject invalid_origin
unfolding authenticate validate_site validate_origin read_credentials read_sid get_user_info
    auth_headers headers resolve_site_name is_site get_hostname urlsplit hostname
cross_site = refl

abbrev lan : Environ
lan = record page {
  origin = some (codes "http://myhost.lan:8000");
  host = some (codes "myhost.lan:8000");
}

resolve_site_name-eq-web_site_example :
    resolve_site_name sites (codes "b.test") lan
    ≡ web_site (with_default_site sites (codes "b.test") lan)
unfolding get_hostname urlsplit hostname
resolve_site_name-eq-web_site_example =
    resolve_site_name-eq-web_site sites (codes "b.test") lan refl (inr refl)
