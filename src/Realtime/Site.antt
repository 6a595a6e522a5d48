-- ===== src/Realtime/Site.antt =====
-- runtime/src/frappe_runtime/util.py: headers, hostnames, and the site of a request. Which names are sites of the
-- bench is the file system's answer, `is_site_dir`.
use frappe_nix.Prelude.{
  ◌≡◌, refl, Bool, false, not, ◌&&◌, Option, none, some, [], ◌∷◌, ◌++◌, codes, Text, has_text,
  is_empty, if◌then◌else◌, arith, inl, inr, ◌⊎◌,
}
use frappe_nix.Prelude.Url.{urlsplit, hostname}

-- The headers that are read, as the WSGI environ has them.
pub record Environ : Type 0 where
  pub site_name : Option Text
  pub origin : Option Text
  pub host : Option Text
  pub cookie : Option Text
  pub authorization : Option Text

-- `bool` of an optional text
abbrev pub given : Option Text → Bool
given none = false
given (some t) = not (is_empty t)

-- `a or b`
abbrev pub or_else : Option Text → Option Text → Option Text
or_else none b = b
or_else (some []) b = b
or_else (some (c ∷ t)) b = some (c ∷ t)

abbrev pub host_of_url : Text → Option Text
host_of_url url =
    if not (has_text url (codes "://"))
    then hostname (urlsplit (codes "//" ++ url))
    else hostname (urlsplit url)

unfoldable pub get_hostname : Option Text → Option Text
get_hostname none = none
get_hostname (some []) = none
get_hostname (some (c ∷ url)) = host_of_url (c ∷ url)

module _ (is_site_dir : Text → Bool) where
  unfoldable pub is_site : Option Text → Bool
  is_site none = false
  is_site (some name) = not (is_empty name) && is_site_dir name

  unfoldable pub resolve_site_name : Text → Environ → Option Text
  resolve_site_name default_site e =
      let candidate = or_else (get_hostname e.origin) (get_hostname e.host) in
      if given e.site_name
      then get_hostname e.site_name
      else if not (is_empty default_site) && not (is_site candidate)
      then some default_site
      else candidate

  -- `with_default_site` of `default_site_middleware`: the environ that the web app gets.
  unfoldable pub with_default_site : Text → Environ → Environ
  with_default_site default_site e =
      if is_empty default_site
      then e
      else if not (given e.site_name) && not (is_site (get_hostname e.host))
      then record e { site_name = some default_site }
      else e

-- The site that frappe gives a request, as its documentation states it: the header, else the Host.
abbrev pub web_site : Environ → Option Text
web_site e = if given e.site_name then e.site_name else get_hostname e.host

-- A socket without a site header, and with no Origin or one of the Host's own name, lands on the site
-- that the web app serves to the same Host.
pub resolve_site_name-eq-web_site :
    (is_site_dir : Text → Bool) (default_site : Text) (e : Environ)
    → given e.site_name ≡ false
    → (get_hostname e.origin ≡ none) ⊎ (get_hostname e.origin ≡ get_hostname e.host)
    → resolve_site_name is_site_dir default_site e
      ≡ web_site (with_default_site is_site_dir default_site e)
unfolding resolve_site_name with_default_site
resolve_site_name-eq-web_site is_site_dir default_site e n o = ground (arith, n, candidate o)
  where
    same : (h : Option Text) → or_else h h ≡ h
    same none = refl
    same (some []) = refl
    same (some (c ∷ t)) = refl

    candidate :
        (get_hostname e.origin ≡ none) ⊎ (get_hostname e.origin ≡ get_hostname e.host)
        → or_else (get_hostname e.origin) (get_hostname e.host) ≡ get_hostname e.host
    candidate (inl a) = rw a refl
    candidate (inr b) = rw b (same (get_hostname e.host))
