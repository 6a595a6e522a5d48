-- ===== src/Pins/Token.antt =====
-- pins.py: where the fetch token goes. Which texts are loopback addresses is the `ipaddress` module's answer,
-- `is_loopback_ip`; a redirect that urllib itself refuses is the end of the list of redirects.
use frappe_nix.Prelude.{
  ◌≡◌, refl, ◌∙◌, sym, Bool, true, false, not, ◌&&◌, ◌||◌, Option, none, some, List, [], ◌∷◌, codes,
  Text, text_eq, ◌==◌, is_empty, lower, if◌then◌else◌, arith, All, same_text_iff,
}
use frappe_nix.Prelude.Url.{urlsplit, hostname}

module _ (is_loopback_ip : Text → Bool) where
  abbrev pub loopback_host : Option Text → Bool
  loopback_host none = false
  loopback_host (some host) = if host == codes "localhost" then true else is_loopback_ip host

  -- `_may_carry_token`
  unfoldable pub may_carry_token : Text → Bool
  may_carry_token url =
      let parts = urlsplit url in
      if parts.scheme == codes "https"
      then true
      else if not (parts.scheme == codes "http")
      then false
      else loopback_host (hostname parts)

  -- `_origin`: both parts in lower case
  unfoldable pub scheme_of : Text → Text
  scheme_of url = lower (urlsplit url).scheme

  unfoldable pub netloc_of : Text → Text
  netloc_of url = lower (urlsplit url).netloc

  abbrev pub same_origin : Text → Text → Bool
  same_origin a b = scheme_of a == scheme_of b && netloc_of a == netloc_of b

  -- `redirect_request`: `none` is the refusal of a redirect from https, and otherwise whether the new
  -- request has the token.
  unfoldable pub redirect_request : Text → Bool → Text → Option Bool
  redirect_request old has_token new =
      if scheme_of old == codes "https" && not (scheme_of new == codes "https")
      then none
      else if not (same_origin old new) || not (may_carry_token new)
      then some false
      else some has_token

  -- The requests that follow one, each with whether it has the token.
  unfoldable pub follow : Text → Bool → List Text → List (Text × Bool)
  follow old has_token [] = []
  follow old has_token (new ∷ news) = elim (redirect_request old has_token new) [
    | none ↦ []
    | some kept ↦ (new, kept) ∷ follow new kept news
  ]

  -- The requests of one fetch over its redirects.
  unfoldable pub fetch : Text → Text → List Text → List (Text × Bool)
  fetch token url redirects =
      let has_token = not (is_empty token) && may_carry_token url in
      (url, has_token) ∷ follow url has_token redirects

  -- A request that has the token goes where the token may go, and to the first request's origin.
  abbrev pub KeepsToken : Text → Text × Bool → Type 0
  KeepsToken first (url, false) = Unit
  KeepsToken first (url, true) =
      (may_carry_token url ≡ true)
      × (scheme_of url ≡ scheme_of first)
      × (netloc_of url ≡ netloc_of first)

  keeps_intro :
      (first url : Text) (has_token : Bool)
      → (has_token ≡ true
          → (may_carry_token url ≡ true)
            × (scheme_of url ≡ scheme_of first)
            × (netloc_of url ≡ netloc_of first))
      → KeepsToken first (url, has_token)
  keeps_intro first url false h = tt
  keeps_intro first url true h = h refl

  keeps_origin :
      (first url : Text) (has_token : Bool)
      → KeepsToken first (url, has_token)
      → has_token ≡ true
      → (scheme_of url ≡ scheme_of first) × (netloc_of url ≡ netloc_of first)
  keeps_origin first url false k h = cc
  keeps_origin first url true (m, s, n) h = (s, n)

  abbrev SameOrigin : Text → Text → Type 0
  SameOrigin first url = (scheme_of url ≡ scheme_of first) × (netloc_of url ≡ netloc_of first)

  redirect_keeps :
      (first old new : Text) (has_token kept : Bool)
      → redirect_request old has_token new ≡ some kept
      → (has_token ≡ true → SameOrigin first old)
      → KeepsToken first (new, kept)
  unfolding redirect_request
  redirect_keeps first old new has_token kept h o = keeps_intro first new kept λ k.
      let may : may_carry_token new ≡ true = ground (arith, h, k) in
      let had : has_token ≡ true = ground (arith, h, k) in
      let same : same_origin old new ≡ true = ground (arith, h, k) in
      let (s, n) = o had in
      (
        may,
        sym ((same_text_iff (scheme_of old) (scheme_of new)).0 (ground (arith, same))) ∙ s,
        sym ((same_text_iff (netloc_of old) (netloc_of new)).0 (ground (arith, same))) ∙ n,
      )

  follow_keeps :
      (first old : Text) (has_token : Bool) (news : List Text)
      → (has_token ≡ true → SameOrigin first old)
      → All (KeepsToken first) (follow old has_token news)
  unfolding follow
  follow_keeps first old has_token [] o = tt
  follow_keeps first old has_token (new ∷ news) o =
      go (redirect_request old has_token new)
        (λ kept e. redirect_keeps first old new has_token kept e o)
        (λ kept. follow_keeps first new kept news)
    where
      go :
          (r : Option Bool)
          → ((kept : Bool) → r ≡ some kept → KeepsToken first (new, kept))
          → ((kept : Bool)
              → (kept ≡ true → SameOrigin first new)
              → All (KeepsToken first) (follow new kept news))
          → All (KeepsToken first) (
              let l : List (Text × Bool) = elim r [
                | none ↦ []
                | some kept ↦ (new, kept) ∷ follow new kept news
              ] in
              l)
      go none keeps rest = tt
      go (some kept) keeps rest =
          (keeps kept refl, rest kept (keeps_origin first new kept (keeps kept refl)))

  -- Whatever a server redirects to, every request of the fetch that has the token goes over https or to
  -- a loopback address, and to the scheme, host and port of the first request.
  pub fetch-KeepsToken :
      (token url : Text) (redirects : List Text) → All (KeepsToken url) (fetch token url redirects)
  unfolding fetch
  fetch-KeepsToken token url redirects = (
    keeps_intro url url (not (is_empty token) && may_carry_token url)
        (λ h. (ground (arith, h), refl, refl)),
    follow_keeps url url (not (is_empty token) && may_carry_token url) redirects
        (λ h. (refl, refl)),
  )

  redirect_https :
      (old new : Text) (has_token kept : Bool)
      → (scheme_of old == codes "https") ≡ true
      → redirect_request old has_token new ≡ some kept
      → (scheme_of new == codes "https") ≡ true
  unfolding redirect_request
  redirect_https old new has_token kept h e = ground (arith, h, e)

  follow_https :
      (old : Text) (has_token : Bool) (news : List Text)
      → (scheme_of old == codes "https") ≡ true
      → All (λ (u, t). (scheme_of u == codes "https") ≡ true) (follow old has_token news)
  unfolding follow
  follow_https old has_token [] h = tt
  follow_https old has_token (new ∷ news) h =
      go (redirect_request old has_token new) (λ kept e. redirect_https old new has_token kept h e)
        (λ kept. follow_https new kept news)
    where
      go :
          (r : Option Bool)
          → ((kept : Bool) → r ≡ some kept → (scheme_of new == codes "https") ≡ true)
          → ((kept : Bool)
              → (scheme_of new == codes "https") ≡ true
              → All (λ (u, t). (scheme_of u == codes "https") ≡ true) (follow new kept news))
          → All
              (λ (u, t). (scheme_of u == codes "https") ≡ true)
              (let l : List (Text × Bool) = elim r [
                | none ↦ []
                | some kept ↦ (new, kept) ∷ follow new kept news
              ] in
                l)
      go none stays rest = tt
      go (some kept) stays rest = (stays kept refl, rest kept (stays kept refl))

  -- A fetch that begins over https never asks anything but https.
  pub fetch_https :
      (token url : Text) (redirects : List Text)
      → (scheme_of url == codes "https") ≡ true
      → All (λ (u, t). (scheme_of u == codes "https") ≡ true) (fetch token url redirects)
  unfolding fetch
  fetch_https token url redirects h =
      (h, follow_https url (not (is_empty token) && may_carry_token url) redirects h)
