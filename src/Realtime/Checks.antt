-- ===== src/Realtime/Checks.antt =====
-- auth.py: what is known of a connection that was let in.
use frappe_nix.Prelude.{
  ℕ, ◌≡◌, refl, ap, sym, subst, ◌∙◌, Bool, true, false, not, ◌||◌, Option, none, some, codes, Text,
  text_eq, ◌==◌, is_empty, lstrip_of, if◌then◌else◌, arith, Bool-cases, inl, inr, ◌⊎◌,
  same_text_iff,
}
use frappe_nix.Prelude.Dict.{lookup, lookup-insert}
use frappe_nix.Realtime.Site.{Environ, given, get_hostname, resolve_site_name}
use frappe_nix.Realtime.Auth.{
  Result, accept, reject, ◌>>=◌, Credentials, same_host, validate_site, validate_origin,
  read_credentials, auth_headers, UserInfo, asks_again, check_user, answer_or_reject, get_user_info,
  Session, Server, make_session, authenticate, invalid_namespace,
}

bind_accept {ℓ κ} :
    {A : Type ℓ} {B : Type κ} (m : Result A) (next : A → Result B) {b : B}
    → (m >>= next) ≡ accept b
    → (a : A) × (m ≡ accept a) × (next a ≡ accept b)
bind_accept (accept a) next h = (a, refl, h)
bind_accept (reject why) next h = cc

same_host-eq : (a b : Option Text) → same_host a b ≡ true → a ≡ b
same_host-eq none none h = refl
same_host-eq none (some b) h = cc
same_host-eq (some a) none h = cc
same_host-eq (some a) (some b) h = ap some ((same_text_iff a b).0 h)

-- The origin check of a connection.
abbrev pub SameOrigin : Environ → Type 0
SameOrigin e =
    (given e.host ≡ true)
    × ((given e.origin ≡ false) ⊎ (get_hostname e.origin ≡ get_hostname e.host))

validate_origin_lem : (e : Environ) (u : Unit {0}) → validate_origin e ≡ accept u → SameOrigin e
unfolding validate_origin
validate_origin_lem e u h = (
  ground (arith, h),
  elim (Bool-cases (given e.origin)) [
    | inr o ↦ inl o
    | inl o ↦
        inr
          (sym (same_host-eq (get_hostname e.host) (get_hostname e.origin) (ground (arith, h, o))))
  ],
)

validate_site_lem :
    (is_site_dir : Text → Bool) (default_site : Text) (e : Environ) (namespace site : Text)
    → validate_site is_site_dir default_site e namespace ≡ accept site
    → (resolve_site_name is_site_dir default_site e ≡ some site)
      × (lstrip_of b'/' namespace ≡ site)
      × (is_empty site ≡ false)
unfolding validate_site
validate_site_lem is_site_dir default_site e namespace site h =
    go (resolve_site_name is_site_dir default_site e) h
  where
    go :
        (r : Option Text)
        → (let v : Result Text = elim r [
          | none ↦ reject invalid_namespace
          | some s ↦
              if is_empty s || not (lstrip_of b'/' namespace == s)
              then reject invalid_namespace
              else accept s
        ] in
            v)
          ≡ accept site
        → (r ≡ some site) × (lstrip_of b'/' namespace ≡ site) × (is_empty site ≡ false)
    go none h' = cc
    go (some s) h' = ground (arith, h', same_text_iff (lstrip_of b'/' namespace) s)

-- The answer that named the user was the first or the second of the web process, to the session's
-- headers.
abbrev pub Answered : (ℕ → Option UserInfo) → UserInfo → Type 0
Answered request info = (request 0 ≡ some info) ⊎ (request 1 ≡ some info)

answer_lem : (o : Option UserInfo) (m : UserInfo) → answer_or_reject o ≡ accept m → o ≡ some m
answer_lem none m h = cc
answer_lem (some x) m h = ground (arith, h)

second_lem :
    (b : Bool) (o : Option UserInfo) (first last : UserInfo)
    → (if b then answer_or_reject o else accept first) ≡ accept last
    → (o ≡ some last) ⊎ (first ≡ last)
second_lem true o first last h = inl (answer_lem o last h)
second_lem false o first last h = inr (ground (arith, h))

check_user_lem :
    (m info : UserInfo) → check_user m ≡ accept info → (m ≡ info) × (is_empty info.user ≡ false)
check_user_lem m info h = elim (Bool-cases (is_empty m.user)) [
  | inl empty ↦ absurd (ground (arith, h, empty))
  | inr full ↦
      let e : m ≡ info = ground (arith, h, full) in
      (e, subst (λ (x : UserInfo). is_empty x.user ≡ false) e full)
]

get_user_info_lem :
    (request : ℕ → Option UserInfo) (info : UserInfo)
    → get_user_info request ≡ accept info
    → Answered request info × (is_empty info.user ≡ false)
unfolding get_user_info
get_user_info_lem request info h =
    let (first, e0, h1) = bind_accept (answer_or_reject (request 0)) _ h in
    let (last, e1, h2) =
      bind_accept (if asks_again first then answer_or_reject (request 1) else accept first) _ h1 in
    let (same, full) = check_user_lem last info h2 in
    (answered first last same e0 (second_lem (asks_again first) (request 1) first last e1), full)
  where
    answered :
        (first last : UserInfo)
        → last ≡ info
        → answer_or_reject (request 0) ≡ accept first
        → (request 1 ≡ some last) ⊎ (first ≡ last)
        → Answered request info
    answered first last same e0 (inl second) = inr (second ∙ ap some same)
    answered first last same e0 (inr only) =
        inl (answer_lem (request 0) first e0 ∙ ap some (only ∙ same))

site_header :
    (c : Credentials) (site secret : Text)
    → lookup (codes "X-Frappe-Site-Name") (auth_headers c site secret) ≡ some site
unfolding auth_headers
site_header c site secret = rw lookup-insert (rw lookup-insert refl)

secret_header :
    (c : Credentials) (site secret : Text)
    → lookup (codes "X-Frappe-Socket-Secret") (auth_headers c site secret) ≡ some secret
unfolding auth_headers
secret_header c site secret = rw lookup-insert refl

-- A connection that is let in has a Host, and its Origin, if it has one, is of the Host's own name; its
-- namespace is the site that the request resolves to; its requests carry that site and the shared
-- secret; and the web process, asked with these headers, named its user.
pub authenticate_sound :
    (srv : Server) (secret : Text) (e : Environ) (namespace : Text) (s : Session)
    → authenticate srv secret e namespace ≡ accept s
    → SameOrigin e
      × (resolve_site_name srv.is_site_dir srv.default_site e ≡ some s.site)
      × (lstrip_of b'/' namespace ≡ s.site)
      × (lookup (codes "X-Frappe-Site-Name") s.request_headers ≡ some s.site)
      × (lookup (codes "X-Frappe-Socket-Secret") s.request_headers ≡ some secret)
      × (is_empty s.user ≡ false)
      × ((info : UserInfo) × (Answered (srv.web s.request_headers) info) × (info.user ≡ s.user))
unfolding authenticate
authenticate_sound srv secret e namespace s h =
    let (site, e1, h1) =
      bind_accept (validate_site srv.is_site_dir srv.default_site e namespace) _ h in
    let (u, e2, h2) = bind_accept (validate_origin e) _ h1 in
    let (c, e3, h3) = bind_accept (read_credentials srv.parse_cookie e) _ h2 in
    let (info, e4, h4) = bind_accept (get_user_info (srv.web (auth_headers c site secret))) _ h3 in
    let made : make_session site (auth_headers c site secret) info ≡ s = ground (arith, h4) in
    let (resolved, space, full) =
      validate_site_lem srv.is_site_dir srv.default_site e namespace site e1 in
    let (answered, user) = get_user_info_lem (srv.web (auth_headers c site secret)) info e4 in
    subst
      (λ (x : Session).
        SameOrigin e
        × (resolve_site_name srv.is_site_dir srv.default_site e ≡ some x.site)
        × (lstrip_of b'/' namespace ≡ x.site)
        × (lookup (codes "X-Frappe-Site-Name") x.request_headers ≡ some x.site)
        × (lookup (codes "X-Frappe-Socket-Secret") x.request_headers ≡ some secret)
        × (is_empty x.user ≡ false)
        × ((i : UserInfo) × (Answered (srv.web x.request_headers) i) × (i.user ≡ x.user)))
      made
      (
        validate_origin_lem e u e2,
        resolved,
        space,
        site_header c site secret,
        secret_header c site secret,
        user,
        (info, answered, refl),
      )
