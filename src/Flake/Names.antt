-- ===== src/Flake/Names.antt =====
-- flakelock.py: the patterns that names, owners, hosts and commits match.
use frappe_nix.Prelude.{
  ℕ, Bool, true, false, not, ◌&&◌, ◌||◌, [], ◌∷◌, all, Text, text_eq, number_eq, string_eq, ◌==◌,
  is_empty, length, leb, if◌then◌else◌,
}

abbrev pub is_digit : ℕ → Bool
is_digit c = leb b'0' c && leb c b'9'

abbrev pub is_host_char : ℕ → Bool
is_host_char c =
    leb b'A' c && leb c b'Z' || leb b'a' c && leb c b'z' || is_digit c || c == b'.' || c == b'-'

abbrev pub is_name_char : ℕ → Bool
is_name_char c = is_host_char c || c == b'_'

-- `_NAME`
unfoldable pub is_name : Text → Bool
is_name s = not (is_empty s) && all is_name_char s

abbrev pub is_percent_slash : ℕ → ℕ → ℕ → Bool
is_percent_slash a b c = a == b'%' && b == b'2' && c == b'F'

-- `_GITLAB_OWNER`: names with `/` or `%2F` between them; the flag is whether a name has begun.
abbrev pub owner_from : Bool → Text → Bool
owner_from begun [] = begun
owner_from begun (a ∷ []) = is_name_char a
owner_from begun (a ∷ b ∷ []) =
    let rest = owner_from true (b ∷ []) in
    let next = owner_from false (b ∷ []) in
    if is_name_char a then rest else begun && a == b'/' && next
owner_from begun (a ∷ b ∷ c ∷ s) =
    let rest = owner_from true (b ∷ c ∷ s) in
    let next = owner_from false (b ∷ c ∷ s) in
    let decoded = owner_from false s in
    if is_name_char a
    then rest
    else begun && (a == b'/' && next || is_percent_slash a b c && decoded)

unfoldable pub is_gitlab_owner : Text → Bool
is_gitlab_owner s = owner_from false s

-- `_HOST`: a host, and the digits of a port; the state is where the text stands.
abbrev pub port_from : Text → Bool
port_from s = not (is_empty s) && all is_digit s

abbrev pub host_from : Bool → Text → Bool
host_from begun [] = begun
host_from begun (c ∷ s) =
    let rest = host_from true s in
    if is_host_char c then rest else begun && c == b':' && port_from s

unfoldable pub is_host : Text → Bool
is_host s = host_from false s

abbrev pub is_hex : ℕ → Bool
is_hex c = is_digit c || leb b'a' c && leb c b'f'

-- `_REV`
unfoldable pub is_rev : Text → Bool
is_rev s = length s == 40 && all is_hex s
