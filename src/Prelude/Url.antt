-- ===== src/Prelude/Url.antt =====
-- `urllib.parse.urlsplit`, as far as the sources read its result: scheme, netloc and hostname. The
-- `ValueError` for a bracket with no partner is not modelled.
use Prim.Native.Nat.{ℕ}
use mathlib.Core.Bool.{Bool, true, false, ◌&&◌, ◌||◌}
use mathlib.Core.Option.{Option, none, some}
use mathlib.Core.List.{[], ◌∷◌, ◌++◌}
use frappe_nix.Prelude.Tests.{leb, same_number, if◌then◌else◌}
use frappe_nix.Prelude.Lists.{all, keep}
use frappe_nix.Prelude.Texts.{Text, codes, starts_with, lower, partition, after_last}

pub record Split : Type 0 where
  pub scheme : Text
  pub netloc : Text

abbrev is_letter : ℕ → Bool
is_letter c = leb 65 c && leb c 90 || leb 97 c && leb c 122

abbrev is_scheme_char : ℕ → Bool
is_scheme_char c =
    is_letter c
    || leb 48 c && leb c 57
    || same_number c b'+'
    || same_number c b'-'
    || same_number c b'.'

-- Leading control characters and blanks go, and so do tabs and line ends anywhere.
abbrev drop_control : Text → Text
drop_control [] = []
drop_control (c ∷ s) = let rest = drop_control s in if leb c 32 then rest else c ∷ s

abbrev clean : Text → Text
clean s =
    keep (λ c. if same_number c 9 || same_number c 10 || same_number c 13 then false else true)
      (drop_control s)

abbrev is_scheme : Text → Bool
is_scheme [] = false
is_scheme (c ∷ s) = is_letter c && all is_scheme_char s

-- The text before the first `/`, `?` or `#`
abbrev before_path : Text → Text
before_path [] = []
before_path (c ∷ s) =
    let rest = before_path s in
    if same_number c b'/' || same_number c b'?' || same_number c b'#' then [] else c ∷ rest

abbrev drop_slashes : Text → Text
drop_slashes (_ ∷ _ ∷ s) = s
drop_slashes s = []

abbrev netloc_of : Text → Text
netloc_of s = if starts_with s (codes "//") then before_path (drop_slashes s) else []

unfoldable pub urlsplit : Text → Split
urlsplit url =
    let s = clean url in
    let (before, there, after) = partition b':' s in
    if there && is_scheme before
    then record { scheme = lower before; netloc = netloc_of after }
    else record { scheme = []; netloc = netloc_of s }

-- The rest behind the netloc
abbrev after_netloc : Text → Text
after_netloc [] = []
after_netloc (c ∷ s) =
    let rest = after_netloc s in
    if same_number c b'/' || same_number c b'?' || same_number c b'#' then c ∷ s else rest

abbrev before_query : Text → Text
before_query [] = []
before_query (c ∷ s) =
    let rest = before_query s in if same_number c b'?' || same_number c b'#' then [] else c ∷ rest

abbrev path_of : Text → Text
path_of s = before_query (if starts_with s (codes "//") then after_netloc (drop_slashes s) else s)

-- `urlsplit(url).path`
unfoldable pub url_path : Text → Text
url_path url =
    let s = clean url in
    let (first, there, rest) = partition b':' s in
    if there && is_scheme first then path_of rest else path_of s

abbrev host_before_port : Text → Text
host_before_port info =
    let (a, bracket, inside) = partition b'[' info in
    let (in_brackets, b, c) = partition b']' inside in
    let (host, d, port) = partition b':' info in if bracket then in_brackets else host

abbrev some_host : Text → Option Text
some_host [] = none
some_host (c ∷ host) =
    let (name, zone, rest) = partition b'%' (c ∷ host) in
    some (if zone then lower name ++ b'%' ∷ rest else lower name)

unfoldable pub hostname : Split → Option Text
hostname s = some_host (host_before_port (after_last b'@' s.netloc))
