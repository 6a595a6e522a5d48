-- ===== src/Prelude/UrlTests.antt =====
-- Runs of the text functions.
use frappe_nix.Prelude.{◌≡◌, refl, some, codes, strip}
use frappe_nix.Prelude.Url.{urlsplit, hostname}

host_port : hostname (urlsplit (codes "https://User@LocalHost:9000/x?y")) ≡ some (codes "localhost")
unfolding urlsplit hostname
host_port = refl

host_v6 : hostname (urlsplit (codes "http://[::1]:80")) ≡ some (codes "::1")
unfolding urlsplit hostname
host_v6 = refl

strip_blanks : strip (codes "  a b ") ≡ codes "a b"
strip_blanks = refl
