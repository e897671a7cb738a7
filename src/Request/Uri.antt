-- ===== src/Request/Uri.antt =====
-- request.c: `requestParseURI` and `requestGetFiletype`.
pub mod Safety
use operating_systems_wet.Base.{
  ℕ, ◌==◌, Bool, true, false, if◌then◌else◌, List, [], ◌∷◌, ◌++◌, Option, none, some,
}
use operating_systems_wet.Base.Bytes.{codes, strstr}

-- `index(uri, '?')`: the bytes before it and those behind it.
abbrev pub before_question : List ℕ → List ℕ
before_question [] = []
before_question (c ∷ s) = if c == b'?' then [] else c ∷ before_question s

abbrev pub after_question : List ℕ → Option (List ℕ)
after_question [] = none
after_question (c ∷ s) = if c == b'?' then some s else after_question s

-- `uri[strlen(uri) - 1]`: the last byte, or the byte in memory before the text where it is empty.
abbrev pub last_byte : ℕ → List ℕ → ℕ
last_byte below [] = below
last_byte below (c ∷ s) = last_byte c s

-- The texts that `requestParseURI` leaves in `filename` and `cgiargs`, and what it returns: whether
-- the content is static. On the first branch `cgiargs` keeps what it held.
pub record Target : Type 0 where
  pub filename : List ℕ
  pub cgiargs : List ℕ
  pub is_static : Bool

abbrev pub public_dir : List ℕ
public_dir = codes "./public/"

abbrev pub cgi_args : Option (List ℕ) → List ℕ
cgi_args none = []
cgi_args (some args) = args

unfoldable pub request_parse_uri : ℕ → List ℕ → List ℕ → Target
request_parse_uri below uri cgiargs =
    if strstr uri (codes "..")
    then record { filename = codes "./public/home.html"; cgiargs = cgiargs; is_static = true }
    else if strstr uri (codes "cgi")
    then record {
      filename = public_dir ++ before_question uri;
      cgiargs = cgi_args (after_question uri);
      is_static = false;
    }
    else record {
      filename =
          if last_byte below uri == b'/'
          then (public_dir ++ uri) ++ codes "home.html"
          else public_dir ++ uri;
      cgiargs = [];
      is_static = true;
    }

unfoldable pub request_get_filetype : List ℕ → List ℕ
request_get_filetype filename =
    if strstr filename (codes ".html")
    then codes "text/html"
    else if strstr filename (codes ".gif")
    then codes "image/gif"
    else if strstr filename (codes ".jpg")
    then codes "image/jpeg"
    else codes "text/plain"
