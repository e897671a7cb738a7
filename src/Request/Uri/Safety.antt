-- ===== src/Request/Uri/Safety.antt =====
-- Which files a URI can name.
use operating_systems_wet.Base.{
  ℕ, ◌≤◌, ◌<◌, ◌==◌, ◌≡◌, refl, Bool, true, false, ◌||◌, not, ==_iff, Bool-cases, inl, inr, List,
  [], ◌∷◌, ◌++◌, arith, length, length-append,
}
use operating_systems_wet.Base.Bytes.{codes, strstr}
use operating_systems_wet.Request.Uri.{before_question, last_byte, public_dir, request_parse_uri}

abbrev pub dots : List ℕ
dots = codes ".."

-- A text that ends in a byte other than a dot can be followed by one that has no "..".
strstr-append_slash :
    (below : ℕ) (s t : List ℕ)
    → last_byte below s ≡ b'/'
    → strstr s dots ≡ false
    → strstr t dots ≡ false
    → strstr (s ++ t) dots ≡ false
strstr-append_slash below [] t e hs ht = ht
strstr-append_slash below (c ∷ []) t e hs ht = ground arith
strstr-append_slash below (c ∷ d ∷ s) t e hs ht = ground (arith, strstr-append_slash c (d ∷ s) t e)

-- Nor does cutting a text make one.
strstr-before_question :
    (s : List ℕ) → strstr s dots ≡ false → strstr (before_question s) dots ≡ false
strstr-before_question [] h = refl
strstr-before_question (c ∷ []) h = ground arith
strstr-before_question (c ∷ d ∷ s) h = ground (arith, strstr-before_question (d ∷ s))

last_byte-slash : (below : ℕ) (s : List ℕ) → last_byte below s ≡ b'/' → last_byte b'/' s ≡ b'/'
last_byte-slash below [] e = refl
last_byte-slash below (c ∷ s) e = e

-- A file name below the public directory, with no way out of it.
abbrev pub StaysPublic : List ℕ → Type 0
StaysPublic name = (strstr name dots ≡ false) × (rest : List ℕ) × (name ≡ public_dir ++ rest)

StaysPublic-plain : (uri : List ℕ) → strstr uri dots ≡ false → StaysPublic (public_dir ++ uri)
StaysPublic-plain uri h = (h, uri, refl)

StaysPublic-home :
    (below : ℕ) (uri : List ℕ)
    → strstr uri dots ≡ false
    → last_byte below uri ≡ b'/'
    → StaysPublic ((public_dir ++ uri) ++ codes "home.html")
StaysPublic-home below uri h e = (
  strstr-append_slash 0 (public_dir ++ uri) (codes "home.html") (last_byte-slash below uri e) h
      refl,
  uri ++ codes "home.html",
  refl,
)

-- Whatever the URI is, the file that is looked up lies below the public directory, and its name has
-- no ".." in it.
pub request_parse_uri-StaysPublic :
    (below : ℕ) (uri cgiargs : List ℕ) → StaysPublic (request_parse_uri below uri cgiargs).filename
unfolding request_parse_uri
request_parse_uri-StaysPublic below uri cgiargs = elim (Bool-cases (strstr uri dots)) [
  | inl up ↦ rw up (refl, codes "home.html", refl)
  | inr plain ↦ elim (Bool-cases (strstr uri (codes "cgi"))) [
    | inl cgi ↦
        rw (plain, cgi) (StaysPublic-plain (before_question uri) (strstr-before_question uri plain))
    | inr static ↦ elim (Bool-cases (last_byte below uri == b'/')) [
      | inl slash ↦
          rw (plain, static, slash)
            (StaysPublic-home below uri plain ((==_iff (last_byte below uri) b'/').0 slash))
      | inr file ↦ rw (plain, static, file) (StaysPublic-plain uri plain)
    ]
  ]
]

-- A URI with "cgi" and no ".." is taken for a program, every other URI for a static file.
pub is_static-request_parse_uri :
    (below : ℕ) (uri cgiargs : List ℕ)
    → (request_parse_uri below uri cgiargs).is_static
      ≡ (strstr uri dots || not (strstr uri (codes "cgi")))
unfolding request_parse_uri
is_static-request_parse_uri below uri cgiargs =
    by_cases (strstr uri dots) (strstr uri (codes "cgi")) refl refl
  where
    by_cases :
        (d c : Bool)
        → strstr uri dots ≡ d
        → strstr uri (codes "cgi") ≡ c
        → (request_parse_uri below uri cgiargs).is_static
          ≡ (strstr uri dots || not (strstr uri (codes "cgi")))
    by_cases true c e f = rw e
    by_cases false true e f = rw (e, f)
    by_cases false false e f = rw (e, f)

length-before_question : (s : List ℕ) → length (before_question s) ≤ length s
length-before_question [] = omega arith
length-before_question (c ∷ s) = ground (arith, length-before_question s)

-- A URI of at most 8173 bytes fits `filename`, which has room for 8192 with the zero.
pub filename_fits :
    (below : ℕ) (uri cgiargs : List ℕ)
    → length uri ≤ 8173
    → length (request_parse_uri below uri cgiargs).filename < 8192
unfolding request_parse_uri
filename_fits below uri cgiargs h =
    ground (arith, length-before_question uri, length-append uri (codes "home.html"))

-- A URI of 8183 bytes or more with neither ".." nor "cgi" in it gives a file name of 8192 bytes or
-- more, which does not fit `filename` with its zero.
pub filename_overflows :
    (below : ℕ) (uri cgiargs : List ℕ)
    → strstr uri dots ≡ false
    → strstr uri (codes "cgi") ≡ false
    → 8183 ≤ length uri
    → 8192 ≤ length (request_parse_uri below uri cgiargs).filename
unfolding request_parse_uri
filename_overflows below uri cgiargs plain static h =
    ground (arith, length-append uri (codes "home.html"))
