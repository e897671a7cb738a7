-- ===== src/Client/Fits.antt =====
-- Requests that fit the buffers on their way: those of client.c, and those of request.c.
use operating_systems_wet.Base.{
  ℕ, ◌+◌, ◌≤◌, ◌<◌, ◌≡◌, ◌==◌, true, Bool-cases, inl, inr, List, [], ◌∷◌, ◌++◌, length,
  length-append, arith,
}
use operating_systems_wet.Base.Bytes.{codes, strstr}
use operating_systems_wet.Rio.Line.Text.{in_line}
use operating_systems_wet.Request.Stats.{crlf}
use operating_systems_wet.Request.Headers.{maxline}
use operating_systems_wet.Request.Uri.{
  public_dir, before_question, after_question, cgi_args, last_byte, request_parse_uri,
}
use operating_systems_wet.Request.Answer.{error_body}
use operating_systems_wet.Client.{request_text, host_lines, request_line, maxbuf}
use operating_systems_wet.Client.Roundtrip.{is_plain, length-request_line}

-- A method and a name that are words of a C string, and a host name in one line, short enough for the
-- buffer in which the client prints its request; and the method and the name are so short that the page
-- of an error, into which the server prints one of them, fits its buffer as well.
pub record IsAsked (method filename hostname : List ℕ) : Type 0 where
  pub plain_method : is_plain method ≡ true
  pub plain_filename : is_plain filename ≡ true
  pub lined_host : in_line hostname ≡ true
  pub some_method : 0 < length method
  pub some_filename : 0 < length filename
  pub short : length method + length filename < 8000
  pub short_request : length method + length filename + length hostname < 8172

length-request_text :
    (method filename hostname : List ℕ)
    → length (request_text method filename hostname)
      ≡ length method + length filename + length hostname + 20
length-request_text method filename hostname = omega (
  arith,
  length-append (request_line method filename) (b'\n' ∷ host_lines hostname),
  length-request_line method filename,
  length-append hostname (b'\n' ∷ crlf),
)

length-before_question : (uri : List ℕ) → length (before_question uri) ≤ length uri
length-before_question [] = omega arith
length-before_question (c ∷ s) = ground (arith, length-before_question s)

length-cgi_args : (uri : List ℕ) → length (cgi_args (after_question uri)) ≤ length uri
length-cgi_args [] = omega arith
length-cgi_args (c ∷ s) = ground (arith, length-cgi_args s)

length-error_body :
    (cause errnum shortmsg longmsg : List ℕ)
    → length (error_body cause errnum shortmsg longmsg)
      ≡ length cause + length errnum + length shortmsg + length longmsg + 89
unfolding error_body
length-error_body cause errnum shortmsg longmsg =
    let e = crlf ++ (codes "<hr>OS-HW3 Web Server" ++ crlf) in
    let d = codes ": " ++ (cause ++ e) in
    let c = crlf ++ (codes "<p>" ++ (longmsg ++ d)) in
    let b = codes ": " ++ (shortmsg ++ c) in
    omega (
      arith,
      length-append errnum b,
      length-append shortmsg c,
      length-append longmsg d,
      length-append cause e,
    )

length-parse_uri :
    (below : ℕ) (uri cgiargs : List ℕ)
    → length uri < 8192
    → length cgiargs < 8192
    → (length (request_parse_uri below uri cgiargs).filename ≤ length uri + 18)
      × (length (request_parse_uri below uri cgiargs).cgiargs < 8192)
unfolding request_parse_uri
length-parse_uri below uri cgiargs h held = elim (Bool-cases (strstr uri (codes ".."))) [
  | inl dots ↦ rw dots (omega arith, omega arith)
  | inr dots ↦ elim (Bool-cases (strstr uri (codes "cgi"))) [
    | inl cgi ↦
        rw (dots, cgi)
          (omega (arith, length-before_question uri), omega (arith, length-cgi_args uri))
    | inr cgi ↦ elim (Bool-cases (last_byte below uri == b'/')) [
      | inl slash ↦
          rw (dots, cgi, slash)
            (omega (arith, length-append (public_dir ++ uri) (codes "home.html")), omega arith)
      | inr slash ↦ rw (dots, cgi, slash) (omega arith, omega arith)
    ]
  ]
]

-- The page of an error, with its zero, fits `body` of `requestError`.
abbrev pub PageFits : List ℕ → List ℕ → List ℕ → List ℕ → Type 0
PageFits cause errnum shortmsg longmsg =
    length (error_body cause errnum shortmsg longmsg) + 1 ≤ maxbuf

page_fits :
    (cause errnum shortmsg longmsg : List ℕ)
    → length cause < 8018
    → length errnum + length shortmsg + length longmsg ≤ 80
    → PageFits cause errnum shortmsg longmsg
page_fits cause errnum shortmsg longmsg h g =
    omega (arith, length-error_body cause errnum shortmsg longmsg)

-- Each text that the client and the server print for a request, with its zero, fits its buffer: the
-- request, the name of the file, the arguments of a program, and the page of every error that the handler
-- may answer.
pub record Fits (method filename hostname cgiargs : List ℕ) (below : ℕ) : Type 0 where
  pub request : length (request_text method filename hostname) + 1 ≤ maxline
  pub file : length (request_parse_uri below filename cgiargs).filename + 1 ≤ maxline
  pub arguments : length (request_parse_uri below filename cgiargs).cgiargs + 1 ≤ maxline
  pub not_found :
      PageFits
        (request_parse_uri below filename cgiargs).filename
        (codes "404")
        (codes "Not found")
        (codes "OS-HW3 Server could not find this file")
  pub not_readable :
      PageFits
        (request_parse_uri below filename cgiargs).filename
        (codes "403")
        (codes "Forbidden")
        (codes "OS-HW3 Server could not read this file")
  pub not_runnable :
      PageFits
        (request_parse_uri below filename cgiargs).filename
        (codes "403")
        (codes "Forbidden")
        (codes "OS-HW3 Server could not run this CGI program")
  pub nothing_to_map :
      PageFits
        (request_parse_uri below filename cgiargs).filename
        (codes "403")
        (codes "Forbidden")
        (codes "OS-HW3 Server cannot map empty file")
  pub unknown_method :
      PageFits method
        (codes "501")
        (codes "Not Implemented")
        (codes "OS-HW3 Server does not implement this method")

-- For a method, a name and a host name that are short enough, together fewer than 8172 bytes and the
-- first two fewer than 8000, no buffer overflows: the request, the name of the file with the directory in
-- front of it, the arguments of a program, and the pages of all errors fit, where what the buffer of the
-- arguments held before fits it.
pub IsAsked-Fits :
    (method filename hostname cgiargs : List ℕ) (below : ℕ)
    → IsAsked method filename hostname
    → length cgiargs + 1 ≤ maxline
    → Fits method filename hostname cgiargs below
IsAsked-Fits method filename hostname cgiargs below asked held =
    let (name, args) =
      length-parse_uri below filename cgiargs (omega (arith, asked.short)) (omega arith) in
    let t = request_parse_uri below filename cgiargs in
    let small : length t.filename < 8018 = omega (arith, asked.short) in
    record {
      request = omega (arith, length-request_text method filename hostname, asked.short_request);
      file = omega arith;
      arguments = omega arith;
      not_found = page_fits t.filename _ _ _ small (omega arith);
      not_readable = page_fits t.filename _ _ _ small (omega arith);
      not_runnable = page_fits t.filename _ _ _ small (omega arith);
      nothing_to_map = page_fits t.filename _ _ _ small (omega arith);
      unknown_method = page_fits method _ _ _ (omega (arith, asked.short)) (omega arith);
    }
