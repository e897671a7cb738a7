-- ===== src/Client/Roundtrip.antt =====
-- The server reads from a request what the client was asked for.
use operating_systems_wet.Base.{
  ℕ, ◌+◌, ◌<◌, ◌==◌, ◌≡◌, refl, ap, ◌∙◌, Bool, true, false, not, ◌&&◌, List, [], ◌∷◌, ◌++◌,
  append_assoc, length, length-append, some, arith,
}
use operating_systems_wet.Base.Bytes.{codes, c_string, is_space, word, after_word, scan_word}
use operating_systems_wet.Rio.Read.{Rio}
use operating_systems_wet.Rio.Read.Stream.{Stop, stream}
use operating_systems_wet.Rio.Line.{line, rio_readlineb}
use operating_systems_wet.Rio.Line.Text.{in_line, c_string-in_line, rio_readlineb-in_line}
use operating_systems_wet.Request.Headers.{maxline}
use operating_systems_wet.Request.Handle.{Stack, scan_uri, scan_request}
use operating_systems_wet.Client.{request_line, host_lines, request_text}

-- Bytes that stand in a word, and in a line, of a C string.
abbrev pub is_plain : List ℕ → Bool
is_plain [] = true
is_plain (c ∷ s) = not (is_space c) && not (c == 0) && is_plain s

in_line-plain : (w s : List ℕ) → is_plain w ≡ true → in_line s ≡ true → in_line (w ++ s) ≡ true
in_line-plain [] s h g = g
in_line-plain (c ∷ w) s h g = ground (arith, in_line-plain w s)

word-plain : (w r : List ℕ) → is_plain w ≡ true → word (w ++ (b' ' ∷ r)) ≡ w
word-plain [] r h = refl
word-plain (c ∷ w) r h = ground (arith, word-plain w r)

after_word-plain : (w r : List ℕ) → is_plain w ≡ true → after_word (w ++ (b' ' ∷ r)) ≡ b' ' ∷ r
after_word-plain [] r h = refl
after_word-plain (c ∷ w) r h = ground (arith, after_word-plain w r)

-- `%s` takes a word that ends at a space.
scan_word-plain :
    (w r : List ℕ)
    → is_plain w ≡ true
    → 0 < length w
    → scan_word (w ++ (b' ' ∷ r)) ≡ some (w, b' ' ∷ r)
scan_word-plain [] r h pos = absurd (omega arith)
scan_word-plain (c ∷ w) r h pos =
    let shown : is_space c ≡ false = ground arith in
    let rest : is_plain w ≡ true = ground arith in
    rw (scan_word, shown, shown, word-plain w r rest, shown, shown, after_word-plain w r rest)

-- The request line as the server gets it.
line_assoc :
    (method filename : List ℕ)
    → request_line method filename ++ (b'\n' ∷ [])
      ≡ method ++ (b' ' ∷ (filename ++ (b' ' ∷ (codes "HTTP/1.1" ++ (b'\n' ∷ [])))))
line_assoc method filename =
    append_assoc method (b' ' ∷ (filename ++ codes " HTTP/1.1")) (b'\n' ∷ [])
    ∙ ap (λ l. method ++ (b' ' ∷ l)) (append_assoc filename (codes " HTTP/1.1") (b'\n' ∷ []))

scan_request_line :
    (stack : Stack) (method filename : List ℕ)
    → is_plain method ≡ true
    → is_plain filename ≡ true
    → 0 < length method
    → 0 < length filename
    → scan_request stack (request_line method filename ++ (b'\n' ∷ [])) ≡ (method, filename)
scan_request_line stack method filename pm pf nm nf =
    let tail : List ℕ = codes "HTTP/1.1" ++ (b'\n' ∷ []) in
    ap (scan_request stack) (line_assoc method filename)
    ∙ rw (
      scan_request,
      scan_word-plain method (filename ++ (b' ' ∷ tail)) pm nm,
      scan_uri,
      scan_word-plain filename tail pf nf,
    )

pub in_line-request :
    (method filename : List ℕ)
    → is_plain method ≡ true
    → is_plain filename ≡ true
    → in_line (request_line method filename) ≡ true
in_line-request method filename pm pf =
    in_line-plain method (b' ' ∷ (filename ++ codes " HTTP/1.1")) pm
      (in_line-plain filename (codes " HTTP/1.1") pf refl)

pub length-request_line :
    (method filename : List ℕ)
    → length (request_line method filename) ≡ length method + length filename + 10
length-request_line method filename = omega (
  arith,
  length-append method (b' ' ∷ (filename ++ codes " HTTP/1.1")),
  length-append filename (codes " HTTP/1.1"),
)

-- For a method and a file name that are words of a C string, short enough for the first line to fit the
-- server's buffer: what `clientSend` sends, however it is cut into pieces on its way, the server reads and
-- scans as that method and that name, and the header lines stay to be read.
pub client_request_lem :
    (method filename hostname : List ℕ) (stack : Stack) (rp : Rio) (stop : Stop)
    → is_plain method ≡ true
    → is_plain filename ≡ true
    → 0 < length method
    → 0 < length filename
    → length method + length filename < 8181
    → stream rp ≡ record { coming = request_text method filename hostname; stop = stop }
    → (text : List ℕ) × (n : ℕ) × (rp' : Rio) × (rio_readlineb rp maxline ≡ (line text n, rp'))
      × (scan_request stack (c_string text) ≡ (method, filename))
      × (stream rp' ≡ record { coming = host_lines hostname; stop = stop })
client_request_lem method filename hostname stack rp stop pm pf nm nf short same =
    let first : List ℕ = request_line method filename in
    let lined : in_line first ≡ true = in_line-request method filename pm pf in
    let (rp', got, left) =
      rio_readlineb-in_line rp 8191 first (host_lines hostname) stop lined
        (omega (arith, length-request_line method filename)) same in
    (
      first ++ (b'\n' ∷ []),
      length (first ++ (b'\n' ∷ [])),
      rp',
      got,
      ap (scan_request stack) (c_string-in_line first lined)
          ∙ scan_request_line stack method filename pm pf nm nf,
      left,
    )
