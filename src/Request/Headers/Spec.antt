-- ===== src/Request/Headers/Spec.antt =====
-- `requestReadhdrs` skips the header lines and the blank line, and nothing else.
use operating_systems_wet.Base.{
  ℕ, zero, suc, ◌+◌, ◌<◌, ltb, ltb→lt, ◌≡◌, refl, sym, ap, ◌∙◌, Bool, true, false, not, ◌&&◌, List,
  [], ◌∷◌, ◌++◌, length, some, arith,
}
use operating_systems_wet.Base.Bytes.{c_string, same_text}
use operating_systems_wet.Rio.Read.{Rio}
use operating_systems_wet.Rio.Read.Stream.{Stop, stream}
use operating_systems_wet.Rio.Line.Text.{in_line, c_string-in_line, rio_readlineb-in_line}
use operating_systems_wet.Request.Stats.{crlf}
use operating_systems_wet.Request.Headers.{headers_got, skipped, request_readhdrs, enough_lines}
use operating_systems_wet.Request.Headers.Fuel.{request_readhdrs_enough}

-- A line, without its newline, that fits the buffer and is not blank.
abbrev pub is_header : List ℕ → Bool
is_header w = in_line w && ltb (length w) 8191 && not (same_text w (13 ∷ []))

abbrev pub all_headers : List (List ℕ) → Bool
all_headers [] = true
all_headers (w ∷ ws) = is_header w && all_headers ws

-- Header lines, a blank line, and what follows.
abbrev pub header_text : List (List ℕ) → List ℕ → List ℕ
header_text [] rest = crlf ++ rest
header_text (w ∷ ws) rest = w ++ (b'\n' ∷ header_text ws rest)

same_text-newline :
    (w : List ℕ) → same_text w (13 ∷ []) ≡ false → same_text (w ++ (b'\n' ∷ [])) crlf ≡ false
same_text-newline [] h = refl
same_text-newline (c ∷ []) h = ground arith
same_text-newline (c ∷ d ∷ []) h = ground arith
same_text-newline (c ∷ d ∷ e ∷ w) h = ground arith

pub not_blank :
    (w : List ℕ) → is_header w ≡ true → same_text (c_string (w ++ (b'\n' ∷ []))) crlf ≡ false
not_blank w h =
    ap (λ l. same_text l crlf) (c_string-in_line w (ground arith))
    ∙ same_text-newline w (ground arith)

skips :
    (fuel : ℕ) (ws : List (List ℕ)) (rest buf : List ℕ) (rp : Rio) (stop : Stop)
    → length ws < fuel
    → all_headers ws ≡ true
    → stream rp ≡ record { coming = header_text ws rest; stop = stop }
    → (rp' : Rio) × (request_readhdrs fuel buf rp ≡ some (skipped rp'))
      × (stream rp' ≡ record { coming = rest; stop = stop })
unfolding request_readhdrs headers_got
skips zero ws rest buf rp stop less h same = absurd (omega arith)
skips (suc fuel) [] rest buf rp stop less h same =
    let (rp', got, left) =
      rio_readlineb-in_line rp 8191 (13 ∷ []) rest stop refl (omega arith) same in
    (rp', rw got, left)
skips (suc fuel) (w ∷ ws) rest buf rp stop less h same =
    let ok : is_header w ≡ true = ground arith in
    let (rp', got, left) =
      rio_readlineb-in_line rp 8191 w (header_text ws rest) stop (ground arith)
        (ltb→lt (length w) 8191 (ground arith)) same in
    let (rp'', done, left') =
      skips fuel ws rest (w ++ (b'\n' ∷ [])) rp' stop (omega arith) (ground arith) left in
    (rp'', rw (got, not_blank w ok) done, left')

-- Where header lines that fit the buffer, and then a blank line, are to come, `requestReadhdrs` returns
-- behind the blank line, whatever the pieces in which they come.
pub request_readhdrs_lem :
    (ws : List (List ℕ)) (rest buf : List ℕ) (rp : Rio) (stop : Stop)
    → all_headers ws ≡ true
    → stream rp ≡ record { coming = header_text ws rest; stop = stop }
    → (rp' : Rio) × (request_readhdrs (enough_lines rp) buf rp ≡ some (skipped rp'))
      × (stream rp' ≡ record { coming = rest; stop = stop })
request_readhdrs_lem ws rest buf rp stop h same =
    let (rp', done, left) =
      skips (enough_lines rp + suc (length ws)) ws rest buf rp stop (omega arith) h same in
    (
      rp',
      sym (request_readhdrs_enough (enough_lines rp + suc (length ws)) buf rp (omega arith)) ∙ done,
      left,
    )
