-- ===== src/Client.antt =====
-- client.c: `clientSend` and `clientPrint`.
pub mod Roundtrip
pub mod Total
pub mod Fits
pub mod Fetch
pub mod Shows
pub mod Start
use operating_systems_wet.Base.{
  ℕ, zero, suc, ◌==◌, ◌&&◌, leb, Bool, true, false, if◌then◌else◌, List, [], ◌∷◌, ◌++◌, Option,
  none, some,
}
use operating_systems_wet.Base.Int.{ℤ}
use operating_systems_wet.Base.Bytes.{codes, c_string, same_text, skip_space}
use operating_systems_wet.Base.Format.{print_int}
use operating_systems_wet.Rio.Read.{Rio, Event, rio_readinitb}
use operating_systems_wet.Rio.Line.{Line, line, end_of_file, read_error, rio_readlineb}
use operating_systems_wet.Rio.Line.Progress.{pending}
use operating_systems_wet.Segel.{fails}
use operating_systems_wet.Server.Args.{digit_run, to_int, strtol_sign}
use operating_systems_wet.Request.Stats.{crlf}

-- The first line, without its end, and the whole request.
abbrev pub request_line : List ℕ → List ℕ → List ℕ
request_line method filename = method ++ (b' ' ∷ (filename ++ codes " HTTP/1.1"))

-- The lines behind it.
abbrev pub host_lines : List ℕ → List ℕ
host_lines hostname = codes "host: " ++ (hostname ++ (b'\n' ∷ crlf))

abbrev pub request_text : List ℕ → List ℕ → List ℕ → List ℕ
request_text method filename hostname =
    request_line method filename ++ (b'\n' ∷ host_lines hostname)

-- What `clientSend` has printed and sent, or printed before it exits.
pub data Sent : Type 0 where
  sent : (printed text : List ℕ) → Sent
  send_exits : (message printed : List ℕ) → Sent

-- `hostname_rc` and `hostname` are what `gethostname` returns and writes, and `write_ok` is whether
-- `rio_writen` sends everything.
unfoldable pub client_send : ℤ → List ℕ → Bool → List ℕ → List ℕ → Sent
client_send hostname_rc hostname write_ok filename method =
    let text = request_text method filename hostname in
    let printed = codes "Request:" ++ (b'\n' ∷ (text ++ (b'\n' ∷ []))) in
    if fails hostname_rc
    then send_exits (codes "Setenv error") []
    else if write_ok
    then sent printed text
    else send_exits (codes "Rio_writen error") printed

-- What is left of a text behind a prefix.
abbrev pub behind : List ℕ → List ℕ → Option (List ℕ)
behind [] s = some s
behind (p ∷ prefix) [] = none
behind (p ∷ prefix) (c ∷ s) = if p == c then behind prefix s else none

abbrev pub starts_with_digit : List ℕ → Bool
starts_with_digit [] = false
starts_with_digit (c ∷ s) = leb b'0' c && leb c b'9'

-- Whether `%d` finds a number: a sign may come first.
abbrev pub has_number : List ℕ → Bool
has_number [] = false
has_number (c ∷ s) =
    if c == b'-'
    then starts_with_digit s
    else if c == b'+'
    then starts_with_digit s
    else starts_with_digit (c ∷ s)

-- `sscanf(buf, "Content-Length: %d ", &length) == 1`, and then the line that is printed.
abbrev pub length_note_of : Option (List ℕ) → List ℕ
length_note_of none = []
length_note_of (some s) =
    if has_number (skip_space s)
    then codes "Length = " ++ (print_int (to_int (strtol_sign (skip_space s))) ++ (b'\n' ∷ []))
    else []

abbrev pub length_note : List ℕ → List ℕ
length_note text = length_note_of (behind (codes "Content-Length:") text)

-- What has been printed when the reading is over, or when `Rio_readlineb` exits.
pub data Printed : Type 0 where
  printed_all : (printed : List ℕ) (rp : Rio) → Printed
  print_exits : (printed : List ℕ) → Printed

-- The first loop, over the header lines, on what one call of `Rio_readlineb` did; `next_round` is the
-- rest of the loop.
abbrev pub header_got : List ℕ → (List ℕ → Rio → Option Printed) → Line × Rio → Option Printed
header_got printed next_round (line text n, rp) =
    if same_text (c_string text) crlf
    then some (printed_all printed rp)
    else next_round
        (printed ++ (codes "Header: " ++ (c_string text ++ length_note (c_string text)))) rp
header_got printed next_round (end_of_file, rp) = some (printed_all printed rp)
header_got printed next_round (read_error, rp) = some (print_exits printed)

-- MAXBUF of segel.h.
abbrev pub maxbuf : ℕ
maxbuf = 8192

-- `none` is fuel that ran out.
unfoldable pub print_headers : ℕ → List ℕ → Rio → Option Printed
print_headers zero printed rp = none
print_headers (suc fuel) printed rp =
    header_got printed (print_headers fuel) (rio_readlineb rp maxbuf)

-- The second loop, over the body.
abbrev pub body_got : List ℕ → (List ℕ → Rio → Option Printed) → Line × Rio → Option Printed
body_got printed next_round (line text n, rp) = next_round (printed ++ c_string text) rp
body_got printed next_round (end_of_file, rp) = some (printed_all printed rp)
body_got printed next_round (read_error, rp) = some (print_exits printed)

unfoldable pub print_body : ℕ → List ℕ → Rio → Option Printed
print_body zero printed rp = none
print_body (suc fuel) printed rp = body_got printed (print_body fuel) (rio_readlineb rp maxbuf)

abbrev pub then_body : Option Printed → Option Printed
then_body none = none
then_body (some (printed_all printed rp)) = print_body (suc (pending rp)) printed rp
then_body (some (print_exits printed)) = some (print_exits printed)

-- Each line uses up a byte or an event that is to come.
unfoldable pub client_print : List Event → Option Printed
unfolding print_headers rio_readinitb
client_print fd = let rp = rio_readinitb fd in then_body (print_headers (suc (pending rp)) [] rp)
