-- ===== src/Request/Headers.antt =====
-- request.c: `requestReadhdrs`, which skips the header lines of a request.
pub mod Fuel
pub mod Spec
pub mod Same
use operating_systems_wet.Base.{
  ℕ, zero, suc, ◌+◌, ◌≡◌, refl, false, if◌then◌else◌, List, [], ◌∷◌, Option, none, some, length,
}
use operating_systems_wet.Base.Bytes.{c_string, same_text}
use operating_systems_wet.Rio.Read.{Rio, Event, chunk, interrupted, broken, rio_read}
use operating_systems_wet.Rio.Line.Progress.{pending, exhausted}
use operating_systems_wet.Rio.Line.{Line, line, end_of_file, read_error, rio_readlineb}
use operating_systems_wet.Request.Stats.{crlf}

-- MAXLINE of segel.h.
abbrev pub maxline : ℕ
maxline = 8192

-- The wrapper `Rio_readlineb` exits on an error.
pub data Headers : Type 0 where
  skipped : Rio → Headers
  read_failed : Headers

-- The test of the `while`, on what the buffer holds after a read: the end of file leaves it as it was.
pub headers_got : List ℕ → Line × Rio → (List ℕ → Rio → Option Headers) → Option Headers
headers_got buf (line text n, rp) next_round =
    if same_text (c_string text) crlf then some (skipped rp) else next_round text rp
headers_got buf (end_of_file, rp) next_round =
    if same_text (c_string buf) crlf then some (skipped rp) else next_round buf rp
headers_got buf (read_error, rp) next_round = some read_failed

-- The loop, `buf` being what the buffer holds before. `none` is fuel that ran out.
unfoldable pub request_readhdrs : ℕ → List ℕ → Rio → Option Headers
unfolding headers_got
request_readhdrs zero buf rp = none
request_readhdrs (suc fuel) buf rp =
    headers_got buf (rio_readlineb rp maxline) (request_readhdrs fuel)

-- More lines than can come.
abbrev pub enough_lines : Rio → ℕ
enough_lines rp = suc (pending rp)

readline-exhausted : rio_readlineb exhausted maxline ≡ (end_of_file, exhausted)
unfolding rio_readlineb rio_read
readline-exhausted = refl

-- At the end of the file, where the buffer does not happen to hold a blank line, the loop never
-- ends: it has no result with any amount of fuel.
pub request_readhdrs_stuck :
    (fuel : ℕ) (buf : List ℕ)
    → same_text (c_string buf) crlf ≡ false
    → request_readhdrs fuel buf exhausted ≡ none
unfolding request_readhdrs
request_readhdrs_stuck zero buf h = refl
request_readhdrs_stuck (suc fuel) buf h =
    rw (readline-exhausted, h) (request_readhdrs_stuck fuel buf h)
